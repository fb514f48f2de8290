-- ===== src/Json.antt =====
-- internal/contractv1/strict_json.go: the walk over the tokens of a payload that refuses what
-- `encoding/json` lets through, such as duplicate member names. The tokens are those that a
-- `json.Decoder` yields, and where they end the decoder is at the end of the input, or at something
-- that it cannot read; then `More` may say either. A string is the list of its bytes.
pub mod Grammar
pub mod Sound
pub mod Complete
pub mod Members
pub mod Examples
use hooshi_xagent.Base.{
  List, [], ◌∷◌, ℕ, zero, suc, Bool, true, false, not, Result, ok, err, reject_if, ◌>>◌, ◌>>=◌,
  length, if◌then◌else◌, ◌+◌, bytes_eq,
}

pub data Token : Type 0 where
  open_object close_object open_array close_array null : Token
  bool : Bool → Token
  number str : List ℕ → Token

pub data Ending : Type 0 where
  at_end : Ending
  malformed : Bool → Ending

pub data JsonError : Type 0 where
  invalid_token not_an_object name_not_string duplicate_name bad_close unexpected_delimiter :
      JsonError
  several_values null_member missing_member empty_member out_of_fuel : JsonError

-- `decoder.More()` and `decoder.Token()`
unfoldable pub more : Ending → List Token → Bool
more at_end [] = false
more (malformed says) [] = says
more ending (close_object ∷ rest) = false
more ending (close_array ∷ rest) = false
more ending (token ∷ rest) = true

unfoldable pub next : List Token → Result JsonError (Token × List Token)
next [] = err invalid_token
next (token ∷ rest) = ok (token, rest)

unfoldable pub name_of : Token → Result JsonError (List ℕ)
name_of (str name) = ok name
name_of token = err name_not_string

unfoldable pub is_in : List (List ℕ) → List ℕ → Bool
is_in [] name = false
is_in (seen ∷ rest) name = if bytes_eq seen name then true else is_in rest name

unfoldable pub close_object_of : Token → Result JsonError (Unit {0})
close_object_of close_object = ok tt
close_object_of token = err bad_close

unfoldable pub close_array_of : Token → Result JsonError (Unit {0})
close_array_of close_array = ok tt
close_array_of token = err bad_close

-- What a call leaves of the tokens is not a structural part of them, so each call costs a unit of
-- fuel. The results are the tokens that are left.
unfoldable mutual
  pub consume_object : ℕ → Ending → List (List ℕ) → List Token → Result JsonError (List Token)
  consume_object zero ending seen tokens = err out_of_fuel
  consume_object (suc fuel) ending seen tokens =
      let member = do
        (key, after_key) ← next tokens
        name ← name_of key
        reject_if (is_in seen name) duplicate_name
        (value, after_value) ← next after_key
        rest ← consume_value fuel ending value after_value
        consume_object fuel ending (name ∷ seen) rest
      in let closing = do (token, rest) ← next tokens; close_object_of token; ok rest
        in if more ending tokens then member else closing

  pub consume_value : ℕ → Ending → Token → List Token → Result JsonError (List Token)
  consume_value zero ending token rest = err out_of_fuel
  consume_value (suc fuel) ending open_object rest = consume_object fuel ending [] rest
  consume_value (suc fuel) ending open_array rest = consume_array fuel ending rest
  consume_value (suc fuel) ending close_object rest = err unexpected_delimiter
  consume_value (suc fuel) ending close_array rest = err unexpected_delimiter
  consume_value (suc fuel) ending token rest = ok rest

  pub consume_array : ℕ → Ending → List Token → Result JsonError (List Token)
  consume_array zero ending tokens = err out_of_fuel
  consume_array (suc fuel) ending tokens =
      let item = do
        (value, after_value) ← next tokens
        rest ← consume_value fuel ending value after_value
        consume_array fuel ending rest
      in let closing = do (token, rest) ← next tokens; close_array_of token; ok rest
        in if more ending tokens then item else closing

-- Enough for the walk over these tokens.
abbrev pub fuel_for : List Token → ℕ
fuel_for tokens = length tokens + length tokens + 2

unfoldable pub starts_object : Token → Result JsonError (Unit {0})
starts_object open_object = ok tt
starts_object token = err not_an_object

-- The last `Token()` has to find the end of the input.
unfoldable pub check_trailing : Ending → List Token → Result JsonError (Unit {0})
check_trailing at_end [] = ok tt
check_trailing (malformed says) [] = err invalid_token
check_trailing ending (token ∷ rest) = err several_values

-- `validateStrictJSONObject`, after its check that the bytes are UTF-8.
unfoldable pub validate_tokens : Ending → List Token → Result JsonError (Unit {0})
unfolding next starts_object check_trailing consume_object
validate_tokens ending tokens = do
  (first, rest) ← next tokens
  starts_object first
  left ← consume_object (fuel_for rest) ending [] rest
  check_trailing ending left
