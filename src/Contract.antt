-- ===== src/Contract.antt =====
-- internal/contractv1/validation.go: the checks on identifiers, nonces and times, and the byte
-- strings that are signed. A string is the list of its bytes.
pub mod Nul
pub mod Transcript
pub mod Examples
use hooshi_xagent.Base.{
  List, [], ◌∷◌, ◌++◌, ℕ, Bool, true, false, not, Option, some, none, Result, ok, err, reject_if,
  ◌>>◌, ltb, leb, ◌==◌, length, if◌then◌else◌, ◌&&◌, ◌||◌, bytes_eq, ==_iff, >>=-eq-ok, All,
  All-append, All-drop, All-take, Bool-cases, Option-cases, ap, arith, bytes_eq_refl,
  bytes_eq_sound, drop, drop-drop, if_cases, inl, inr, leb→le, length-append, length-drop,
  length-take_of_le, ltb→lt, lt→ltb, map, negsuc, pos, refl, reject_if-eq-ok, subst, suc, sym, take,
  take-append-drop, take-drop-append, zero, ℤ, ◌%◌, ◌*◌, ◌+◌, ◌-◌, ◌/◌, ◌<◌, ◌>>=◌, ◌^◌, ◌↔◌, ◌∙◌,
  ◌≡◌, ◌≢◌, ◌≤◌, ◌⊎◌,
}

-- What the standard library does: encoding/base64, time and crypto/ed25519. A time is a number of
-- nanoseconds.
pub record Std : Type 0 where
  pub raw_url_decode : List ℕ → Option (List ℕ)
  pub raw_url_encode : List ℕ → List ℕ
  pub parse_rfc3339 : List ℕ → Option ℕ
  pub ed25519_verify : List ℕ → List ℕ → List ℕ → Bool

pub data ContractError : Type 0 where
  invalid_id invalid_base64 not_canonical invalid_time : ContractError
  invalid_public_key invalid_signature session_mismatch invalid_inputs not_verified : ContractError

abbrev between : ℕ → ℕ → ℕ → Bool
between low high b = leb low b && leb b high

unfoldable pub is_digit : ℕ → Bool
is_digit b = between b'0' b'9' b

-- `[A-Za-z0-9]`
unfoldable pub is_alphanumeric : ℕ → Bool
unfolding is_digit
is_alphanumeric b = between b'A' b'Z' b || (between b'a' b'z' b || is_digit b)

-- `[A-Za-z0-9._:-]`
unfoldable pub is_id_byte : ℕ → Bool
unfolding is_alphanumeric
is_id_byte b = is_alphanumeric b || (b == b'.' || (b == b'_' || (b == b':' || b == b'-')))

unfoldable pub all_bytes : (ℕ → Bool) → List ℕ → Bool
all_bytes p [] = true
all_bytes p (b ∷ bs) = p b && all_bytes p bs

-- `idPattern`
unfoldable pub matches_id : List ℕ → Bool
unfolding is_id_byte all_bytes
matches_id [] = false
matches_id (b ∷ bs) = is_alphanumeric b && (all_bytes is_id_byte bs && leb (length bs) 63)

unfoldable pub validate_id : List ℕ → Result ContractError (Unit {0})
unfolding matches_id
validate_id value = reject_if (not (matches_id value)) invalid_id

unfoldable pub check_decoded : Std → List ℕ → ℕ → Option (List ℕ) → Result ContractError (Unit {0})
check_decoded std value size none = err invalid_base64
check_decoded std value size (some decoded) =
    reject_if (not (length decoded == size)) invalid_base64
    >> reject_if (not (bytes_eq (std.raw_url_encode decoded) value)) not_canonical

unfoldable pub validate_raw_base64_length : Std → List ℕ → ℕ → Result ContractError (Unit {0})
unfolding check_decoded
validate_raw_base64_length std value size = check_decoded std value size (std.raw_url_decode value)

-- The value of two digits, below `high`, is a component of a time.
unfoldable pub two_digits : ℕ → ℕ → ℕ → ℕ → Bool
unfolding is_digit
two_digits low high a b =
    is_digit a && (is_digit b && between (low + 528) (high + 528) (10 * a + b))

-- `(?:\.[0-9]{1,9})?Z$`: after the point, with the digits that were read so far.
unfoldable pub matches_fraction : ℕ → List ℕ → Bool
unfolding is_digit
matches_fraction count [] = false
matches_fraction count (b ∷ bs) =
    if b == b'Z'
    then between 1 9 count && (length bs == 0)
    else is_digit b && matches_fraction (count + 1) bs

unfoldable pub matches_zone : List ℕ → Bool
unfolding matches_fraction
matches_zone [] = false
matches_zone (b ∷ bs) = if b == b'Z' then length bs == 0 else (b == b'.') && matches_fraction 0 bs

-- `T(?:[01][0-9]|2[0-3]):[0-5][0-9]:[0-5][0-9]` and the rest
unfoldable pub matches_clock : List ℕ → Bool
unfolding matches_zone two_digits
matches_clock (t ∷ h ∷ h' ∷ c ∷ m ∷ m' ∷ c' ∷ s ∷ s' ∷ rest) =
    (t == b'T' && (c == b':' && c' == b':'))
    && (two_digits 0 23 h h'
        && (two_digits 0 59 m m' && (two_digits 0 59 s s' && matches_zone rest)))
matches_clock _ = false

-- `utcTimestampPattern`
unfoldable pub matches_timestamp : List ℕ → Bool
unfolding matches_clock two_digits is_digit
matches_timestamp (y ∷ y' ∷ z ∷ z' ∷ c ∷ m ∷ m' ∷ c' ∷ d ∷ d' ∷ rest) =
    (is_digit y && (is_digit y' && (is_digit z && is_digit z')))
    && ((c == b'-' && c' == b'-')
        && (two_digits 1 12 m m' && (two_digits 1 31 d d' && matches_clock rest)))
matches_timestamp _ = false

unfoldable pub parse_utc_time : Std → List ℕ → Result ContractError ℕ
unfolding matches_timestamp
parse_utc_time std value =
    reject_if (not (matches_timestamp value)) invalid_time
    >> elim (std.parse_rfc3339 value) [ none ↦ err invalid_time | some time ↦ ok time ]
