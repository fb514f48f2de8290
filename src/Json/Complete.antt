-- ===== src/Json/Complete.antt =====
-- internal/contractv1/strict_json.go: the walk accepts the tokens of an object whose member names
-- differ, and no others.
use hooshi_xagent.Json.{
  Token, Ending, more, next, name_of, close_object_of, close_array_of, consume_object,
  consume_value, consume_array, validate_tokens, fuel_for, starts_object, check_trailing,
}
use hooshi_xagent.Json.Grammar.{
  Value, Items, Members, head_token, emit_rest, emit_items, emit_members, IsStrict, AreStrict,
  AreFresh,
}
use hooshi_xagent.Json.Sound.{Yields, IsStrictObject, validate_tokens-Yields}
use hooshi_xagent.Base.{
  ok, ◌≡◌, List, [], arith, false, length, length-append, refl, subst, suc, true, zero, ℕ, ◌++◌,
  ◌+◌, ◌<◌, ◌↔◌, ◌∷◌,
}
use mathlib.Core.List.{append_assoc, append-nil}

-- There is more as long as no closing delimiter is next.
more_value :
    (ending : Ending) (value : Value) (rest : List Token)
    → more ending (head_token value ∷ rest) ≡ true
unfolding more head_token
more_value Ending.at_end Value.null rest = refl
more_value Ending.at_end _ rest = refl
more_value (Ending.malformed says) Value.null rest = refl
more_value (Ending.malformed says) _ rest = refl

pub more_name :
    (ending : Ending) (name : List ℕ) (rest : List Token)
    → more ending (Token.str name ∷ rest) ≡ true
unfolding more
more_name Ending.at_end name rest = refl
more_name (Ending.malformed says) name rest = refl

pub more_close_object :
    (ending : Ending) (rest : List Token) → more ending (Token.close_object ∷ rest) ≡ false
unfolding more
more_close_object Ending.at_end rest = refl
more_close_object (Ending.malformed says) rest = refl

more_close_array :
    (ending : Ending) (rest : List Token) → more ending (Token.close_array ∷ rest) ≡ false
unfolding more
more_close_array Ending.at_end rest = refl
more_close_array (Ending.malformed says) rest = refl

-- The walk over the tokens of a tree stops after them, given twice as much fuel as there are tokens.
mutual
  unfolding consume_object emit_members AreFresh head_token next name_of close_object_of
      close_array_of

  consume_object-emit_members :
      (fuel : ℕ) (ending : Ending) (seen : List (List ℕ)) (fields : Members) (rest : List Token)
      → length (emit_members fields) + length (emit_members fields) < fuel
      → AreFresh seen fields
      → consume_object fuel ending seen (emit_members fields ++ rest) ≡ ok rest
  consume_object-emit_members zero ending seen fields rest h fresh = absurd (omega arith)
  consume_object-emit_members (suc fuel) ending seen Members.no_members rest h fresh =
      rw (more_close_object ending rest) refl
  consume_object-emit_members (suc fuel) ending seen (Members.member name value fields) rest h
        (new, strict, fresh) =
      let shorter = length-append (emit_rest value) (emit_members fields) in
      rw
        (
          more_name ending name
              (head_token value ∷ ((emit_rest value ++ emit_members fields) ++ rest)),
          new,
          append_assoc (emit_rest value) (emit_members fields) rest,
          consume_value-emit_rest fuel ending value (emit_members fields ++ rest)
              (omega (arith, shorter, h)) strict,
          consume_object-emit_members fuel ending (name ∷ seen) fields rest
              (omega (arith, shorter, h)) fresh,
        )
        refl

  pub consume_value-emit_rest :
      (fuel : ℕ) (ending : Ending) (value : Value) (rest : List Token)
      → length (emit_rest value) + length (emit_rest value) + 1 < fuel
      → IsStrict value
      → consume_value fuel ending (head_token value) (emit_rest value ++ rest) ≡ ok rest
  consume_value-emit_rest zero ending value rest h strict = absurd (omega arith)
  consume_value-emit_rest (suc fuel) ending (Value.object fields) rest h fresh =
      consume_object-emit_members fuel ending [] fields rest (omega arith) fresh
  consume_value-emit_rest (suc fuel) ending (Value.array items) rest h strict =
      consume_array-emit_items fuel ending items rest (omega arith) strict
  consume_value-emit_rest (suc fuel) ending Value.null rest h strict = refl
  consume_value-emit_rest (suc fuel) ending _ rest h strict = refl

  consume_array-emit_items :
      (fuel : ℕ) (ending : Ending) (items : Items) (rest : List Token)
      → length (emit_items items) + length (emit_items items) < fuel
      → AreStrict items
      → consume_array fuel ending (emit_items items ++ rest) ≡ ok rest
  consume_array-emit_items zero ending items rest h strict = absurd (omega arith)
  consume_array-emit_items (suc fuel) ending Items.no_items rest h strict =
      rw (more_close_array ending rest) refl
  consume_array-emit_items (suc fuel) ending (Items.item value items) rest h (strict, all) =
      let shorter = length-append (emit_rest value) (emit_items items) in
      rw
        (
          more_value ending value ((emit_rest value ++ emit_items items) ++ rest),
          append_assoc (emit_rest value) (emit_items items) rest,
          consume_value-emit_rest fuel ending value (emit_items items ++ rest)
              (omega (arith, shorter, h)) strict,
          consume_array-emit_items fuel ending items rest (omega (arith, shorter, h)) all,
        )
        refl

-- The walk accepts tokens exactly when the input ends after them and they are those of an object
-- tree in which no object, at any depth, has a member name twice.
pub validate_tokens_iff :
    (ending : Ending) (tokens : List Token)
    → (validate_tokens ending tokens ≡ ok tt) ↔ IsStrictObject ending tokens
unfolding validate_tokens starts_object check_trailing consume_object next
validate_tokens_iff ending tokens = (
  λ e. subst (Yields (λ u. IsStrictObject ending tokens)) e (validate_tokens-Yields ending tokens),
  λ (fields, at_end, p, fresh).
      let left =
        consume_object-emit_members (fuel_for (emit_members fields)) ending [] fields []
          (omega arith) fresh in
      rw (p, rw (append-nil (emit_members fields)) at left, at_end) refl,
)
