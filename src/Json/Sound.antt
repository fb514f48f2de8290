-- ===== src/Json/Sound.antt =====
-- internal/contractv1/strict_json.go: what the walk accepts is a tree's tokens, and it never runs
-- out of fuel.
use hooshi_xagent.Json.{
  Token, JsonError, next, name_of, close_object_of, close_array_of, consume_object, Ending, more,
  consume_value, is_in, consume_array, starts_object, check_trailing, validate_tokens, fuel_for,
}
use hooshi_xagent.Json.Grammar.{
  Value, Items, Members, head_token, emit_rest, emit_items, emit_members, IsStrict, AreStrict,
  AreFresh,
}
use hooshi_xagent.Base.{
  Result, ok, err, reject_if, ◌>>=◌, ◌≡◌, ◌≢◌, Bool, List, [], arith, false, length, length-append,
  refl, true, ℕ, ◌++◌, ◌<◌, ◌∷◌, ap, if_cases, suc, zero, ◌+◌, ◌≤◌, subst,
}
use mathlib.Core.List.{append_assoc, append-nil}

-- The result is one that the predicate holds of, or a fault other than that of too little fuel.
abbrev pub Yields : {X : Type 0} → (X → Type 0) → Result JsonError X → Type 0
Yields P (err fault) = fault ≢ JsonError.out_of_fuel
Yields P (ok x) = P x

module _ {X Y : Type 0} where
  pub Yields->>= :
      (P : X → Type 0) (Q : Y → Type 0) (first : Result JsonError X) (rest : X → Result JsonError Y)
      → Yields P first
      → ((x : X) → P x → Yields Q (rest x))
      → Yields Q (first >>= rest)
  Yields->>= P Q (err fault) rest h k = h
  Yields->>= P Q (ok x) rest h k = k x h

module _ {X : Type 0} where
  pub Yields-impl :
      (P Q : X → Type 0) (result : Result JsonError X)
      → ((x : X) → P x → Q x)
      → Yields P result
      → Yields Q result
  Yields-impl P Q (err fault) k h = h
  Yields-impl P Q (ok x) k h = k x h

-- A fault is another one than that of too little fuel.
invalid_token-ne-out_of_fuel : JsonError.invalid_token ≢ JsonError.out_of_fuel
invalid_token-ne-out_of_fuel e = cc

reject_if-Yields :
    (bad : Bool) (fault : JsonError)
    → fault ≢ JsonError.out_of_fuel
    → Yields (λ u. bad ≡ false) (reject_if bad fault)
reject_if-Yields true fault h = h
reject_if-Yields false fault h = refl

next-Yields : (tokens : List Token) → Yields (λ found. tokens ≡ found.0 ∷ found.1) (next tokens)
unfolding next
next-Yields [] = invalid_token-ne-out_of_fuel
next-Yields (token ∷ rest) = refl

name_of-Yields : (token : Token) → Yields (λ name. token ≡ Token.str name) (name_of token)
unfolding name_of
name_of-Yields (Token.str name) = refl
name_of-Yields _ = λ e. cc

close_object_of-Yields :
    (token : Token) → Yields (λ u. token ≡ Token.close_object) (close_object_of token)
unfolding close_object_of
close_object_of-Yields Token.close_object = refl
close_object_of-Yields _ = λ e. cc

close_array_of-Yields :
    (token : Token) → Yields (λ u. token ≡ Token.close_array) (close_array_of token)
unfolding close_array_of
close_array_of-Yields Token.close_array = refl
close_array_of-Yields _ = λ e. cc

-- What the walk over an object, a value and an array has consumed.
abbrev ObjectRead : List (List ℕ) → List Token → List Token → Type 0
ObjectRead seen tokens rest =
    (fields : Members) × (tokens ≡ emit_members fields ++ rest) × AreFresh seen fields

abbrev ValueRead : Token → List Token → List Token → Type 0
ValueRead token tokens rest =
    (value : Value) × (token ≡ head_token value)
    × (tokens ≡ emit_rest value ++ rest)
    × IsStrict value

abbrev ArrayRead : List Token → List Token → Type 0
ArrayRead tokens rest = (items : Items) × (tokens ≡ emit_items items ++ rest) × AreStrict items

module _ {A : Type 0} where
  length-append_left : (xs ys zs : List A) → xs ≡ ys ++ zs → length zs ≤ length xs
  length-append_left xs ys zs e = rw e (omega (arith, length-append ys zs))

-- The pieces read, put together.
member_read :
    (seen : List (List ℕ)) (left : List Token) {tokens after_key after_value rest : List Token}
    {key token : Token} {name : List ℕ}
    → tokens ≡ key ∷ after_key
    → key ≡ Token.str name
    → is_in seen name ≡ false
    → after_key ≡ token ∷ after_value
    → ValueRead token after_value rest
    → ObjectRead (name ∷ seen) rest left
    → ObjectRead seen tokens left
unfolding emit_members AreFresh
member_read seen left {name = name} p q new r (value, s, t, strict) (fields, u, fresh) =
    (Members.member name value fields, simp (p, q, r, s, t, u, append_assoc), (new, strict, fresh))

item_read :
    (left : List Token) {tokens after_value rest : List Token} {token : Token}
    → tokens ≡ token ∷ after_value
    → ValueRead token after_value rest
    → ArrayRead rest left
    → ArrayRead tokens left
unfolding emit_items AreStrict
item_read left p (value, s, t, strict) (items, u, all) =
    (Items.item value items, simp (p, s, t, u, append_assoc), (strict, all))

-- One induction on the fuel. What follows a value is no longer than what it starts with, so that
-- twice the number of tokens bounds the calls still to come.
mutual
  unfolding consume_object emit_members AreFresh head_token

  consume_object-Yields :
      (fuel : ℕ) (ending : Ending) (seen : List (List ℕ)) (tokens : List Token)
      → length tokens + length tokens < fuel
      → Yields (ObjectRead seen tokens) (consume_object fuel ending seen tokens)
  consume_object-Yields zero ending seen tokens h = absurd (omega arith)
  consume_object-Yields (suc fuel) ending seen tokens h =
      let Goal = ObjectRead seen tokens in
      if_cases (Yields Goal) (more ending tokens)
        (λ e. Yields->>= _ Goal (next tokens) _ (next-Yields tokens) λ (key, after_key) p.
          Yields->>= _ Goal (name_of key) _ (name_of-Yields key) λ name q.
            Yields->>= _ Goal (reject_if (is_in seen name) JsonError.duplicate_name) _
              (reject_if-Yields (is_in seen name) JsonError.duplicate_name (λ f. cc))
              λ u new.
                Yields->>= _ Goal (next after_key) _ (next-Yields after_key)
                  λ (token, after_value) r.
                    Yields->>= _ Goal (consume_value fuel ending token after_value) _
                      (consume_value-Yields fuel ending token after_value
                        (omega (arith, ap length p, ap length r)))
                      λ rest read.
                        Yields-impl (ObjectRead (name ∷ seen) rest) Goal
                          (consume_object fuel ending (name ∷ seen) rest)
                          (λ left. member_read seen left p q new r read)
                          (consume_object-Yields fuel ending (name ∷ seen) rest (
                            omega (
                              arith,
                              ap length p,
                              ap length r,
                              length-append_left after_value (emit_rest read.0) rest read.2,
                            ))))
        (λ e. Yields->>= _ Goal (next tokens) _ (next-Yields tokens) λ (token, rest) p.
          Yields->>= _ Goal (close_object_of token) _ (close_object_of-Yields token)
            λ u q. (Members.no_members, simp (p, q), tt))

  consume_value-Yields :
      (fuel : ℕ) (ending : Ending) (token : Token) (tokens : List Token)
      → length tokens + length tokens + 1 < fuel
      → Yields (ValueRead token tokens) (consume_value fuel ending token tokens)
  consume_value-Yields zero ending token tokens h = absurd (omega arith)
  consume_value-Yields (suc fuel) ending Token.open_object tokens h =
      Yields-impl (ObjectRead [] tokens) (ValueRead Token.open_object tokens)
        (consume_object fuel ending [] tokens)
        (λ left (fields, p, fresh). (Value.object fields, refl, p, fresh))
        (consume_object-Yields fuel ending [] tokens (omega arith))
  consume_value-Yields (suc fuel) ending Token.open_array tokens h =
      Yields-impl (ArrayRead tokens) (ValueRead Token.open_array tokens)
        (consume_array fuel ending tokens)
        (λ left (items, p, strict). (Value.array items, refl, p, strict))
        (consume_array-Yields fuel ending tokens (omega arith))
  consume_value-Yields (suc fuel) ending Token.close_object tokens h = λ e. cc
  consume_value-Yields (suc fuel) ending Token.close_array tokens h = λ e. cc
  consume_value-Yields (suc fuel) ending Token.null tokens h = (Value.null, refl, refl, tt)
  consume_value-Yields (suc fuel) ending (Token.bool b) tokens h = (Value.bool b, refl, refl, tt)
  consume_value-Yields (suc fuel) ending (Token.number b) tokens h =
      (Value.number b, refl, refl, tt)
  consume_value-Yields (suc fuel) ending (Token.str b) tokens h = (Value.str b, refl, refl, tt)

  consume_array-Yields :
      (fuel : ℕ) (ending : Ending) (tokens : List Token)
      → length tokens + length tokens < fuel
      → Yields (ArrayRead tokens) (consume_array fuel ending tokens)
  consume_array-Yields zero ending tokens h = absurd (omega arith)
  consume_array-Yields (suc fuel) ending tokens h =
      let Goal = ArrayRead tokens in
      if_cases (Yields Goal) (more ending tokens)
        (λ e. Yields->>= _ Goal (next tokens) _ (next-Yields tokens) λ (token, after_value) p.
          Yields->>= _ Goal (consume_value fuel ending token after_value) _
            (consume_value-Yields fuel ending token after_value (omega (arith, ap length p)))
            λ rest read.
              Yields-impl (ArrayRead rest) Goal (consume_array fuel ending rest)
                (λ left. item_read left p read)
                (consume_array-Yields fuel ending rest (
                  omega (
                    arith,
                    ap length p,
                    length-append_left after_value (emit_rest read.0) rest read.2,
                  ))))
        (λ e. Yields->>= _ Goal (next tokens) _ (next-Yields tokens) λ (token, rest) p.
          Yields->>= _ Goal (close_array_of token) _ (close_array_of-Yields token)
            λ u q. (Items.no_items, simp (p, q), tt))

starts_object-Yields :
    (token : Token) → Yields (λ u. token ≡ Token.open_object) (starts_object token)
unfolding starts_object
starts_object-Yields Token.open_object = refl
starts_object-Yields _ = λ e. cc

check_trailing-Yields :
    (ending : Ending) (tokens : List Token)
    → Yields (λ u. (ending ≡ Ending.at_end) × (tokens ≡ [])) (check_trailing ending tokens)
unfolding check_trailing
check_trailing-Yields Ending.at_end [] = (refl, refl)
check_trailing-Yields (Ending.malformed says) [] = λ e. cc
check_trailing-Yields Ending.at_end (token ∷ rest) = λ e. cc
check_trailing-Yields (Ending.malformed says) (token ∷ rest) = λ e. cc

-- The input ends where an object without a repeated name does.
abbrev pub IsStrictObject : Ending → List Token → Type 0
IsStrictObject ending tokens =
    (fields : Members) × (ending ≡ Ending.at_end)
    × (tokens ≡ Token.open_object ∷ emit_members fields)
    × AreFresh [] fields

pub validate_tokens-Yields :
    (ending : Ending) (tokens : List Token)
    → Yields (λ u. IsStrictObject ending tokens) (validate_tokens ending tokens)
unfolding validate_tokens
validate_tokens-Yields ending tokens =
    let Goal : Unit {0} → Type 0 = λ u. IsStrictObject ending tokens in
    Yields->>= _ Goal (next tokens) _ (next-Yields tokens) λ (token, rest) p.
      Yields->>= _ Goal (starts_object token) _ (starts_object-Yields token) λ u q.
        Yields->>= _ Goal (consume_object (fuel_for rest) ending [] rest) _
          (consume_object-Yields (fuel_for rest) ending [] rest (omega arith))
          λ left (fields, r, fresh).
            Yields-impl _ Goal (check_trailing ending left)
              (λ u (s, t). (fields, s, simp (p, q, r, t, append-nil), fresh))
              (check_trailing-Yields ending left)

-- The walk over any tokens ends with the fuel that it is given: the answer is never that there was
-- too little of it.
pub validate_tokens-ne-out_of_fuel :
    (ending : Ending) (tokens : List Token)
    → validate_tokens ending tokens ≢ err JsonError.out_of_fuel
validate_tokens-ne-out_of_fuel ending tokens e =
    subst (Yields (λ u. IsStrictObject ending tokens)) e (validate_tokens-Yields ending tokens) refl
