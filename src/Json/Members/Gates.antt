-- ===== src/Json/Members/Gates.antt =====
-- internal/contractv1/strict_json.go: what the gates on the members of a strict object let through.
use hooshi_xagent.Json.{Token, Ending, next, name_of, null_member, empty_member, fuel_for}
use hooshi_xagent.Json.Grammar.{Members, head_token, emit_members, emit_rest, AreFresh}
use hooshi_xagent.Json.Complete.{more_name, more_close_object, consume_value-emit_rest}
use hooshi_xagent.Json.Members.{
  Entries, scan_members, member_at, is_null, has_null, present, all_present, is_empty, none_empty,
  scan_top_level_members, reject_null_members, require_present, reject_empty_members,
}
use hooshi_xagent.Base.{
  ok, ◌≡◌, List, arith, length, length-append, refl, suc, zero, ℕ, ◌++◌, ◌+◌, ◌<◌, ◌∷◌, All, Bool,
  Option, [], ap, bytes_eq, false, if◌then◌else◌, none, reject_if, some, sym, true, ◌↔◌, ◌∙◌, ◌≢◌,
  >>_iff, reject_if_iff,
}
use mathlib.Core.List.{append_assoc, append-nil}
use mathlib.Core.Bool.{true≢false}
use mathlib.Core.Option.{none-ne-some, some-injective}
use hooshi_xagent.Json.Sound.{IsStrictObject}

abbrev gather : Entries → Members → Entries
gather members Members.no_members = members
gather members (Members.member name value fields) =
    gather ((name, head_token value) ∷ members) fields

scan_members-emit_members :
    (fuel : ℕ) (ending : Ending) (members : Entries) (seen : List (List ℕ)) (fields : Members)
    (rest : List Token)
    → length (emit_members fields) + length (emit_members fields) < fuel
    → AreFresh seen fields
    → scan_members fuel ending members (emit_members fields ++ rest) ≡ ok (gather members fields)
unfolding scan_members next name_of emit_members AreFresh
scan_members-emit_members zero ending members seen fields rest h fresh = absurd (omega arith)
scan_members-emit_members (suc fuel) ending members seen Members.no_members rest h fresh =
    rw (more_close_object ending rest) refl
scan_members-emit_members (suc fuel) ending members seen (Members.member name value fields) rest h
      (new, strict, fresh) =
    let shorter = length-append (emit_rest value) (emit_members fields) in
    rw
      (
        more_name ending name
            (head_token value ∷ ((emit_rest value ++ emit_members fields) ++ rest)),
        append_assoc (emit_rest value) (emit_members fields) rest,
        consume_value-emit_rest fuel ending value (emit_members fields ++ rest)
            (omega (arith, shorter, h)) strict,
        scan_members-emit_members fuel ending ((name, head_token value) ∷ members) (name ∷ seen)
            fields rest (omega (arith, shorter, h)) fresh,
      )
      refl

-- The value of the last member of this name.
abbrev or_else : Option Token → Option Token → Option Token
or_else (some token) other = some token
or_else none other = other

unfoldable pub value_of : Members → List ℕ → Option Token
value_of Members.no_members name = none
value_of (Members.member key value fields) name =
    or_else (value_of fields name) (if bytes_eq key name then some (head_token value) else none)

-- No member at the top of the object is null.
abbrev pub NoneNull : Members → Type 0
NoneNull Members.no_members = Unit
NoneNull (Members.member name value fields) = (head_token value ≢ Token.null) × NoneNull fields

abbrev pub IsPresent : Members → List ℕ → Type 0
IsPresent fields name = (token : Token) × (value_of fields name ≡ some token) × (token ≢ Token.null)

or_else_assoc :
    (inner : Option Token) (b : Bool) (token : Token) (last : Option Token)
    → or_else inner (if b then some token else last)
      ≡ or_else (or_else inner (if b then some token else none)) last
or_else_assoc (some other) b token last = refl
or_else_assoc none true token last = refl
or_else_assoc none false token last = refl

member_at-gather :
    (members : Entries) (fields : Members) (name : List ℕ)
    → member_at (gather members fields) name
      ≡ or_else (value_of fields name) (member_at members name)
unfolding value_of member_at
member_at-gather members Members.no_members name = refl
member_at-gather members (Members.member key value fields) name =
    member_at-gather ((key, head_token value) ∷ members) fields name
    ∙ or_else_assoc (value_of fields name) (bytes_eq key name) (head_token value)
        (member_at members name)

or_else-none : (value : Option Token) → or_else value none ≡ value
or_else-none none = refl
or_else-none (some token) = refl

member_at-gather_nil :
    (fields : Members) (name : List ℕ) → member_at (gather [] fields) name ≡ value_of fields name
unfolding member_at
member_at-gather_nil fields name =
    member_at-gather [] fields name ∙ or_else-none (value_of fields name)

is_null_iff : (token : Token) → (is_null token ≡ false) ↔ (token ≢ Token.null)
unfolding is_null
is_null_iff Token.null = (λ e. absurd (true≢false e), λ h. absurd (h refl))
is_null_iff _ = (λ e f. cc, λ h. refl)

either-eq-false : (a b : Bool) → (if a then true else b) ≡ false → (a ≡ false) × (b ≡ false)
either-eq-false true b e = absurd (true≢false e)
either-eq-false false b e = (refl, e)

has_null-gather :
    (members : Entries) (fields : Members)
    → (has_null (gather members fields) ≡ false) ↔ (NoneNull fields × (has_null members ≡ false))
unfolding has_null
has_null-gather members Members.no_members = (λ e. (tt, e), λ h. h.1)
has_null-gather members (Members.member name value fields) =
    let ih = has_null-gather ((name, head_token value) ∷ members) fields in
    (
      λ e.
          let (rest, first) = ih.0 e in
          let (a, b) = either-eq-false (is_null (head_token value)) (has_null members) first in
          (((is_null_iff (head_token value)).0 a, rest), b),
      λ ((a, rest), b).
          let first = (is_null_iff (head_token value)).1 a in ih.1 (rest, rw (first, b) refl),
    )

present_iff :
    (value : Option Token)
    → (present value ≡ ok tt) ↔ ((token : Token) × (value ≡ some token) × (token ≢ Token.null))
unfolding present
present_iff none = (λ e. cc, λ (token, e, h). absurd (none-ne-some token e))
present_iff (some token) = (
  λ e. (token, refl, (is_null_iff token).0 ((reject_if_iff (is_null token) null_member).0 e)),
  λ (other, e, h).
      (reject_if_iff (is_null token) null_member).1
        ((is_null_iff token).1 (λ f. h (sym (some-injective token other e) ∙ f))),
)

all_present_iff :
    (fields : Members) (names : List (List ℕ))
    → (all_present (gather [] fields) names ≡ ok tt) ↔ All (IsPresent fields) names
unfolding all_present
all_present_iff fields [] = (λ e. tt, λ h. refl)
all_present_iff fields (name ∷ names) =
    let both =
      >>_iff (present (member_at (gather [] fields) name)) (all_present (gather [] fields) names) in
    let this = present_iff (value_of fields name) in
    let same = ap present (member_at-gather_nil fields name) in
    let those = all_present_iff fields names in
    (
      λ e. let (a, b) = both.0 e in (this.0 (sym same ∙ a), those.0 b),
      λ (a, b). both.1 (same ∙ this.1 a, those.1 b),
    )

is_empty_iff : (value : Option Token) → (is_empty value ≡ false) ↔ (value ≢ some (Token.str []))
unfolding is_empty
is_empty_iff (some (Token.str [])) = (λ e. absurd (true≢false e), λ h. absurd (h refl))
is_empty_iff (some (Token.str (b ∷ bs))) = (λ e f. cc, λ h. refl)
is_empty_iff _ = (λ e f. cc, λ h. refl)

none_empty_iff :
    (fields : Members) (names : List (List ℕ))
    → (none_empty (gather [] fields) names ≡ ok tt)
      ↔ All (λ name. value_of fields name ≢ some (Token.str [])) names
unfolding none_empty
none_empty_iff fields [] = (λ e. tt, λ h. refl)
none_empty_iff fields (name ∷ names) =
    let value = member_at (gather [] fields) name in
    let both =
      >>_iff (reject_if (is_empty value) empty_member) (none_empty (gather [] fields) names) in
    let guard = reject_if_iff (is_empty value) empty_member in
    let this = is_empty_iff (value_of fields name) in
    let same = ap is_empty (member_at-gather_nil fields name) in
    let those = none_empty_iff fields names in
    (
      λ e. let (a, b) = both.0 e in (this.0 (sym same ∙ guard.0 a), those.0 b),
      λ (a, b). both.1 (guard.1 (same ∙ this.1 a), those.1 b),
    )

nulls_iff :
    (fields : Members)
    → (reject_if (has_null (gather [] fields)) null_member ≡ ok tt) ↔ NoneNull fields
unfolding has_null
nulls_iff fields =
    let guard = reject_if_iff (has_null (gather [] fields)) null_member in
    let this = has_null-gather [] fields in
    (λ e. (this.0 (guard.0 e)).0, λ h. guard.1 (this.1 (h, refl)))

scan_top_level_members-emit_members :
    (fields : Members)
    → AreFresh [] fields
    → scan_top_level_members Ending.at_end (Token.open_object ∷ emit_members fields)
      ≡ ok (gather [] fields)
unfolding scan_top_level_members next
scan_top_level_members-emit_members fields fresh =
    let scanned =
      scan_members-emit_members (fuel_for (emit_members fields)) Ending.at_end [] [] fields []
        (omega arith) fresh in
    rw (append-nil (emit_members fields)) at scanned

-- For the tokens of an object without repeated names: the gates refuse it exactly when a member at
-- its top is null, when one of the required names is absent or null, and when one of the names whose
-- value may not be empty has the empty string.
pub gates_lem :
    (ending : Ending) (tokens : List Token) (names : List (List ℕ))
    (strict : IsStrictObject ending tokens)
    → ((reject_null_members ending tokens ≡ ok tt) ↔ NoneNull strict.0)
      × ((require_present ending tokens names ≡ ok tt) ↔ All (IsPresent strict.0) names)
      × ((reject_empty_members ending tokens names ≡ ok tt)
          ↔ All (λ name. value_of strict.0 name ≢ some (Token.str [])) names)
unfolding reject_null_members require_present reject_empty_members
gates_lem ending tokens names (fields, at_end, p, fresh) =
    let scanned = scan_top_level_members-emit_members fields fresh in
    (
      rw (at_end, p, scanned) (nulls_iff fields),
      rw (at_end, p, scanned) (all_present_iff fields names),
      rw (at_end, p, scanned) (none_empty_iff fields names),
    )
