-- ===== src/Json/Members.antt =====
-- internal/contractv1/strict_json.go: the members at the top of a payload, and the gates that refuse
-- null, absent and empty ones. The map is the list of its entries, the last one put in first; an
-- error's text is not modelled.
pub mod Gates
use hooshi_xagent.Json.{
  Token, Ending, JsonError, more, next, name_of, consume_object, fuel_for, str, null, null_member,
  missing_member, empty_member, out_of_fuel, consume_value,
}
use hooshi_xagent.Base.{
  Result, ok, err, reject_if, ◌>>=◌, ◌>>◌, Option, some, none, ==_iff, >>=-eq-ok, All, All-append,
  All-drop, All-take, Bool, Bool-cases, List, Option-cases, [], ap, arith, bytes_eq, bytes_eq_refl,
  bytes_eq_sound, drop, drop-drop, false, if_cases, if◌then◌else◌, inl, inr, leb, leb→le, length,
  length-append, length-drop, length-take_of_le, ltb, ltb→lt, lt→ltb, map, negsuc, not, pos, refl,
  reject_if-eq-ok, subst, suc, sym, take, take-append-drop, take-drop-append, true, zero, ℕ, ℤ, ◌%◌,
  ◌&&◌, ◌*◌, ◌++◌, ◌+◌, ◌-◌, ◌/◌, ◌<◌, ◌==◌, ◌^◌, ◌||◌, ◌↔◌, ◌∙◌, ◌∷◌, ◌≡◌, ◌≢◌, ◌≤◌, ◌⊎◌,
}

abbrev pub Entries : Type 0
Entries = List (List ℕ × Token)

unfoldable pub member_at : Entries → List ℕ → Option Token
member_at [] name = none
member_at ((key, token) ∷ rest) name = if bytes_eq key name then some token else member_at rest name

-- The loop of `scanTopLevelMembers`; it stops before the closing delimiter.
unfoldable pub scan_members : ℕ → Ending → Entries → List Token → Result JsonError Entries
unfolding next
scan_members zero ending members tokens = err out_of_fuel
scan_members (suc fuel) ending members tokens =
    let scanned = do
      (key, after_key) ← next tokens
      name ← name_of key
      (value, after_value) ← next after_key
      rest ← consume_value fuel ending value after_value
      scan_members fuel ending ((name, value) ∷ members) rest
    in if more ending tokens then scanned else ok members

unfoldable pub scan_top_level_members : Ending → List Token → Result JsonError Entries
unfolding next scan_members
scan_top_level_members ending tokens = do
  (first, rest) ← next tokens
  scan_members (fuel_for rest) ending [] rest

unfoldable pub is_null : Token → Bool
is_null null = true
is_null token = false

unfoldable pub has_null : Entries → Bool
unfolding is_null
has_null [] = false
has_null ((key, token) ∷ rest) = if is_null token then true else has_null rest

unfoldable pub reject_null_members : Ending → List Token → Result JsonError (Unit {0})
unfolding scan_top_level_members has_null
reject_null_members ending tokens = do
  members ← scan_top_level_members ending tokens
  reject_if (has_null members) null_member

unfoldable pub present : Option Token → Result JsonError (Unit {0})
unfolding is_null
present none = err missing_member
present (some token) = reject_if (is_null token) null_member

unfoldable pub all_present : Entries → List (List ℕ) → Result JsonError (Unit {0})
unfolding present member_at
all_present members [] = ok tt
all_present members (name ∷ names) = present (member_at members name) >> all_present members names

unfoldable pub require_present : Ending → List Token → List (List ℕ) → Result JsonError (Unit {0})
unfolding scan_top_level_members all_present
require_present ending tokens names = do
  members ← scan_top_level_members ending tokens
  all_present members names

unfoldable pub is_empty : Option Token → Bool
is_empty (some (str [])) = true
is_empty _ = false

unfoldable pub none_empty : Entries → List (List ℕ) → Result JsonError (Unit {0})
unfolding is_empty member_at
none_empty members [] = ok tt
none_empty members (name ∷ names) =
    reject_if (is_empty (member_at members name)) empty_member >> none_empty members names

unfoldable pub reject_empty_members :
    Ending → List Token → List (List ℕ) → Result JsonError (Unit {0})
unfolding scan_top_level_members none_empty
reject_empty_members ending tokens names = do
  members ← scan_top_level_members ending tokens
  none_empty members names
