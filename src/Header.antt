-- ===== src/Header.antt =====
-- internal/gateway/gateway.go: `responseHeaderLimitReader`, which reads the header of a response that
-- a target behind the Agent sends, up to the empty line, and no further than its limit. The limit is
-- a positive number.
pub mod Search
pub mod Limit
pub mod Examples
use hooshi_xagent.Base.{
  List, [], ◌∷◌, ◌++◌, ℕ, Bool, true, false, Option, some, none, if◌then◌else◌, ltb, ◌==◌, length,
  take, ◌+◌, ◌-◌, ==_iff, >>=-eq-ok, >>=_iff, >>_iff, All, All-append, All-drop, All-take,
  Bool-cases, OnOk, OnOk->>=, OnOk-impl, Option-cases, Result, ap, arith, below, bytes_eq,
  bytes_eq_refl, bytes_eq_sound, codes, double, drop, drop-drop, err, if_cases, inl, inr, int_eq,
  leb, leb→le, length-append, length-drop, length-take_of_le, ltb→lt, lt→ltb, map, negsuc, not, ok,
  ok-injective, outside, outside_iff, pos, refl, reject_if, reject_if-eq-ok, reject_if_iff, subst,
  suc, sym, take-append-drop, take-drop-append, with_fault, with_fault_iff, zero, ℤ, ◌%◌, ◌&&◌, ◌*◌,
  ◌/◌, ◌<◌, ◌>>=◌, ◌>>◌, ◌^◌, ◌||◌, ◌↔◌, ◌∙◌, ◌≡◌, ◌≢◌, ◌≤◌, ◌⊎◌,
}

-- `separator[matched]`, of "\r\n\r\n"
unfoldable pub separator_at : ℕ → ℕ
separator_at zero = 13
separator_at (suc zero) = 10
separator_at (suc (suc zero)) = 13
separator_at (suc (suc (suc matched))) = 10

-- One round of the loop over the bytes; at 4 the loop ends.
unfoldable pub advance : ℕ → ℕ → ℕ
unfolding separator_at
advance matched value =
    if value == separator_at matched then matched + 1 else (if value == 13 then 1 else 0)

unfoldable pub scan : ℕ → List ℕ → ℕ
unfolding advance
scan matched [] = matched
scan matched (value ∷ rest) =
    let after = scan (advance matched value) rest in if advance matched value == 4 then 4 else after

pub record Reader : Type 0 where
  pub remaining : ℕ
  pub matched : ℕ
  pub done : Bool

abbrev pub new_reader : ℕ → Reader
new_reader limit = record { remaining = limit; matched = 0; done = false }

-- How a `Read` ends: without an error, with that of the reader behind it, or because the header is
-- too large.
pub data Ending : Type 0 where
  fine too_large : Ending
  fault : ℕ → Ending

abbrev smaller : ℕ → ℕ → ℕ
smaller a b = if ltb b a then b else a

-- The end of `Read`, once the bytes were looked at.
unfoldable pub looked_at : Reader → List ℕ → Ending → Reader × List ℕ × Ending
looked_at reader bytes behind =
    if reader.done
    then (reader, bytes, behind)
    else if reader.remaining == 0
    then (reader, bytes, too_large)
    else (reader, bytes, behind)

-- `Read` into a slice of `room` bytes, given what the reader behind it offers and how its call ends.
unfoldable pub read : Reader → ℕ → List ℕ → Ending → Reader × List ℕ × Ending
unfolding scan looked_at
read reader room offered behind =
    let bytes = take (smaller room reader.remaining) offered in
    let matched = scan reader.matched bytes in
    let reader' : Reader = record {
      remaining = reader.remaining - length bytes;
      matched = matched;
      done = matched == 4;
    } in
    if reader.done
    then (reader, take room offered, behind)
    else if reader.remaining == 0
    then (reader, [], too_large)
    else looked_at reader' bytes behind
