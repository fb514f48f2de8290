-- ===== src/Budget.antt =====
-- internal/gateway/gatewayresources/resources.go: `ByteBudget`, each call as one atomic step.
-- Limits are not negative, as
-- `Limits.valid` makes sure; a size is an `int64` and may be.
pub mod Laws
pub mod Agent
pub mod Buffer
pub mod Examples
use hooshi_xagent.Base.{
  ==_iff, >>=-eq-ok, All, All-append, All-drop, All-take, Bool, Bool-cases, List, Option,
  Option-cases, Result, [], ap, arith, bytes_eq, bytes_eq_sound, bytes_eq_refl, drop, drop-drop,
  err, false, if◌then◌else◌, inl, inr, leb, leb→le, length, length-append, length-drop,
  length-take_of_le, ltb, ltb→lt, lt→ltb, map, negsuc, none, not, ok, pos, refl, reject_if,
  reject_if-eq-ok, some, subst, suc, sym, take, take-append-drop, take-drop-append, true, zero, ℕ,
  ℤ, ◌%◌, ◌&&◌, ◌*◌, ◌++◌, ◌+◌, ◌-◌, ◌/◌, ◌<◌, ◌==◌, ◌>>=◌, ◌>>◌, ◌^◌, ◌||◌, ◌↔◌, ◌∙◌, ◌∷◌, ◌≡◌,
  ◌≢◌, ◌≤◌, ◌⊎◌,
}

pub record ByteBudget : Type 0 where
  pub limit : ℕ
  pub used : ℕ
  pub rejected : ℕ  -- uint64

unfoldable pub new_byte_budget : ℕ → ByteBudget
new_byte_budget limit = record { limit = limit; used = 0; rejected = 0 }

unfoldable pub note_reject : ByteBudget → ByteBudget
note_reject budget = record budget { rejected = (budget.rejected + 1) % 2 ^ 64 }

unfoldable pub try_acquire : ByteBudget → ℤ → ByteBudget × Bool
unfolding note_reject
try_acquire budget (negsuc n) = (note_reject budget, false)
try_acquire budget (pos size) =
    if ltb budget.limit size
    then (note_reject budget, false)
    else if size == 0
    then (budget, true)
    else if ltb (budget.limit - size) budget.used
    then (note_reject budget, false)
    else (record budget { used = budget.used + size }, true)

pub data Panic : Type 0 where
  underflow : Panic

unfoldable pub release : ByteBudget → ℤ → Result Panic ByteBudget
release budget (negsuc n) = ok budget
release budget (pos size) =
    if size == 0
    then ok budget
    else if ltb budget.used size
    then err underflow
    else ok (record budget { used = budget.used - size })
