-- ===== src/Budget/Buffer.antt =====
-- internal/gateway/gatewayresources/resources.go: `BudgetBuffer`, which keeps no more than its
-- budget. `written` is what `bytes.Buffer.Write` returns, a number of bytes of the data.
use hooshi_xagent.Budget.{ByteBudget, Panic, try_acquire, release, note_reject}
use hooshi_xagent.Budget.Laws.{charge, try_acquire_cases, release_exact}
use hooshi_xagent.Base.{
  List, [], ◌++◌, ℕ, Bool, true, false, Result, ok, err, ◌>>=◌, ltb, length, take, if◌then◌else◌,
  pos, ◌+◌, ◌-◌, ◌≡◌, ◌≤◌, arith, refl, inl, inr, ap, if_cases, length-append, length-take_of_le,
  sym, ◌∙◌,
}
use mathlib.Core.Bool.{true≢false}

pub record BudgetBuffer : Type 0 where
  pub buffer : List ℕ
  pub acquired : ℕ

unfoldable pub new_budget_buffer : BudgetBuffer
new_budget_buffer = record { buffer = []; acquired = 0 }

-- What follows the reservation; the flag is false for `ErrBudgetExhausted`.
retain_bytes :
    BudgetBuffer → ByteBudget × Bool → List ℕ → ℕ → Result Panic (BudgetBuffer × ByteBudget × Bool)
retain_bytes buffer (budget, false) bytes written = ok (buffer, budget, false)
retain_bytes buffer (budget, true) bytes written =
    let kept : BudgetBuffer = record {
      buffer = buffer.buffer ++ take written bytes;
      acquired = buffer.acquired + written;
    } in
    if ltb written (length bytes)
    then (release budget (pos (length bytes - written)) >>= λ budget'. ok (kept, budget', true))
    else ok (kept, budget, true)

pub write : BudgetBuffer → ByteBudget → List ℕ → ℕ → Result Panic (BudgetBuffer × ByteBudget × Bool)
unfolding retain_bytes
write buffer budget bytes written =
    retain_bytes buffer (try_acquire budget (pos (length bytes))) bytes written

pub release_buffer : BudgetBuffer → ByteBudget → Result Panic (BudgetBuffer × ByteBudget)
unfolding new_budget_buffer
release_buffer buffer budget =
    if ltb 0 buffer.acquired
    then (release budget (pos buffer.acquired) >>= λ budget'. ok (new_budget_buffer, budget'))
    else ok (new_budget_buffer, budget)

-- The buffer has reserved exactly what it keeps, and the budget is within its limit.
abbrev pub IsCharged : BudgetBuffer → ByteBudget → Type 0
IsCharged buffer budget =
    (length buffer.buffer ≡ buffer.acquired)
    × (buffer.acquired ≤ budget.used)
    × (budget.used ≤ budget.limit)

abbrev pub Writes :
    BudgetBuffer
    → ByteBudget
    → List ℕ
    → ℕ
    → Result Panic (BudgetBuffer × ByteBudget × Bool)
    → Type 0
Writes buffer budget bytes written (ok (buffer', budget', granted)) =
    IsCharged buffer' budget'
    × (budget'.used + buffer.acquired ≡ budget.used + buffer'.acquired)
    × (granted ≡ true → buffer'.buffer ≡ buffer.buffer ++ take written bytes)
    × (granted ≡ false → buffer' ≡ buffer)
Writes buffer budget bytes written (err e) = ⊥

rejects :
    (budget : ByteBudget)
    → ((note_reject budget).used ≡ budget.used) × ((note_reject budget).limit ≡ budget.limit)
unfolding note_reject
rejects budget = (refl, refl)

refused_lem :
    (buffer : BudgetBuffer) (budget : ByteBudget) (bytes : List ℕ) (written : ℕ)
    → IsCharged buffer budget
    → Writes buffer budget bytes written
        (retain_bytes buffer (note_reject budget, false) bytes written)
unfolding retain_bytes
refused_lem buffer budget bytes written (a, b, c) =
    let (d, e) = rejects budget in
    (
      (a, omega (arith, d), omega (arith, d, e)),
      omega (arith, d),
      λ h. absurd (true≢false (sym h)),
      λ h. refl,
    )

kept_length :
    (old bytes : List ℕ) (n written : ℕ)
    → length old ≡ n
    → written ≤ length bytes
    → length (old ++ take written bytes) ≡ n + written
kept_length old bytes n written h k =
    length-append old (take written bytes) ∙ rw (length-take_of_le written bytes k) (omega arith)

granted_lem :
    (buffer : BudgetBuffer) (budget : ByteBudget) (bytes : List ℕ) (written : ℕ)
    → IsCharged buffer budget
    → budget.used + length bytes ≤ budget.limit
    → written ≤ length bytes
    → Writes buffer budget bytes written
        (retain_bytes buffer (charge budget (length bytes), true) bytes written)
unfolding retain_bytes
granted_lem buffer budget bytes written (a, b, c) fits k =
    if_cases (Writes buffer budget bytes written) (ltb written (length bytes))
      (λ e.
        rw (release_exact (charge budget (length bytes)) (length bytes - written) (omega arith)) (
          (kept_length buffer.buffer bytes buffer.acquired written a k, omega arith, omega arith),
          omega arith,
          λ _. refl,
          λ h. absurd (true≢false h),
        ))
      (λ e.
        let whole : written ≡ length bytes = ground arith in
        (
          (kept_length buffer.buffer bytes buffer.acquired written a k, omega arith, omega arith),
          omega arith,
          λ _. refl,
          λ h. absurd (true≢false h),
        ))

-- A write to a buffer that has reserved exactly what it keeps does not panic, also where it is
-- short, and leaves the buffer so. It keeps the bytes that were written, after those that it had,
-- or it is refused and nothing changes; the budget goes up by what is kept, within its limit.
pub write_lem :
    (buffer : BudgetBuffer) (budget : ByteBudget) (bytes : List ℕ) (written : ℕ)
    → IsCharged buffer budget
    → written ≤ length bytes
    → Writes buffer budget bytes written (write buffer budget bytes written)
unfolding write
write_lem buffer budget bytes written h k = elim (try_acquire_cases budget (length bytes) h.2) [
  | inl (e, fits) ↦ rw e (granted_lem buffer budget bytes written h fits k)
  | inr e ↦ rw e (refused_lem buffer budget bytes written h)
]

-- Dropping a buffer gives exactly what it keeps back to the budget, and leaves it empty; it does
-- not panic.
pub release_buffer_lem :
    (buffer : BudgetBuffer) (budget : ByteBudget)
    → IsCharged buffer budget
    → release_buffer buffer budget
      ≡ ok (new_budget_buffer, record budget { used = budget.used - length buffer.buffer })
unfolding release_buffer
release_buffer_lem buffer budget (a, b, c) =
    if_cases
      (λ r. r ≡ ok (new_budget_buffer, record budget { used = budget.used - length buffer.buffer }))
      (ltb 0 buffer.acquired) (λ e. rw (release_exact budget buffer.acquired b, a) refl)
      (λ e.
        let none_kept : budget.used ≡ budget.used - length buffer.buffer = ground (arith, a) in
        ap (λ n. ok (new_budget_buffer, record budget { used = n })) none_kept)
