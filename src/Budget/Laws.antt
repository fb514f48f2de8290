-- ===== src/Budget/Laws.antt =====
-- internal/gateway/gatewayresources/resources.go: what `ByteBudget` guarantees to its callers.
use hooshi_xagent.Budget.{ByteBudget, underflow, try_acquire, release, note_reject}
use hooshi_xagent.Base.{
  arith, false, negsuc, pos, true, ℕ, ℤ, ◌%◌, ◌+◌, ◌-◌, ◌<◌, ◌^◌, ◌↔◌, ◌≡◌, ◌≤◌, err, ok, ◌⊎◌,
}

-- The hard limit holds.
abbrev pub IsBounded : ByteBudget → Type 0
IsBounded budget = budget.used ≤ budget.limit

pub try_acquire-IsBounded :
    (budget : ByteBudget) (size : ℤ) → IsBounded budget → IsBounded (try_acquire budget size).0
unfolding try_acquire
try_acquire-IsBounded budget (negsuc n) h = ground arith
try_acquire-IsBounded budget (pos size) h = ground arith

pub release-IsBounded :
    (budget budget' : ByteBudget) (size : ℤ)
    → release budget size ≡ ok budget'
    → IsBounded budget
    → IsBounded budget'
unfolding release
release-IsBounded budget budget' (negsuc n) e h = ground arith
release-IsBounded budget budget' (pos size) e h = ground arith

-- On a budget within its limit a reservation of `size` bytes is granted exactly when `size` more
-- bytes fit under the limit. A grant reserves exactly that many and counts no rejection; a refusal
-- reserves nothing and counts one. The limit never changes.
pub try_acquire_exact :
    (budget : ByteBudget) (size : ℕ)
    → IsBounded budget
    → let (budget', granted) = try_acquire budget (pos size) in
      ((granted ≡ true) ↔ (budget.used + size ≤ budget.limit))
      × (granted ≡ true
          → (budget'.used ≡ budget.used + size) × (budget'.rejected ≡ budget.rejected))
      × (granted ≡ false
          → (budget'.used ≡ budget.used) × (budget'.rejected ≡ (budget.rejected + 1) % 2 ^ 64))
      × (budget'.limit ≡ budget.limit)
unfolding try_acquire
try_acquire_exact budget size h = (ground arith, ground arith, ground arith, ground arith)

pub release_exact :
    (budget : ByteBudget) (size : ℕ)
    → size ≤ budget.used
    → release budget (pos size) ≡ ok (record budget { used = budget.used - size })
unfolding release
release_exact budget size h = ground arith

pub release_panics :
    (budget : ByteBudget) (size : ℕ)
    → budget.used < size
    → release budget (pos size) ≡ err underflow
unfolding release
release_panics budget size h = ground arith

-- A reservation that is returned leaves the budget as it was before it.
pub release-try_acquire :
    (budget : ByteBudget) (size : ℕ)
    → (try_acquire budget (pos size)).1 ≡ true
    → release (try_acquire budget (pos size)).0 (pos size) ≡ ok budget
unfolding try_acquire release
release-try_acquire budget size h = ground arith

-- The same budget with `size` more bytes in use.
abbrev pub charge : ByteBudget → ℕ → ByteBudget
charge b size = record b { used = b.used + size }

-- The two results of a reservation, for proofs that keep `try_acquire` shut.
pub try_acquire_cases :
    (b : ByteBudget) (size : ℕ)
    → b.used ≤ b.limit
    → ((try_acquire b (pos size) ≡ (charge b size, true)) × (b.used + size ≤ b.limit))
      ⊎ (try_acquire b (pos size) ≡ (note_reject b, false))
unfolding try_acquire
try_acquire_cases b size h = ground arith

pub release-charge : (b : ByteBudget) (size : ℕ) → release (charge b size) (pos size) ≡ ok b
unfolding release
release-charge b size = ground arith
