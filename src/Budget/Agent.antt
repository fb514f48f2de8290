-- ===== src/Budget/Agent.antt =====
-- internal/agent/agentbudget/budget.go: the Agent's budget, which clamps an underflow. `used` is an
-- `int64` that starts at zero and that no call makes negative; the limit is not negative.
use hooshi_xagent.Base.{
  Bool, List, [], arith, false, if◌then◌else◌, ltb, negsuc, pos, true, ℕ, ℤ, ◌+◌, ◌-◌, ◌<◌, ◌==◌,
  ◌∷◌, ◌≡◌, ◌≤◌, refl, ◌%◌, ◌^◌,
}

pub record AgentBudget : Type 0 where
  pub limit : ℕ
  pub used : ℕ
  pub underflows : ℕ  -- the 64 bits of the `int64`, which wraps

pub new_agent_budget : ℕ → AgentBudget
new_agent_budget limit = record { limit = limit; used = 0; underflows = 0 }

pub agent_try_acquire : AgentBudget → ℤ → AgentBudget × Bool
agent_try_acquire budget (negsuc n) = (budget, false)
agent_try_acquire budget (pos size) =
    if ltb budget.limit size
    then (budget, false)
    else if size == 0
    then (budget, true)
    else if ltb (budget.limit - size) budget.used
    then (budget, false)
    else (record budget { used = budget.used + size }, true)

-- The flag is false where `Release` returns `ErrUnderflow`.
pub agent_release : AgentBudget → ℤ → AgentBudget × Bool
agent_release budget (negsuc n) = (budget, true)
agent_release budget (pos size) =
    if size == 0
    then (budget, true)
    else if ltb budget.used size
    then (record budget { used = 0; underflows = (budget.underflows + 1) % 2 ^ 64 }, false)
    else (record budget { used = budget.used - size }, true)

pub data AgentCall : Type 0 where
  acquires releases : ℤ → AgentCall

pub agent_step : AgentBudget → AgentCall → AgentBudget
unfolding agent_try_acquire agent_release
agent_step budget (acquires size) = (agent_try_acquire budget size).0
agent_step budget (releases size) = (agent_release budget size).0

pub agent_run : AgentBudget → List AgentCall → AgentBudget
agent_run budget [] = budget
agent_run budget (call ∷ calls) = agent_run (agent_step budget call) calls

-- What a call reserves, gives back, gives back beyond what is reserved, and whether it does so.
pub reserved_by : AgentBudget → AgentCall → ℕ
unfolding agent_try_acquire
reserved_by budget (acquires (pos size)) =
    if (agent_try_acquire budget (pos size)).1 then size else 0
reserved_by budget _ = 0

pub returned_by : AgentBudget → AgentCall → ℕ
returned_by budget (releases (pos size)) = size
returned_by budget _ = 0

pub excess_by : AgentBudget → AgentCall → ℕ
excess_by budget (releases (pos size)) = size - budget.used
excess_by budget _ = 0

pub overdraws : AgentBudget → AgentCall → ℕ
overdraws budget (releases (pos size)) = if ltb budget.used size then 1 else 0
overdraws budget _ = 0

-- The sum of a measure over a run.
pub total : (AgentBudget → AgentCall → ℕ) → AgentBudget → List AgentCall → ℕ
unfolding agent_step
total measure budget [] = 0
total measure budget (call ∷ calls) =
    measure budget call + total measure (agent_step budget call) calls

agent_step_books :
    (budget : AgentBudget) (call : AgentCall)
    → budget.used ≤ budget.limit
    → ((agent_step budget call).used ≤ budget.limit)
      × ((agent_step budget call).limit ≡ budget.limit)
      × ((agent_step budget call).used + returned_by budget call
          ≡ budget.used + reserved_by budget call + excess_by budget call)
unfolding agent_step reserved_by returned_by excess_by
agent_step_books budget (acquires (negsuc n)) h = (h, refl, omega arith)
agent_step_books budget (acquires (pos size)) h = (ground arith, ground arith, ground arith)
agent_step_books budget (releases (negsuc n)) h = (h, refl, omega arith)
agent_step_books budget (releases (pos size)) h = (ground arith, ground arith, ground arith)

agent_step_underflows :
    (budget : AgentBudget) (call : AgentCall)
    → budget.underflows < 2 ^ 64
    → (agent_step budget call).underflows ≡ (budget.underflows + overdraws budget call) % 2 ^ 64
unfolding agent_step overdraws
agent_step_underflows budget (acquires (negsuc n)) h = omega arith
agent_step_underflows budget (acquires (pos size)) h = ground arith
agent_step_underflows budget (releases (negsuc n)) h = omega arith
agent_step_underflows budget (releases (pos size)) h = ground arith

-- Over any calls on a budget within its limit, double releases included, what is reserved stays
-- within the limit; it is what was reserved at the start and by the calls that returned true, less
-- what was given back, where exactly the part of a release beyond what was reserved is forgiven;
-- and the counter of underflows, which wraps at 64 bits, has counted exactly such releases.
pub agent_run_books :
    (budget : AgentBudget) (calls : List AgentCall)
    → budget.used ≤ budget.limit
    → budget.underflows < 2 ^ 64
    → ((agent_run budget calls).used ≤ budget.limit)
      × ((agent_run budget calls).used + total returned_by budget calls
          ≡ budget.used + total reserved_by budget calls + total excess_by budget calls)
      × ((agent_run budget calls).underflows
          ≡ (budget.underflows + total overdraws budget calls) % 2 ^ 64)
unfolding agent_run total
agent_run_books budget [] h u = (h, omega arith, omega arith)
agent_run_books budget (call ∷ calls) h u =
    let (a, b, c) = agent_step_books budget call h in
    let f = agent_step_underflows budget call u in
    let (d, e, g) =
      agent_run_books (agent_step budget call) calls (omega arith) (omega (arith, f)) in
    (omega arith, omega arith, omega (arith, f, g))
