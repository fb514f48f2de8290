-- ===== src/Budget/Examples.antt =====
-- Byte budgets on concrete input.
use hooshi_xagent.Budget.{ByteBudget, try_acquire}
use hooshi_xagent.Budget.Agent.{
  AgentBudget, AgentCall, acquires, releases, agent_run, agent_run_books, total, reserved_by,
  returned_by, excess_by, overdraws,
}
use hooshi_xagent.Budget.Buffer.{BudgetBuffer}
use hooshi_xagent.Base.{List, [], refl, pos, arith, true, ◌∷◌, ◌≡◌, ◌≤◌, ◌%◌, ◌+◌, ◌^◌}

abbrev budget : ByteBudget
budget = record { limit = 10; used = 7; rejected = 0 }

fits : (try_acquire budget (pos 3)).1 ≡ true
unfolding try_acquire
fits = refl

abbrev agent : AgentBudget
agent = record { limit = 10; used = 7; underflows = 0 }

abbrev calls : List AgentCall
calls = acquires (pos 2) ∷ releases (pos 5) ∷ releases (pos 5) ∷ acquires (pos 10) ∷ []

agent_run_books_example :
    ((agent_run agent calls).used ≤ agent.limit)
    × ((agent_run agent calls).used + total returned_by agent calls
        ≡ agent.used + total reserved_by agent calls + total excess_by agent calls)
    × ((agent_run agent calls).underflows
        ≡ (agent.underflows + total overdraws agent calls) % 2 ^ 64)
agent_run_books_example = agent_run_books agent calls (omega arith) (omega arith)

abbrev kept : BudgetBuffer
kept = record { buffer = 1 ∷ 2 ∷ []; acquired = 2 }
