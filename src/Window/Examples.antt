-- ===== src/Window/Examples.antt =====
-- Runs of one credit window on concrete input.
use hooshi_xagent.Window.{Window, new_window, take, waits_on, add, magnitude, invalid}
use hooshi_xagent.Window.Laws.{
  Call, takes, adds, run, step, granted, consumed, run_books, no_lost_wake_up,
}
use hooshi_xagent.Base.{List, [], arith, pos, refl, inr, ◌∷◌, ◌≡◌, ◌≤◌, ◌<◌, ◌+◌}

start : Window
start = new_window (pos 10)

calls : List Call
calls = adds (pos 6) ∷ takes (pos 4) ∷ adds (pos 9) ∷ takes (pos 3) ∷ takes (pos 2) ∷ []

run_books_example :
    ((run start calls).credit + consumed start calls ≡ start.credit + granted start calls)
    × ((run start calls).credit ≤ start.limit)
    × ((run start calls).limit ≡ start.limit)
unfolding start new_window
run_books_example = run_books start calls (omega arith)

waits : (take start (pos 4)).1 ≡ waits_on 0
unfolding start new_window take invalid
waits = refl

grants : List Call
grants = adds (pos 6) ∷ []

enough : magnitude (pos 4) ≤ (run start grants).credit
unfolding start new_window grants run step add invalid
enough = omega arith

no_lost_wake_up_example : 0 < (run start grants).changed
no_lost_wake_up_example = no_lost_wake_up start (pos 4) 0 grants waits (inr enough)
