-- ===== src/Window/Laws.antt =====
-- internal/tunnelwindow/window.go: the sender never passes what the receiver granted, and never
-- sleeps through a change.
use mathlib.Core.Bool.{false≢true}
use hooshi_xagent.Window.{
  Window, WindowError, take, taken, waits_on, add, close, magnitude, TakeResult,
}
use hooshi_xagent.Base.{
  List, Option, Result, [], arith, err, false, inl, inr, ok, refl, sym, true, ℕ, ℤ, ◌+◌, ◌<◌, ◌∙◌,
  ◌∷◌, ◌≡◌, ◌≤◌, ◌⊎◌,
}
use native.Mathlib.Decide.{dec_lt}
use mathlib.Core.Bool.{false≢true}

-- The calls that the senders, the receiver's frames and the closing make on one window.
pub data Call : Type 0 where
  takes adds : ℤ → Call
  closes : Option WindowError → Call

abbrev pub after_add : Window → Result WindowError Window → Window
after_add window (ok window') = window'
after_add window (err e) = window

unfoldable pub step : Window → Call → Window
step window (takes size) = (take window size).0
step window (adds size) = after_add window (add window size)
step window (closes error) = close window error

unfoldable pub run : Window → List Call → Window
run window [] = window
run window (call ∷ calls) = run (step window call) calls

-- What a call grants, and what it takes.
abbrev granted_by : Result WindowError Window → ℤ → ℕ
granted_by (ok window) size = magnitude size
granted_by (err e) size = 0

abbrev pub taken_by : TakeResult → ℤ → ℕ
taken_by taken size = magnitude size
taken_by _ size = 0

pub granted : Window → List Call → ℕ
unfolding step
granted window [] = 0
granted window (adds size ∷ calls) =
    granted_by (add window size) size + granted (step window (adds size)) calls
granted window (call ∷ calls) = granted (step window call) calls

pub consumed : Window → List Call → ℕ
unfolding step
consumed window [] = 0
consumed window (takes size ∷ calls) =
    taken_by (take window size).1 size + consumed (step window (takes size)) calls
consumed window (call ∷ calls) = consumed (step window call) calls

abbrev pub IsBounded : Window → Type 0
IsBounded window = window.credit ≤ window.limit

pub take_books :
    (w : Window) (size : ℤ)
    → ((take w size).0.credit + taken_by (take w size).1 size ≡ w.credit)
      × ((take w size).0.limit ≡ w.limit)
unfolding take
take_books w size = (ground arith, ground arith)

add_books :
    (w : Window) (size : ℤ)
    → IsBounded w
    → ((after_add w (add w size)).credit ≡ w.credit + granted_by (add w size) size)
      × ((after_add w (add w size)).limit ≡ w.limit)
      × IsBounded (after_add w (add w size))
unfolding add
add_books w size h = (ground arith, ground arith, ground arith)

close_books :
    (w : Window) (e : Option WindowError)
    → ((close w e).credit ≡ w.credit) × ((close w e).limit ≡ w.limit)
unfolding close
close_books w e = (ground arith, ground arith)

-- Over any calls on a window whose credit is within its limit, the credit left is what was there
-- plus all grants less all that was taken, so the sender never takes more than was granted; and the
-- credit stays within the limit, which never changes.
pub run_books :
    (w : Window) (calls : List Call)
    → IsBounded w
    → ((run w calls).credit + consumed w calls ≡ w.credit + granted w calls)
      × ((run w calls).credit ≤ w.limit)
      × ((run w calls).limit ≡ w.limit)
unfolding run granted consumed step
run_books w [] h = (omega arith, h, refl)
run_books w (takes size ∷ calls) h =
    let (a, b) = take_books w size in
    let (c, d, e) = run_books (step w (takes size)) calls (omega arith) in
    (omega arith, omega arith, e ∙ b)
run_books w (adds size ∷ calls) h =
    let (a, b, f) = add_books w size h in
    let (c, d, e) = run_books (step w (adds size)) calls f in (omega arith, omega arith, e ∙ b)
run_books w (closes error ∷ calls) h =
    let (a, b) = close_books w error in
    let (c, d, e) = run_books (step w (closes error)) calls (omega arith) in
    (omega arith, omega arith, e ∙ b)

-- What a call leaves alone while the channel is the same one.
step_quiet :
    (w : Window) (call : Call)
    → (w.changed ≤ (step w call).changed)
      × ((step w call).changed ≡ w.changed
          → ((step w call).closed ≡ w.closed) × ((step w call).credit ≤ w.credit))
unfolding step take add close
step_quiet w (takes size) = (ground arith, λ h. (ground arith, ground arith))
step_quiet w (adds size) = (ground arith, λ h. (ground arith, ground arith))
step_quiet w (closes error) = (ground arith, λ h. (ground arith, ground arith))

run_quiet :
    (w : Window) (calls : List Call)
    → (w.changed ≤ (run w calls).changed)
      × ((run w calls).changed ≡ w.changed
          → ((run w calls).closed ≡ w.closed) × ((run w calls).credit ≤ w.credit))
unfolding run
run_quiet w [] = (omega arith, λ h. (refl, omega arith))
run_quiet w (call ∷ calls) =
    let (a, b) = step_quiet w call in
    let (c, d) = run_quiet (step w call) calls in
    (
      omega arith,
      λ h. let (e, f) = d (omega arith) in let (g, i) = b (omega arith) in (e ∙ g, omega arith),
    )

pub waiting :
    (w : Window) (size : ℤ) (channel : ℕ)
    → (take w size).1 ≡ waits_on channel
    → (channel ≡ w.changed) × (w.closed ≡ false) × (w.credit < magnitude size)
unfolding take
waiting w size channel h = (ground arith, ground arith, ground arith)

-- While the channel is the same one, a `Take` that had to wait still has to.
still_waits :
    (w : Window) (size : ℤ) (calls : List Call)
    → w.closed ≡ false
    → w.credit < magnitude size
    → (run w calls).changed ≡ w.changed
    → ((run w calls).closed ≡ false) × ((run w calls).credit < magnitude size)
still_waits w size calls h i e =
    let (a, b) = run_quiet w calls in let (c, d) = b e in (c ∙ h, omega arith)

-- No wake-up is lost: if a call of `Take` went to wait and, after any further calls, another attempt
-- for the same size would not wait again, then the channel that it waits on has been closed.
pub no_lost_wake_up :
    (w : Window) (size : ℤ) (channel : ℕ) (calls : List Call)
    → (take w size).1 ≡ waits_on channel
    → ((run w calls).closed ≡ true) ⊎ (magnitude size ≤ (run w calls).credit)
    → channel < (run w calls).changed
no_lost_wake_up w size channel calls h ready =
    let (a, b, c) = waiting w size channel h in
    let (d, _) = run_quiet w calls in
    elim (dec_lt w.changed (run w calls).changed) [
      | yes p ↦ omega arith
      | no n ↦
          let (closed, credit) = still_waits w size calls b c (omega arith) in
          elim ready [ inl e ↦ absurd (false≢true (sym closed ∙ e)) | inr e ↦ absurd (omega arith) ]
    ]
