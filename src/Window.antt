-- ===== src/Window.antt =====
-- internal/tunnelwindow/window.go: the sender's credit for one stream. Every method holds the
-- mutex, so a call is one step; the one that may wait, `Take`, is modelled by its attempts.
pub mod Laws
pub mod Examples
use hooshi_xagent.Base.{
  ==_iff, >>=-eq-ok, All, All-append, All-drop, All-take, Bool, Bool-cases, List, Option,
  Option-cases, Result, [], ap, arith, bytes_eq, bytes_eq_sound, bytes_eq_refl, drop, drop-drop,
  err, false, if_cases, if◌then◌else◌, inl, inr, leb, leb→le, length, length-append, length-drop,
  length-take_of_le, ltb, ltb→lt, lt→ltb, map, negsuc, none, not, ok, pos, refl, reject_if,
  reject_if-eq-ok, some, subst, suc, sym, take-append-drop, take-drop-append, true, zero, ℕ, ℤ, ◌%◌,
  ◌&&◌, ◌*◌, ◌++◌, ◌+◌, ◌-◌, ◌/◌, ◌<◌, ◌==◌, ◌>>=◌, ◌>>◌, ◌^◌, ◌||◌, ◌↔◌, ◌∙◌, ◌∷◌, ◌≡◌, ◌≢◌, ◌≤◌,
  ◌⊎◌,
}

pub data WindowError : Type 0 where
  err_closed err_invalid err_over_grant : WindowError
  close_error : ℕ → WindowError  -- the error that `Close` was given

pub record Window : Type 0 where
  pub credit : ℕ
  pub limit : ℕ
  pub closed : Bool
  pub error : Option WindowError
  -- The channel `changed`: the number of channels that were closed and replaced before it.
  pub changed : ℕ

abbrev pub max_window_credit_bytes : ℕ
max_window_credit_bytes = 8 * 2 ^ 20

pub new_window : ℤ → Window
new_window (negsuc n) = record { credit = 0; limit = 1; closed = false; error = none; changed = 0 }
new_window (pos limit) = record {
  credit = 0;
  limit = if limit == 0 then 1 else limit;
  closed = false;
  error = none;
  changed = 0;
}

closing_error : Window → WindowError
closing_error window = elim window.error [ none ↦ err_closed | some error ↦ error ]

-- `size <= 0 || size > window.limit`
invalid : Window → ℤ → Bool
invalid window (negsuc n) = true
invalid window (pos size) = size == 0 || ltb window.limit size

abbrev pub magnitude : ℤ → ℕ
magnitude (pos n) = n
magnitude (negsuc n) = suc n

broadcast_locked : Window → Window
broadcast_locked window = record window { changed = suc window.changed }

-- One pass of the loop of `Take`: the credit is taken, an error is returned, or the caller waits on
-- the channel `changed` that it saw (or for its context to end, which changes nothing here).
pub data TakeResult : Type 0 where
  taken : TakeResult
  failed : WindowError → TakeResult
  waits_on : ℕ → TakeResult

unfoldable pub take : Window → ℤ → Window × TakeResult
unfolding invalid closing_error
take window size =
    if invalid window size
    then (window, failed err_invalid)
    else if window.closed
    then (window, failed (closing_error window))
    else if leb (magnitude size) window.credit
    then (record window { credit = window.credit - magnitude size }, taken)
    else (window, waits_on window.changed)

unfoldable pub add : Window → ℤ → Result WindowError Window
unfolding invalid closing_error broadcast_locked
add window size =
    if invalid window size
    then err err_invalid
    else if window.closed
    then err (closing_error window)
    else if ltb window.limit (window.credit + magnitude size)
    then err err_over_grant
    else ok (broadcast_locked (record window { credit = window.credit + magnitude size }))

pub close : Window → Option WindowError → Window
unfolding broadcast_locked
close window error =
    if window.closed
    then window
    else broadcast_locked (record window { closed = true; error = error })

-- `InitialCredit`: the first grant for a receiver's byte budget.
pub initial_credit : ℤ → ℕ
initial_credit (negsuc n) = 1
initial_credit (pos budget) =
    if budget == 0
    then 1
    else if ltb max_window_credit_bytes budget
    then max_window_credit_bytes
    else budget
