-- ===== src/Session/Sending.antt =====
-- internal/gateway/session.go: what `sendBytes` sends, and the credit that it takes.
use hooshi_xagent.Session.Chunks.{
  Sending, finished, pass, attempt, remaining, Turn, send_chunks, send_bytes, chunks, joined, Fits,
  joined-cut, waits,
}
use hooshi_xagent.Window.Laws.{taken_by, take_books, run, granted, run_books, IsBounded, waiting}
use hooshi_xagent.Window.{Window, TakeResult, WindowError}
use hooshi_xagent.Window
use hooshi_xagent.Base.{
  List, [], ◌∷◌, ◌++◌, ℕ, Bool, false, Option, some, ◌≡◌, ◌≤◌, length, All, arith, pos, ap, refl,
  sym, ◌∙◌, length-append, subst, ◌+◌, Bool-cases, if_cases, if◌then◌else◌, inl, inr, not, ltb,
  lt→ltb, suc, ◌<◌,
}
use mathlib.Core.List.{append_assoc}

-- Whether the call goes on after an attempt.
goes_on : TakeResult → Turn → Bool
goes_on TakeResult.taken turn = turn.writes
goes_on (TakeResult.failed fault) turn = false
goes_on (TakeResult.waits_on channel) turn = not turn.expires

-- The credit that others grant while the call goes on.
pub arrived : List (List ℕ) → List Turn → Window → ℕ
unfolding goes_on
arrived [] turns window = 0
arrived (chunk ∷ rest) [] window = 0
arrived (chunk ∷ rest) (turn ∷ turns) window =
    let (left, said) = Window.take (run window turn.calls) (pos (length chunk)) in
    let later = arrived (remaining said chunk rest) turns left in
    granted window turn.calls + (if goes_on said turn then later else 0)

-- The credit covers what goes out.
abbrev Spends : ℕ → Sending → Type 0
Spends credit sending =
    (left : Window) × (sending.1 ≡ some left) × (length (joined sending.0) + left.credit ≤ credit)

Spends-≤ : (m n : ℕ) (sending : Sending) → m ≤ n → Spends m sending → Spends n sending
Spends-≤ m n sending h (left, p, covered) = (left, p, omega (arith, covered, h))

pass-Spends :
    (said : TakeResult) (turn : Turn) (chunk : List ℕ) (before later : ℕ) (after : Window)
    (sending : Sending)
    → after.credit + taken_by said (pos (length chunk)) ≡ before
    → Spends (after.credit + later) sending
    → Spends
        (before + (if goes_on said turn then later else 0))
        (pass said turn chunk (some after) sending)
unfolding pass goes_on
pass-Spends TakeResult.taken turn chunk before later after (out, last, outcome) e
      (left, p, covered) =
    elim (Bool-cases turn.writes) [
      | inl w ↦ rw w (left, p, omega (arith, e, covered, length-append chunk (joined out)))
      | inr w ↦ rw w (after, refl, omega (arith, e))
    ]
pass-Spends (TakeResult.failed fault) turn chunk before later after sending e h =
    (after, refl, omega (arith, e))
pass-Spends (TakeResult.waits_on channel) turn chunk before later after sending e h =
    elim (Bool-cases turn.expires) [
      | inl w ↦ rw w (after, refl, omega (arith, e))
      | inr w ↦ rw w (Spends-≤ (after.credit + later) (before + later) sending (omega (arith, e)) h)
    ]

send_chunks-Spends :
    (pieces : List (List ℕ)) (turns : List Turn) (window : Window)
    → IsBounded window
    → Spends (window.credit + arrived pieces turns window) (send_chunks pieces turns (some window))
unfolding send_chunks attempt arrived
send_chunks-Spends [] turns window b = (window, refl, omega arith)
send_chunks-Spends (chunk ∷ rest) [] window b = (window, refl, omega arith)
send_chunks-Spends (chunk ∷ rest) (turn ∷ turns) window b =
    let seen = run window turn.calls in
    let size = pos (length chunk) in
    let (left, said) = Window.take seen size in
    let later = arrived (remaining said chunk rest) turns left in
    let (c, d, e) = run_books window turn.calls b in
    let (f, g) = take_books seen size in
    let h =
      pass-Spends said turn chunk seen.credit later left
        (send_chunks (remaining said chunk rest) turns (some left)) f
        (send_chunks-Spends (remaining said chunk rest) turns left (omega (arith, d, e, f, g))) in
    Spends-≤ _ _ (send_chunks (chunk ∷ rest) (turn ∷ turns) (some window)) (omega (arith, c)) h

-- What goes out is a first part of the pieces, and all of them when the call finishes.
abbrev IsPart : List (List ℕ) → Sending → Type 0
IsPart pieces sending =
    (rest : List (List ℕ)) × (pieces ≡ sending.0 ++ rest) × (sending.2 ≡ finished → rest ≡ [])

pass-IsPart :
    (said : TakeResult) (turn : Turn) (chunk : List ℕ) (left : Option Window)
    (pieces : List (List ℕ)) (sending : Sending)
    → IsPart (remaining said chunk pieces) sending
    → IsPart (chunk ∷ pieces) (pass said turn chunk left sending)
unfolding pass remaining
pass-IsPart TakeResult.taken turn chunk left pieces (out, last, outcome) (rest, p, all) =
    if_cases (IsPart (chunk ∷ pieces)) turn.writes (λ _. (rest, ap (◌∷◌ chunk) p, all))
      (λ _. (chunk ∷ pieces, refl, λ e. cc))
pass-IsPart (TakeResult.failed fault) turn chunk left pieces sending h =
    (chunk ∷ pieces, refl, λ e. cc)
pass-IsPart (TakeResult.waits_on channel) turn chunk left pieces sending h =
    if_cases (IsPart (chunk ∷ pieces)) turn.expires (λ _. (chunk ∷ pieces, refl, λ e. cc)) (λ _. h)

send_chunks-IsPart :
    (pieces : List (List ℕ)) (turns : List Turn) (window : Option Window)
    → IsPart pieces (send_chunks pieces turns window)
unfolding send_chunks
send_chunks-IsPart [] turns window = ([], refl, λ e. refl)
send_chunks-IsPart (chunk ∷ rest) [] window = (chunk ∷ rest, refl, λ e. cc)
send_chunks-IsPart (chunk ∷ rest) (turn ∷ turns) window =
    let (left, said) = attempt window turn.calls (length chunk) in
    pass-IsPart said turn chunk left rest (send_chunks (remaining said chunk rest) turns left)
      (send_chunks-IsPart (remaining said chunk rest) turns left)

-- The attempts at which the window has less credit than the next frame is long.
pub short : List (List ℕ) → List Turn → Window → ℕ
short [] turns window = 0
short (chunk ∷ rest) [] window = 0
short (chunk ∷ rest) (turn ∷ turns) window =
    let seen = run window turn.calls in
    let (left, said) = Window.take seen (pos (length chunk)) in
    let later = short (remaining said chunk rest) turns left in
    (if ltb seen.credit (length chunk) then 1 else 0) + later

-- Where the turns end first, each of so many sent a frame or was short of credit.
abbrev Progresses : ℕ → ℕ → Sending → Type 0
Progresses turns lacking sending = sending.2 ≡ waits → turns ≤ length sending.0 + lacking

pass-Progresses :
    (said : TakeResult) (turn : Turn) (chunk : List ℕ) (left : Option Window)
    (turns credit later : ℕ) (sending : Sending)
    → ((channel : ℕ) → said ≡ TakeResult.waits_on channel → credit < length chunk)
    → Progresses turns later sending
    → Progresses
        (suc turns)
        ((if ltb credit (length chunk) then 1 else 0) + later)
        (pass said turn chunk left sending)
unfolding pass
pass-Progresses TakeResult.taken turn chunk left turns credit later (out, last, outcome) lacks h =
    if_cases (Progresses (suc turns) ((if ltb credit (length chunk) then 1 else 0) + later))
      turn.writes (λ _ e. omega (arith, h e)) (λ _ e. cc)
pass-Progresses (TakeResult.failed fault) turn chunk left turns credit later sending lacks h =
    λ e. cc
pass-Progresses (TakeResult.waits_on channel) turn chunk left turns credit later sending lacks h =
    let less = lt→ltb credit (length chunk) (lacks channel refl) in
    if_cases (Progresses (suc turns) ((if ltb credit (length chunk) then 1 else 0) + later))
      turn.expires (λ _ e. cc) (λ _ e. rw less (omega (arith, h e)))

send_chunks-Progresses :
    (pieces : List (List ℕ)) (turns : List Turn) (window : Window)
    → Progresses (length turns) (short pieces turns window) (send_chunks pieces turns (some window))
unfolding send_chunks attempt short
send_chunks-Progresses [] turns window = λ e. cc
send_chunks-Progresses (chunk ∷ rest) [] window = λ e. omega arith
send_chunks-Progresses (chunk ∷ rest) (turn ∷ turns) window =
    let seen = run window turn.calls in
    let (left, said) = Window.take seen (pos (length chunk)) in
    pass-Progresses said turn chunk (some left) (length turns) seen.credit
      (short (remaining said chunk rest) turns left)
      (send_chunks (remaining said chunk rest) turns (some left))
      (λ channel e. (waiting seen (pos (length chunk)) channel e).2)
      (send_chunks-Progresses (remaining said chunk rest) turns left)

joined-append : (xs ys : List (List ℕ)) → joined (xs ++ ys) ≡ joined xs ++ joined ys
joined-append [] ys = refl
joined-append (x ∷ xs) ys =
    ap (λ z. x ++ z) (joined-append xs ys) ∙ sym (append_assoc x (joined xs) (joined ys))

All-part : (P : List ℕ → Type 0) (xs ys : List (List ℕ)) → All P (xs ++ ys) → All P xs
All-part P [] ys h = tt
All-part P (x ∷ xs) ys (this, those) = (this, All-part P xs ys those)

-- On a window whose credit is within its limit, whatever the others do to it between the attempts
-- and however often the call waits: the frames that `sendBytes` sends carry a first part of the
-- payload, in its order, and the whole payload when the call finishes; each carries at least one byte
-- and at most `MaxDataPayload`; their bytes, with the credit that is left, do not exceed the credit
-- that the window had and what was granted while the call went on; and a call that neither finished
-- nor failed has sent a frame at each attempt for which the window had the credit.
pub send_bytes_lem :
    (payload : List ℕ) (turns : List Turn) (window : Window)
    → IsBounded window
    → let sending = send_bytes payload turns (some window) in
      ((rest : List ℕ) × (payload ≡ joined sending.0 ++ rest) × (sending.2 ≡ finished → rest ≡ []))
      × All Fits sending.0
      × ((left : Window) × (sending.1 ≡ some left)
          × (length (joined sending.0) + left.credit
              ≤ window.credit + arrived (chunks payload) turns window))
      × (sending.2 ≡ waits → length turns ≤ length sending.0 + short (chunks payload) turns window)
unfolding send_bytes
send_bytes_lem payload turns window b =
    let sending = send_chunks (chunks payload) turns (some window) in
    let (whole, fits) = joined-cut (length payload) payload (omega arith) in
    let (rest, p, all) = send_chunks-IsPart (chunks payload) turns (some window) in
    (
      (joined rest, sym whole ∙ ap joined p ∙ joined-append sending.0 rest, λ e. ap joined (all e)),
      All-part Fits sending.0 rest (subst (All Fits) p fits),
      send_chunks-Spends (chunks payload) turns window b,
      send_chunks-Progresses (chunks payload) turns window,
    )
