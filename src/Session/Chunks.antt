-- ===== src/Session/Chunks.antt =====
-- internal/gateway/session.go: `sendBytes`, which cuts a payload into data frames and takes the credit
-- of each from the window of the stream. `Take` may wait, and the others go on meanwhile: the run is a
-- list of turns, each with what the others did to the window before one attempt of `Take`.
use hooshi_xagent.Frame.{max_data_payload}
use hooshi_xagent.Session.{Entry}
use hooshi_xagent.Window.{Window, TakeResult, WindowError}
use hooshi_xagent.Window.Laws.{Call, run}
use hooshi_xagent.Window
use hooshi_xagent.Base.{
  List, [], ◌∷◌, ◌++◌, ℕ, zero, suc, Bool, true, false, Option, some, none, ◌≡◌, ◌≤◌, length, take,
  drop, if◌then◌else◌, ltb, ◌==◌, All, arith, take-append-drop, length-drop, length-take_of_le,
  if_cases, pos, ==_iff, ap, refl, sym, ◌∙◌,
}

-- How much of the payload the next frame carries.
unfoldable pub frame_size : List ℕ → ℕ
frame_size payload =
    if ltb max_data_payload (length payload) then max_data_payload else length payload

-- The loop, with fuel; each pass takes the first bytes that one frame may carry.
unfoldable pub cut : ℕ → List ℕ → List (List ℕ)
unfolding frame_size
cut zero payload = []
cut (suc fuel) payload =
    let size = frame_size payload in
    let rest = cut fuel (drop size payload) in
    if length payload == 0 then [] else take size payload ∷ rest

-- The payloads of the frames; a pass takes at least one byte, so as many passes as bytes are enough.
abbrev pub chunks : List ℕ → List (List ℕ)
chunks payload = cut (length payload) payload

-- `waits` is where the turns end before the call does.
pub data Outcome : Type 0 where
  finished not_written expired waits not_open : Outcome
  refused : WindowError → Outcome

-- What the others did to the window before an attempt; whether the frame can be sent if the credit is
-- taken; and whether the context ends if the attempt has to wait.
pub record Turn : Type 0 where
  pub calls : List Call
  pub writes : Bool
  pub expires : Bool

-- Without a window (the first protocol version, or a datagram stream) nothing is taken.
unfoldable pub attempt : Option Window → List Call → ℕ → Option Window × TakeResult
unfolding run
attempt none calls size = (none, TakeResult.taken)
attempt (some window) calls size =
    let (left, said) = Window.take (run window calls) (pos size) in (some left, said)

-- The frames that `sendFrame` reported sent, the window that is left, and how the call ends or where
-- it waits.
abbrev pub Sending : Type 0
Sending = List (List ℕ) × Option Window × Outcome

-- What is still to be sent after an attempt.
unfoldable pub remaining : TakeResult → List ℕ → List (List ℕ) → List (List ℕ)
remaining TakeResult.taken chunk rest = rest
remaining _ chunk rest = chunk ∷ rest

-- One attempt, given what `Take` said and what the turns after it lead to.
unfoldable pub pass : TakeResult → Turn → List ℕ → Option Window → Sending → Sending
pass TakeResult.taken turn chunk left (out, last, outcome) =
    if turn.writes then (chunk ∷ out, last, outcome) else ([], left, not_written)
pass (TakeResult.failed fault) turn chunk left after = ([], left, refused fault)
pass (TakeResult.waits_on channel) turn chunk left after =
    if turn.expires then ([], left, expired) else after

-- The loop of `sendBytes` with the loop of `Take` in it.
unfoldable pub send_chunks : List (List ℕ) → List Turn → Option Window → Sending
unfolding attempt remaining pass
send_chunks [] turns window = ([], window, finished)
send_chunks (chunk ∷ rest) [] window = ([], window, waits)
send_chunks (chunk ∷ rest) (turn ∷ turns) window =
    let (left, said) = attempt window turn.calls (length chunk) in
    pass said turn chunk left (send_chunks (remaining said chunk rest) turns left)

unfoldable pub send_bytes : List ℕ → List Turn → Option Window → Sending
unfolding send_chunks cut
send_bytes payload turns window = send_chunks (chunks payload) turns window

-- `sendBytes`: a flow-controlled session looks its stream up first.
unfoldable pub send_to : Bool → Option Entry → List ℕ → List Turn → Sending
unfolding send_bytes
send_to false found payload turns = send_bytes payload turns none
send_to true none payload turns = ([], none, not_open)
send_to true (some entry) payload turns = send_bytes payload turns entry.window

abbrev pub joined : List (List ℕ) → List ℕ
joined [] = []
joined (chunk ∷ rest) = chunk ++ joined rest

abbrev pub Fits : List ℕ → Type 0
Fits chunk = (1 ≤ length chunk) × (length chunk ≤ max_data_payload)

size_bounds :
    (payload : List ℕ)
    → (length payload == 0) ≡ false
    → (1 ≤ frame_size payload)
      × (frame_size payload ≤ length payload)
      × (frame_size payload ≤ max_data_payload)
unfolding frame_size
size_bounds payload e = ground arith

empty_of : (payload : List ℕ) → (length payload == 0) ≡ true → payload ≡ []
empty_of [] e = refl
empty_of (b ∷ bs) e = let h = (==_iff (suc (length bs)) 0).0 e in absurd (omega (arith, h))

pub joined-cut :
    (fuel : ℕ) (payload : List ℕ)
    → length payload ≤ fuel
    → (joined (cut fuel payload) ≡ payload) × All Fits (cut fuel payload)
unfolding cut
joined-cut zero [] h = (refl, tt)
joined-cut zero (b ∷ bs) h = absurd (omega arith)
joined-cut (suc fuel) payload h =
    let size = frame_size payload in
    if_cases (λ x. (joined x ≡ payload) × All Fits x) (length payload == 0)
      (λ e. (sym (empty_of payload e), tt))
      (λ e.
        let (low, within, high) = size_bounds payload e in
        let left = length-drop size payload in
        let taken = length-take_of_le size payload within in
        let (a, b) = joined-cut fuel (drop size payload) (omega (arith, left, low, within, h)) in
        (
          ap (λ x. take size payload ++ x) a ∙ take-append-drop size payload,
          ((omega (arith, taken, low), omega (arith, taken, high)), b),
        ))
