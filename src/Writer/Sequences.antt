-- ===== src/Writer/Sequences.antt =====
-- internal/gateway/session.go: the numbers of the frames that a session's writer has written.
use hooshi_xagent.Frame.{
  Frame, FieldError, SequenceError, encode_frame, next_sequence, max_sequence, kind_control,
}
use hooshi_xagent.Frame.Sequence.{
  accept_all, count_from, accept_all-count_from, next_sequence-eq-ok,
}
use hooshi_xagent.Writer.{
  Request, Place, Writer, Event, Arm, new_writer, answer, give_up, put, encode_and_put,
  number_and_put, write_queued, hold, write_control, stop_if_done, poll_control, after_check,
  after_poll, turn, submit, step, run, is_data, frame_of,
}
use hooshi_xagent.Base.{
  List, [], ◌∷◌, ◌++◌, ℕ, Bool, true, false, not, ◌&&◌, Option, some, none, Result, ok, err, ◌≡◌,
  ◌⊎◌, inl, inr, length, All, if_cases, ◌+◌, ◌≤◌, All-append, ap, arith, length-append, ltb, refl,
  subst, suc, sym, zero, ◌==◌, ◌∙◌,
}
use mathlib.Core.Bool.{true≢false}

abbrev pub sequences : List (Frame × List ℕ) → List ℕ
sequences [] = []
sequences ((frame, bytes) ∷ rest) = frame.sequence ∷ sequences rest

abbrev pub IsEncoded : Frame × List ℕ → Type 0
IsEncoded (frame, bytes) = encode_frame frame ≡ ok bytes

-- Once a write has failed, or no number is left, the goroutine only looks at `done` and returns.
abbrev IsOver : Place → Type 0
IsOver Place.top = Unit
IsOver Place.stopped = Unit
IsOver place = true ≡ false

-- The frames that are written are numbered without a gap, each with the bytes of its encoding.
abbrev HasWritten : ℕ → Writer → Type 0
HasWritten first w =
    (sequences w.wire ≡ count_from first (length w.wire))
    × (first + length w.wire ≤ max_sequence)
    × All IsEncoded w.wire

-- The next number is the one after them for as long as the goroutine goes on.
abbrev pub IsNumbered : ℕ → Writer → Type 0
IsNumbered first w =
    HasWritten first w × ((w.outbound ≡ first + length w.wire) ⊎ ((w.done ≡ true) × IsOver w.place))

count_from-suc :
    (first count : ℕ)
    → count_from first count ++ (suc (first + count) ∷ []) ≡ count_from first (suc count)
count_from-suc first zero = let e : first + 0 ≡ first = omega arith in rw e refl
count_from-suc first (suc count) =
    let e : first + suc count ≡ suc first + count = omega arith in
    rw e (ap (◌∷◌ (suc first)) (count_from-suc (suc first) count))

sequences-append :
    (wire : List (Frame × List ℕ)) (frame : Frame) (bytes : List ℕ)
    → sequences (wire ++ ((frame, bytes) ∷ [])) ≡ sequences wire ++ (frame.sequence ∷ [])
sequences-append [] frame bytes = refl
sequences-append (written ∷ rest) frame bytes =
    ap (◌∷◌ written.0.sequence) (sequences-append rest frame bytes)

module _ (first : ℕ) where
  put-IsNumbered :
      (request : Request) (frame : Frame) (bytes : List ℕ) (fails : Bool) (w : Writer)
      → w.place ≡ Place.top
      → frame.sequence ≡ suc w.outbound
      → suc w.outbound ≤ max_sequence
      → encode_frame frame ≡ ok bytes
      → w.outbound ≡ first + length w.wire
      → HasWritten first w
      → IsNumbered first (put request frame bytes fails w)
  unfolding put answer give_up
  put-IsNumbered request frame bytes true w at_top next room encoded now written =
      (written, inr (refl, subst IsOver (sym at_top) tt))
  put-IsNumbered request frame bytes false w at_top next room encoded now (a, b, c) =
      let longer = length-append w.wire ((frame, bytes) ∷ []) in
      let size : length (w.wire ++ ((frame, bytes) ∷ [])) ≡ suc (length w.wire) =
        omega (arith, longer) in
      let number : frame.sequence ≡ suc (first + length w.wire) = next ∙ ap suc now in
      (
        (
          sequences-append w.wire frame bytes
              ∙ ap (λ x. x ++ (frame.sequence ∷ [])) a
              ∙ ap (λ x. count_from first (length w.wire) ++ (x ∷ [])) number
              ∙ count_from-suc first (length w.wire)
              ∙ ap (count_from first) (sym size),
          omega (arith, longer, now, room),
          All-append IsEncoded w.wire ((frame, bytes) ∷ []) c (encoded, tt),
        ),
        inl (omega (arith, longer, number)),
      )

  encode_and_put-IsNumbered :
      (request : Request) (frame : Frame) (encoding : Result FieldError (List ℕ)) (fails : Bool)
      (w : Writer)
      → encode_frame frame ≡ encoding
      → w.place ≡ Place.top
      → frame.sequence ≡ suc w.outbound
      → suc w.outbound ≤ max_sequence
      → w.outbound ≡ first + length w.wire
      → HasWritten first w
      → IsNumbered first (encode_and_put request frame encoding fails w)
  unfolding encode_and_put answer
  encode_and_put-IsNumbered request frame (err fault) fails w e at_top next room now written =
      (written, inl now)
  encode_and_put-IsNumbered request frame (ok bytes) fails w e at_top next room now written =
      put-IsNumbered request frame bytes fails w at_top next room e now written

  number_and_put-IsNumbered :
      (request : Request) (number : Result SequenceError ℕ) (fails : Bool) (w : Writer)
      → next_sequence w.outbound ≡ number
      → w.place ≡ Place.top
      → w.outbound ≡ first + length w.wire
      → HasWritten first w
      → IsNumbered first (number_and_put request number fails w)
  unfolding number_and_put give_up answer
  number_and_put-IsNumbered request (err fault) fails w e at_top now written =
      (written, inr (refl, subst IsOver (sym at_top) tt))
  number_and_put-IsNumbered request (ok sequence) fails w e at_top now written =
      let (next, room) =
        next_sequence-eq-ok w.outbound sequence (omega (arith, now, written.1)) e in
      let frame = frame_of request sequence in
      encode_and_put-IsNumbered request frame (encode_frame frame) fails w refl at_top next room now
        written

  write_queued-IsNumbered :
      (request : Request) (ended fails : Bool) (w : Writer)
      → w.place ≡ Place.top
      → w.outbound ≡ first + length w.wire
      → HasWritten first w
      → IsNumbered first (write_queued request ended fails w)
  unfolding write_queued answer
  write_queued-IsNumbered request ended fails w at_top now written =
      if_cases (IsNumbered first) (ended && not (is_data request)) (λ e. (written, inl now))
        (λ e.
          number_and_put-IsNumbered request (next_sequence w.outbound) fails w refl at_top now
            written)

  write_control-IsNumbered :
      (requests : List Request) (ended fails : Bool) (w : Writer)
      → w.outbound ≡ first + length w.wire
      → HasWritten first w
      → IsNumbered first (write_control requests ended fails w)
  unfolding write_control
  write_control-IsNumbered [] ended fails w now written = (written, inl now)
  write_control-IsNumbered (request ∷ rest) ended fails w now written =
      write_queued-IsNumbered request ended fails
        (record w { place = Place.top; control_writes = rest }) refl now written

  poll_control-IsNumbered :
      (requests : List Request) (ended fails : Bool) (w : Writer)
      → w.outbound ≡ first + length w.wire
      → HasWritten first w
      → IsNumbered first (poll_control requests ended fails w)
  unfolding poll_control
  poll_control-IsNumbered [] ended fails w now written = (written, inl now)
  poll_control-IsNumbered (request ∷ rest) ended fails w now written =
      write_control-IsNumbered (request ∷ rest) ended fails w now written

  after_check-IsNumbered :
      (pending : Option Request) (ended fails : Bool) (w : Writer)
      → w.outbound ≡ first + length w.wire
      → HasWritten first w
      → IsNumbered first (after_check pending ended fails w)
  unfolding after_check
  after_check-IsNumbered (some request) ended fails w now written =
      write_queued-IsNumbered request ended fails
        (record w { place = Place.top; pending_data = none }) refl now written
  after_check-IsNumbered none ended fails w now written =
      poll_control-IsNumbered w.control_writes ended fails w now written

  hold-IsNumbered :
      (requests : List Request) (w : Writer)
      → w.outbound ≡ first + length w.wire
      → HasWritten first w
      → IsNumbered first (hold requests w)
  unfolding hold
  hold-IsNumbered [] w now written = (written, inl now)
  hold-IsNumbered (request ∷ rest) w now written = (written, inl now)

  -- Past the check of `done` the goroutine goes on.
  goes_on :
      (place : Place) (w : Writer)
      → w.place ≡ place
      → (IsOver place → true ≡ false)
      → IsNumbered first w
      → w.outbound ≡ first + length w.wire
  goes_on place w e stays (written, inl now) = now
  goes_on place w e stays (written, inr (closed, over)) =
      absurd (true≢false (stays (subst IsOver e over)))

  stop_if_done-IsNumbered :
      (place : Place) (w : Writer)
      → (w.done ≡ false → w.outbound ≡ first + length w.wire)
      → IsNumbered first w
      → IsNumbered first (stop_if_done place w)
  unfolding stop_if_done
  stop_if_done-IsNumbered place w open_now (written, now) =
      if_cases (IsNumbered first) w.done (λ closed. (written, inr (closed, tt)))
        (λ is_open. (written, inl (open_now is_open)))

  not_done : (w : Writer) → IsNumbered first w → w.done ≡ false → w.outbound ≡ first + length w.wire
  not_done w (written, inl now) is_open = now
  not_done w (written, inr (closed, over)) is_open = absurd (true≢false (sym closed ∙ is_open))

  turn-IsNumbered :
      (place : Place) (arm : Arm) (ended fails : Bool) (w : Writer)
      → w.place ≡ place
      → IsNumbered first w
      → IsNumbered first (turn place arm ended fails w)
  unfolding turn after_poll
  turn-IsNumbered Place.top arm ended fails w e h =
      stop_if_done-IsNumbered Place.checked w (not_done w h) h
  turn-IsNumbered Place.checked arm ended fails w e h =
      after_check-IsNumbered w.pending_data ended fails w (goes_on Place.checked w e (λ x. x) h) h.0
  turn-IsNumbered Place.polled Arm.control_arm ended fails w e h =
      write_control-IsNumbered w.control_writes ended fails w (goes_on Place.polled w e (λ x. x) h)
        h.0
  turn-IsNumbered Place.polled Arm.data_arm ended fails w e h =
      hold-IsNumbered w.data_writes w (goes_on Place.polled w e (λ x. x) h) h.0
  turn-IsNumbered Place.polled Arm.done_arm ended fails w e h =
      stop_if_done-IsNumbered Place.polled w (not_done w h) h
  turn-IsNumbered Place.stopped arm ended fails w e h = h

  step-IsNumbered :
      (event : Event) (w : Writer) → IsNumbered first w → IsNumbered first (step event w)
  unfolding step submit
  step-IsNumbered (Event.submitted request) w h =
      if_cases (IsNumbered first) (request.kind == kind_control)
        (λ e. if_cases (IsNumbered first) (ltb (length w.control_writes) 32) (λ f. h) (λ f. h))
        (λ e. if_cases (IsNumbered first) (ltb (length w.data_writes) 2) (λ f. h) (λ f. h))
  step-IsNumbered Event.shut w (written, inl now) = (written, inl now)
  step-IsNumbered Event.shut w (written, inr (closed, over)) = (written, inr (refl, over))
  step-IsNumbered (Event.turned arm ended fails) w h =
      turn-IsNumbered w.place arm ended fails w refl h

  run-IsNumbered :
      (events : List Event) (w : Writer) → IsNumbered first w → IsNumbered first (run events w)
  unfolding run
  run-IsNumbered [] w h = h
  run-IsNumbered (event ∷ events) w h =
      run-IsNumbered events (step event w) (step-IsNumbered event w h)

  -- However callers, the writer and the close of the session interleave: a peer that has accepted
  -- the numbers up to `first` accepts those of all the frames that are written, in their order, and
  -- the bytes of each frame are its encoding.
  pub run-accepted :
      (events : List Event)
      → first ≤ max_sequence
      → let w = run events (new_writer first) in
        (accept_all first (sequences w.wire) ≡ ok (first + length w.wire)) × All IsEncoded w.wire
  run-accepted events room =
      let w = run events (new_writer first) in
      let ((a, b, c), d) =
        run-IsNumbered events (new_writer first) ((refl, omega arith, tt), inl (omega arith)) in
      (ap (accept_all first) a ∙ accept_all-count_from (length w.wire) first b, c)
