-- ===== src/Writer.antt =====
-- internal/gateway/session.go: the writer of a session. Callers of `sendFrame` put requests into two
-- bounded queues; one goroutine takes them out, numbers the frames and writes them. A run is the
-- sequence of the steps that callers, the writer and whoever closes the session make.
pub mod Sequences
pub mod Answers
pub mod Order
pub mod Examples
use hooshi_xagent.Frame.{
  Frame, FieldError, encode_frame, next_sequence, kind_control, kind_data, SequenceError,
}
use hooshi_xagent.Base.{
  List, [], ◌∷◌, ◌++◌, ℕ, Bool, true, false, not, ◌&&◌, Option, some, none, Result, ok, err,
  if◌then◌else◌, ltb, ◌==◌, length, ◌+◌, ◌%◌, ◌^◌, ==_iff, >>=-eq-ok, >>=_iff, >>_iff, All,
  All-append, All-drop, All-take, Bool-cases, Option-cases, ap, arith, below, bytes_eq,
  bytes_eq_refl, bytes_eq_sound, codes, double, drop, drop-drop, if_cases, inl, inr, int_eq, leb,
  leb→le, length-append, length-drop, length-take_of_le, ltb→lt, lt→ltb, map, negsuc, ok-injective,
  outside, outside_iff, pos, refl, reject_if, reject_if-eq-ok, reject_if_iff, subst, suc, sym, take,
  take-append-drop, take-drop-append, with_fault, with_fault_iff, zero, ℤ, ◌*◌, ◌-◌, ◌/◌, ◌<◌,
  ◌>>=◌, ◌>>◌, ◌||◌, ◌↔◌, ◌∙◌, ◌≡◌, ◌≢◌, ◌≤◌, ◌⊎◌,
}

-- `sessionWriteRequest`, with a number that tells the callers apart.
pub record Request : Type 0 where
  pub caller : ℕ
  pub kind : ℕ
  pub stream_id : ℕ
  pub payload : List ℕ

-- What is sent on `request.result`.
pub data Answer : Type 0 where
  sent expired exhausted write_failed : Answer
  not_encoded : FieldError → Answer

-- Where the goroutine is in `writeLoop`: at its top, past the check of `done`, past the poll of the
-- control queue, or returned.
pub data Place : Type 0 where
  top checked polled stopped : Place

pub record Writer : Type 0 where
  pub place : Place
  pub pending_data : Option Request
  pub control_writes : List Request
  pub data_writes : List Request
  pub outbound : ℕ
  pub done : Bool
  pub failed_all : Bool  -- whether `failAll` has run
  pub public_bytes : ℕ  -- uint64
  pub wire : List (Frame × List ℕ)  -- the frames that were written, with their bytes
  pub answers : List (Request × Answer)

-- The writer's part of `newSession`.
abbrev pub new_writer : ℕ → Writer
new_writer last_outbound = record {
  place = top;
  pending_data = none;
  control_writes = [];
  data_writes = [];
  outbound = last_outbound;
  done = false;
  failed_all = false;
  public_bytes = 0;
  wire = [];
  answers = [];
}

unfoldable pub answer : Request → Answer → Writer → Writer
answer request said writer = record writer { answers = writer.answers ++ ((request, said) ∷ []) }

-- `failAll` and `close`, and the answer
unfoldable pub give_up : Request → Answer → Writer → Writer
unfolding answer
give_up request said writer = answer request said (record writer { done = true; failed_all = true })

abbrev pub is_data : Request → Bool
is_data request = request.kind == kind_data

-- `publicBytes.Add`
abbrev counted : Request → ℕ → ℕ
counted request count = if is_data request then (count + length request.payload) % 2 ^ 64 else count

-- The frame is written, or the write fails.
unfoldable pub put : Request → Frame → List ℕ → Bool → Writer → Writer
unfolding answer give_up
put request frame bytes fails writer =
    let numbered = record writer { outbound = frame.sequence } in
    if fails
    then give_up request write_failed numbered
    else answer request sent (record numbered {
      wire = writer.wire ++ ((frame, bytes) ∷ []);
      public_bytes = counted request writer.public_bytes;
    })

abbrev pub frame_of : Request → ℕ → Frame
frame_of request sequence = record {
  kind = request.kind;
  stream_id = request.stream_id;
  sequence = sequence;
  payload = request.payload;
}

unfoldable pub encode_and_put :
    Request → Frame → Result FieldError (List ℕ) → Bool → Writer → Writer
unfolding answer put
encode_and_put request frame (err fault) fails writer = answer request (not_encoded fault) writer
encode_and_put request frame (ok bytes) fails writer = put request frame bytes fails writer

unfoldable pub number_and_put : Request → Result SequenceError ℕ → Bool → Writer → Writer
unfolding give_up encode_and_put
number_and_put request (err fault) fails writer = give_up request exhausted writer
number_and_put request (ok sequence) fails writer =
    let frame = frame_of request sequence in
    encode_and_put request frame (encode_frame frame) fails writer

-- `writeQueued`, given whether the request's context has ended, and whether the write fails.
unfoldable pub write_queued : Request → Bool → Bool → Writer → Writer
unfolding answer number_and_put
write_queued request ended fails writer =
    if ended && not (is_data request)
    then answer request expired writer
    else number_and_put request (next_sequence writer.outbound) fails writer

-- The arm that a `select` takes when several are ready.
pub data Arm : Type 0 where
  control_arm data_arm done_arm : Arm

unfoldable pub hold : List Request → Writer → Writer
hold [] writer = writer
hold (request ∷ rest) writer = record writer {
  place = top;
  pending_data = some request;
  data_writes = rest;
}

unfoldable pub write_control : List Request → Bool → Bool → Writer → Writer
unfolding write_queued
write_control [] ended fails writer = writer
write_control (request ∷ rest) ended fails writer =
    write_queued request ended fails (record writer { place = top; control_writes = rest })

abbrev pub at_place : Place → Writer → Writer
at_place place writer = record writer { place = place }

unfoldable pub stop_if_done : Place → Writer → Writer
stop_if_done otherwise writer =
    if writer.done then at_place stopped writer else at_place otherwise writer

unfoldable pub poll_control : List Request → Bool → Bool → Writer → Writer
unfolding write_control
poll_control [] ended fails writer = at_place polled writer
poll_control (request ∷ rest) ended fails writer = write_control (request ∷ rest) ended fails writer

-- Past the check of `done`: the held data frame goes out first, then what the control queue has.
unfoldable pub after_check : Option Request → Bool → Bool → Writer → Writer
unfolding write_queued poll_control
after_check (some request) ended fails writer =
    write_queued request ended fails (record writer { place = top; pending_data = none })
after_check none ended fails writer = poll_control writer.control_writes ended fails writer

-- The `select` that waits; an arm that is not ready changes nothing.
unfoldable pub after_poll : Arm → Bool → Bool → Writer → Writer
unfolding hold write_control stop_if_done
after_poll control_arm ended fails writer = write_control writer.control_writes ended fails writer
after_poll data_arm ended fails writer = hold writer.data_writes writer
after_poll done_arm ended fails writer = stop_if_done polled writer

unfoldable pub turn : Place → Arm → Bool → Bool → Writer → Writer
unfolding after_check after_poll stop_if_done
turn top arm ended fails writer = stop_if_done checked writer
turn checked arm ended fails writer = after_check writer.pending_data ended fails writer
turn polled arm ended fails writer = after_poll arm ended fails writer
turn stopped arm ended fails writer = writer

-- `queue <- request` in `sendFrame`, which waits while the queue is full.
unfoldable pub submit : Request → Writer → Writer
submit request writer =
    if request.kind == kind_control
    then (if ltb (length writer.control_writes) 32
        then record writer { control_writes = writer.control_writes ++ (request ∷ []) }
        else writer)
    else (if ltb (length writer.data_writes) 2
        then record writer { data_writes = writer.data_writes ++ (request ∷ []) }
        else writer)

-- A caller's request, the close of the session by someone else, and a step of the goroutine.
pub data Event : Type 0 where
  submitted : Request → Event
  shut : Event
  turned : Arm → Bool → Bool → Event

unfoldable pub step : Event → Writer → Writer
unfolding submit turn
step (submitted request) writer = submit request writer
step shut writer = record writer { done = true }
step (turned arm ended fails) writer = turn writer.place arm ended fails writer

unfoldable pub run : List Event → Writer → Writer
unfolding step
run [] writer = writer
run (event ∷ events) writer = run events (step event writer)
