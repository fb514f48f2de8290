-- ===== src/Session.antt =====
-- internal/gateway/session.go: the streams of a session, from `openStreamTarget` to `detachStream`,
-- and what frames of the Agent do to them. The mutex makes each access of the map one step; a stream
-- that left the map stands in `detached`, since its reader still has it. A message that cannot be
-- sent is not in `outbox`. What is only logged is left out.
pub mod Map
pub mod Handle
pub mod Open
pub mod Ids
pub mod Kept
pub mod Life
pub mod Isolation
pub mod Chunks
pub mod Sending
pub mod Examples
use hooshi_xagent.Session.Map.{find, remove, ids}
use hooshi_xagent.Stream.{
  Stream, Pools, EnqueueError, Fault, eof, failure, new_stream, enqueue, half_close, finish, detach,
}
use hooshi_xagent.Window.{
  Window, WindowError, new_window, add, close, initial_credit, max_window_credit_bytes,
}
use hooshi_xagent.Budget.{Panic}
use hooshi_xagent.Frame.{max_udp_datagram}
use hooshi_xagent.Base.{
  List, [], ◌∷◌, ◌++◌, ℕ, Bool, true, false, not, ◌&&◌, ◌||◌, Option, some, none, Result, ok, err,
  ◌>>=◌, if◌then◌else◌, ltb, leb, ◌==◌, length, take, ◌+◌, ◌%◌, ◌^◌, ℤ, pos, map, codes,
}

-- A stream with its window, which only streams of the second protocol version have.
pub record Entry : Type 0 where
  pub stream : Stream
  pub window : Option Window

-- The control messages that the Gateway sends about a stream.
pub data Outgoing : Type 0 where
  stream_open half_close_message pong : Outgoing
  window_update : ℕ → Outgoing
  stream_close : List ℕ → Outgoing
  stream_error : List ℕ → List ℕ → Bool → Outgoing

pub record Session : Type 0 where
  pub streams : List (ℕ × Entry)
  pub detached : List (ℕ × Entry)
  pub next_id : ℕ  -- uint32
  pub pools : Pools
  pub flow_controlled : Bool
  pub supports_half_close : Bool
  pub outbox : List (ℕ × Outgoing)
  pub agent_bytes : ℕ  -- uint64
  pub health_reports : ℕ  -- uint64
  pub last_seen : ℕ
  pub pending_ping : Option (List ℕ × ℕ)  -- the identifier of a ping, and when it was sent
  pub ping_latency : ℕ

-- The limits of the Gateway that the session reads.
pub record Limits : Type 0 where
  pub max_streams_per_session : ℕ
  pub max_stream_queue_frames : ℕ
  pub max_stream_queue_bytes : ℕ

pub data SessionError : Type 0 where
  panicked : Panic → SessionError
  stream_limit id_exhausted no_request_id not_sent no_half_close : SessionError
  unknown_stream revocation_from_agent not_flow_controlled unexpected_message : SessionError

-- `sendControl`, given whether it succeeds.
unfoldable pub send_control : Bool → ℕ → Outgoing → Session → Session
send_control sent id message s =
    if sent then record s { outbox = s.outbox ++ ((id, message) ∷ []) } else s

-- The error that `window.Close` is given.
abbrev fault_error : Option Fault → Option WindowError
fault_error none = none
fault_error (some eof) = some (WindowError.close_error 0)
fault_error (some (failure code)) = some (WindowError.close_error (code + 1))

abbrev pub close_window : Option Window → Option Fault → Option Window
close_window none fault = none
close_window (some window) fault = some (close window (fault_error fault))

unfoldable pub settle :
    ℕ → Entry → Option Fault → Session → Result Panic (Stream × Pools) → Result SessionError Session
settle id entry fault s (err panic) = err (panicked panic)
settle id entry fault s (ok (stream, pools)) = ok (record s {
  streams = remove id s.streams;
  detached =
      (id, record { stream = stream; window = close_window entry.window fault }) ∷ s.detached;
  pools = pools;
})

-- `detachStream`, for what the map has; the result says whether it had the stream.
unfoldable pub detach_found :
    ℕ → Option Entry → Option Fault → Session → Result SessionError (Session × Bool)
unfolding settle
detach_found id none fault s = ok (s, false)
detach_found id (some entry) fault s =
    settle id entry fault s (detach entry.stream s.pools fault) >>= λ s'. ok (s', true)

unfoldable pub detach_stream : ℕ → Option Fault → Session → Result SessionError (Session × Bool)
unfolding detach_found
detach_stream id fault s = detach_found id (find id s.streams) fault s

unfoldable pub finish_stream : ℕ → Option Fault → Session → Result SessionError Session
unfolding detach_stream
finish_stream id fault s = detach_stream id fault s >>= λ r. ok r.0

-- The message goes out only when there was a stream to detach.
unfoldable pub tell : Bool → ℕ → Outgoing → Session × Bool → Result SessionError Session
unfolding send_control
tell sent id message (s, had) = ok (if had then send_control sent id message s else s)

unfoldable pub close_stream : Bool → ℕ → List ℕ → Session → Result SessionError Session
unfolding detach_stream tell
close_stream sent id reason_code s =
    detach_stream id (some eof) s >>= tell sent id (stream_close reason_code)

unfoldable pub error_stream :
    Bool → ℕ → List ℕ → List ℕ → Bool → Fault → Session → Result SessionError Session
unfolding detach_stream tell
error_stream sent id code message retryable fault s =
    detach_stream id (some fault) s
    >>= tell sent id (stream_error code (take 256 message) retryable)

-- `halfCloseStream`
unfoldable pub half_close_stream : Bool → ℕ → Session → Result SessionError Session
unfolding send_control
half_close_stream sent id s =
    if not s.supports_half_close
    then err no_half_close
    else if sent
    then ok (send_control sent id half_close_message s)
    else err not_sent

abbrev failed : Option Fault → ℕ × Entry → ℕ × Entry
failed fault (id, entry) =
    (id, record { stream = finish entry.stream fault; window = close_window entry.window fault })

-- `failAll`: the streams are finished, and keep what their readers have still to read.
unfoldable pub fail_all : Option Fault → Session → Session
fail_all fault s = record s { streams = []; detached = map (failed fault) s.streams ++ s.detached }
