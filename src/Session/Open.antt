-- ===== src/Session/Open.antt =====
-- internal/gateway/session.go: `openStreamTarget`.
use hooshi_xagent.Session.{
  Entry, Session, SessionError, Limits, send_control, finish_stream, no_request_id, stream_limit,
  id_exhausted, stream_open, window_update,
}
use hooshi_xagent.Stream.{failure, new_stream}
use hooshi_xagent.Window.{Window, new_window, add, initial_credit, max_window_credit_bytes}
use hooshi_xagent.Base.{
  ◌∷◌, ℕ, Bool, true, false, not, ◌&&◌, Option, some, none, Result, ok, err, ◌>>=◌, if◌then◌else◌,
  leb, ◌==◌, length, ◌+◌, ◌%◌, ◌^◌, pos,
}

-- The window of a new stream: its limit is the largest grant and the allowance for headers, which is
-- granted at once.
unfoldable pub opening_window : Bool → Option Window
opening_window false = none
opening_window true =
    let empty = new_window (pos (max_window_credit_bytes + 65536)) in
    elim (add empty (pos 65536)) [ ok window ↦ some window | err fault ↦ some empty ]

-- The stream that `openStreamTarget` puts into the map.
unfoldable pub new_entry : Limits → Bool → Bool → Entry
unfolding opening_window
new_entry limits datagram flow_controlled =
    let windowed = flow_controlled && not datagram in
    record {
      stream =
          new_stream datagram windowed limits.max_stream_queue_frames limits.max_stream_queue_bytes;
      window = opening_window windowed;
    }

unfoldable pub reserve_id : Limits → Bool → Session → Session
unfolding new_entry
reserve_id limits datagram s = record s {
  next_id = (s.next_id + 1) % 2 ^ 32;
  streams = (s.next_id, new_entry limits datagram s.flow_controlled) ∷ s.streams;
}

-- A message of the opening that could not be sent finishes the stream.
unfoldable pub abandon : ℕ → Session → Result SessionError (Session × Option ℕ)
unfolding finish_stream
abandon id s = finish_stream id (some (failure 2)) s >>= λ s'. ok (s', none)

-- After the map was changed: the message that opens the stream, and its first credit.
unfoldable pub announce :
    Limits → Bool → Bool → Bool → ℕ → Session → Result SessionError (Session × Option ℕ)
unfolding abandon send_control
announce limits opened granted windowed id s =
    if not opened
    then abandon id s
    else if not windowed
    then ok (send_control opened id stream_open s, some id)
    else if not granted
    then abandon id (send_control opened id stream_open s)
    else ok (
      send_control granted id (window_update (initial_credit (pos limits.max_stream_queue_bytes)))
          (send_control opened id stream_open s),
      some id,
    )

-- `openStreamTarget`, with the stream's identifier or none for the error of a message; `requested`
-- is whether a request identifier could be made, `opened` and `granted` whether the two messages
-- could be sent.
unfoldable pub open_stream :
    Limits → Bool → Bool → Bool → Bool → Session → Result SessionError (Session × Option ℕ)
unfolding reserve_id announce
open_stream limits requested opened granted datagram s =
    if not requested
    then err no_request_id
    else if leb limits.max_streams_per_session (length s.streams)
    then err stream_limit
    else if s.next_id == 0
    then err id_exhausted
    else announce limits opened granted (s.flow_controlled && not datagram) s.next_id
        (reserve_id limits datagram s)
