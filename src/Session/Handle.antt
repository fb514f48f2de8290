-- ===== src/Session/Handle.antt =====
-- internal/gateway/session.go: `handleControl` and `handleData`, what frames of the Agent do.
use hooshi_xagent.Session.{
  Entry, Session, SessionError, send_control, finish_stream, error_stream, panicked, unknown_stream,
  revocation_from_agent, not_flow_controlled, unexpected_message, not_sent, pong,
}
use hooshi_xagent.Session.Map.{put, find}
use hooshi_xagent.Stream.{Stream, Pools, EnqueueError, eof, failure, enqueue, half_close}
use hooshi_xagent.Window.{Window, WindowError, add}
use hooshi_xagent.Budget.{Panic}
use hooshi_xagent.Frame.{max_udp_datagram}
use hooshi_xagent.Base.{
  List, ℕ, Bool, true, false, not, ◌&&◌, Option, some, none, Result, ok, err, if◌then◌else◌, ltb,
  ◌==◌, length, ◌+◌, ◌%◌, ◌^◌, pos, codes, [], bytes_eq, ◌-◌,
}

-- What a control message of the Agent asks for, once it has been validated and decoded.
pub data Incoming : Type 0 where
  stream_closed half_closed revoked other_message : Incoming
  pong_received : List ℕ → ℕ → Incoming  -- with the time it is
  health_report : ℕ → Incoming
  ping : Incoming
  stream_failed : ℕ → Incoming
  credit : ℕ → Incoming

unfoldable pub half_close_found : ℕ → Option Entry → Session → Session
unfolding put
half_close_found id none s = s
half_close_found id (some entry) s = record s {
  streams = put id (record entry { stream = half_close entry.stream }) s.streams;
}

-- "protocol_error", "resource_limit" and the messages that go with them
unfoldable pub refuse : Bool → ℕ → List ℕ → List ℕ → Bool → Session → Result SessionError Session
unfolding error_stream
refuse sent id code message retryable s = error_stream sent id code message retryable (failure 1) s

-- `window.Add`, and what follows when it refuses the credit.
unfoldable pub credit_added :
    Bool → ℕ → Entry → Result WindowError Window → Session → Result SessionError Session
unfolding put refuse
credit_added sent id entry (err fault) s =
    refuse sent id (codes "protocol_error") (codes "invalid stream credit") false s
credit_added sent id entry (ok window) s =
    ok (record s { streams = put id (record entry { window = some window }) s.streams })

unfoldable pub add_to_window :
    Bool → ℕ → ℕ → Entry → Option Window → Session → Result SessionError Session
unfolding credit_added
add_to_window sent id bytes entry none s = ok s
add_to_window sent id bytes entry (some window) s =
    credit_added sent id entry (add window (pos bytes)) s

unfoldable pub credit_found : Bool → ℕ → ℕ → Option Entry → Session → Result SessionError Session
unfolding add_to_window
credit_found sent id bytes none s = ok s
credit_found sent id bytes (some entry) s = add_to_window sent id bytes entry entry.window s

-- Only the pong of the ping that is pending is an observation.
unfoldable pub pong_matched : Option (List ℕ × ℕ) → List ℕ → ℕ → Session → Session
pong_matched none ping_id now s = s
pong_matched (some (armed, sent_at)) ping_id now s =
    if not (bytes_eq armed []) && bytes_eq ping_id armed
    then record s { ping_latency = now - sent_at; pending_ping = none }
    else s

-- `handleControl`, after the payload was validated; `sent` is whether an answer can be sent.
unfoldable pub handle_control : Bool → ℕ → Incoming → Session → Result SessionError Session
unfolding finish_stream half_close_found credit_found send_control pong_matched
handle_control sent id (pong_received ping_id now) s =
    ok (pong_matched s.pending_ping ping_id now s)
handle_control sent id (health_report now) s =
    ok (record s { last_seen = now; health_reports = (s.health_reports + 1) % 2 ^ 64 })
handle_control sent id ping s = if sent then ok (send_control sent 0 pong s) else err not_sent
handle_control sent id stream_closed s = finish_stream id (some eof) s
handle_control sent id half_closed s = ok (half_close_found id (find id s.streams) s)
handle_control sent id (stream_failed code) s = finish_stream id (some (failure code)) s
handle_control sent id revoked s = err revocation_from_agent
handle_control sent id (credit bytes) s =
    if s.flow_controlled
    then credit_found sent id bytes (find id s.streams) s
    else err not_flow_controlled
handle_control sent id other_message s = err unexpected_message

-- What `enqueue` leaves, and the end of `handleData`.
unfoldable pub enqueued :
    Bool
    → ℕ
    → Entry
    → ℕ
    → Session
    → Result Panic (Stream × Pools × Option EnqueueError)
    → Result SessionError Session
unfolding put refuse
enqueued sent id entry size s (err panic) = err (panicked panic)
enqueued sent id entry size s (ok (stream, pools, none)) = ok (record s {
  streams = put id (record entry { stream = stream }) s.streams;
  pools = pools;
  agent_bytes = (s.agent_bytes + size) % 2 ^ 64;
})
enqueued sent id entry size s (ok (stream, pools, some fault)) =
    refuse sent id (codes "resource_limit") (codes "stream response queue exhausted") true
      (record s { streams = put id (record entry { stream = stream }) s.streams; pools = pools })

unfoldable pub data_found : Bool → ℕ → List ℕ → Option Entry → Session → Result SessionError Session
unfolding refuse enqueued
data_found sent id payload none s =
    if not (id == 0) && ltb id s.next_id then ok s else err unknown_stream
data_found sent id payload (some entry) s =
    if entry.stream.datagram && ltb max_udp_datagram (length payload)
    then refuse sent id (codes "resource_limit") (codes "UDP datagram exceeds tunnel limit") false s
    else enqueued sent id entry (length payload) s (enqueue entry.stream s.pools payload)

unfoldable pub handle_data : Bool → ℕ → List ℕ → Session → Result SessionError Session
unfolding data_found
handle_data sent id payload s = data_found sent id payload (find id s.streams) s
