-- ===== src/Session/Kept.antt =====
-- internal/gateway/session.go: what every handler of a frame, and every close, keeps of a session's
-- streams, once a detach of that stream and a change of it keep it.
use hooshi_xagent.Base.{
  List, ℕ, Bool, true, false, Option, some, none, Result, ok, err, ◌≡◌, length, OnOk, OnOk->>=,
  refl, ◌==◌, ◌∷◌, not, ◌&&◌, if_cases, ltb, codes, [], bytes_eq,
}
use hooshi_xagent.Budget.{Panic}
use hooshi_xagent.Frame.{max_udp_datagram}
use hooshi_xagent.Session.Handle.{
  pong_matched, Incoming, half_close_found, credit_added, add_to_window, credit_found,
  handle_control, enqueued, data_found, handle_data, refuse,
}
use hooshi_xagent.Session.Map.{find, put, remove}
use hooshi_xagent.Session.{
  Entry, Session, Outgoing, send_control, settle, detach_found, detach_stream, finish_stream, tell,
  close_stream, error_stream,
}
use hooshi_xagent.Stream.{Stream, Pools, Fault, EnqueueError, detach}
use hooshi_xagent.Window.{Window, WindowError}

-- A property of the streams, of those detached, and of the counter; one stream; and the two changes.
module _ (P : List (ℕ × Entry) → List (ℕ × Entry) → ℕ → Type 0) (id : ℕ)
    (on_detach : (entry left : Entry) (streams detached : List (ℕ × Entry)) (next_id : ℕ)
      → find id streams ≡ some entry
      → P streams detached next_id
      → P (remove id streams) ((id, left) ∷ detached) next_id)
    (on_put : (entry : Entry) (streams detached : List (ℕ × Entry)) (next_id : ℕ)
      → P streams detached next_id
      → P (put id entry streams) detached next_id) where
  abbrev Kept : Session → Type 0
  Kept s = P s.streams s.detached s.next_id

  settle-Kept :
      (entry : Entry) (fault : Option Fault) (s : Session) (r : Result Panic (Stream × Pools))
      → find id s.streams ≡ some entry
      → Kept s
      → OnOk (Kept) (settle id entry fault s r)
  unfolding settle
  settle-Kept entry fault s (err panic) e h = tt
  settle-Kept entry fault s (ok (stream, pools)) e h =
      on_detach entry _ s.streams s.detached s.next_id e h

  detach_found-Kept :
      (found : Option Entry) (fault : Option Fault) (s : Session)
      → find id s.streams ≡ found
      → Kept s
      → OnOk (λ r. Kept r.0) (detach_found id found fault s)
  unfolding detach_found
  detach_found-Kept none fault s e h = h
  detach_found-Kept (some entry) fault s e h =
      OnOk->>= (Kept) (λ r. Kept r.0) (settle id entry fault s (detach entry.stream s.pools fault))
        (λ s'. ok (s', true)) (settle-Kept entry fault s (detach entry.stream s.pools fault) e h)
        (λ s' h'. h')

  detach_stream-Kept :
      (fault : Option Fault) (s : Session)
      → Kept s
      → OnOk (λ r. Kept r.0) (detach_stream id fault s)
  unfolding detach_stream
  detach_stream-Kept fault s h = detach_found-Kept (find id s.streams) fault s refl h

  pub finish_stream-Kept :
      (fault : Option Fault) (s : Session) → Kept s → OnOk (Kept) (finish_stream id fault s)
  unfolding finish_stream
  finish_stream-Kept fault s h =
      OnOk->>= (λ r. Kept r.0) (Kept) (detach_stream id fault s) (λ r. ok r.0)
        (detach_stream-Kept fault s h) (λ r h'. h')

  pub send_control-Kept :
      (sent : Bool) (to : ℕ) (message : Outgoing) (s : Session)
      → Kept s
      → Kept (send_control sent to message s)
  unfolding send_control
  send_control-Kept true to message s h = h
  send_control-Kept false to message s h = h

  tell-Kept :
      (sent : Bool) (message : Outgoing) (r : Session × Bool)
      → Kept r.0
      → OnOk (Kept) (tell sent id message r)
  unfolding tell
  tell-Kept sent message (s, true) h = send_control-Kept sent id message s h
  tell-Kept sent message (s, false) h = h

  pub close_stream-Kept :
      (sent : Bool) (reason_code : List ℕ) (s : Session)
      → Kept s
      → OnOk (Kept) (close_stream sent id reason_code s)
  unfolding close_stream
  close_stream-Kept sent reason_code s h =
      OnOk->>= (λ r. Kept r.0) (Kept) (detach_stream id (some Fault.eof) s)
        (tell sent id (Outgoing.stream_close reason_code)) (detach_stream-Kept (some Fault.eof) s h)
        (tell-Kept sent (Outgoing.stream_close reason_code))

  pub refuse-Kept :
      (sent : Bool) (code message : List ℕ) (retryable : Bool) (s : Session)
      → Kept s
      → OnOk (Kept) (refuse sent id code message retryable s)
  unfolding refuse error_stream
  refuse-Kept sent code message retryable s h =
      OnOk->>= (λ r. Kept r.0) (Kept) (detach_stream id (some (Fault.failure 1)) s) (tell sent id _)
        (detach_stream-Kept (some (Fault.failure 1)) s h) (tell-Kept sent _)

  credit_added-Kept :
      (sent : Bool) (entry : Entry) (r : Result WindowError Window) (s : Session)
      → Kept s
      → OnOk (Kept) (credit_added sent id entry r s)
  unfolding credit_added
  credit_added-Kept sent entry (err fault) s h =
      refuse-Kept sent (codes "protocol_error") (codes "invalid stream credit") false s h
  credit_added-Kept sent entry (ok window) s h = on_put _ s.streams s.detached s.next_id h

  add_to_window-Kept :
      (sent : Bool) (bytes : ℕ) (entry : Entry) (window : Option Window) (s : Session)
      → Kept s
      → OnOk (Kept) (add_to_window sent id bytes entry window s)
  unfolding add_to_window
  add_to_window-Kept sent bytes entry none s h = h
  add_to_window-Kept sent bytes entry (some window) s h = credit_added-Kept sent entry _ s h

  credit_found-Kept :
      (sent : Bool) (bytes : ℕ) (found : Option Entry) (s : Session)
      → Kept s
      → OnOk (Kept) (credit_found sent id bytes found s)
  unfolding credit_found
  credit_found-Kept sent bytes none s h = h
  credit_found-Kept sent bytes (some entry) s h =
      add_to_window-Kept sent bytes entry entry.window s h

  half_close_found-Kept :
      (found : Option Entry) (s : Session) → Kept s → Kept (half_close_found id found s)
  unfolding half_close_found
  half_close_found-Kept none s h = h
  half_close_found-Kept (some entry) s h = on_put _ s.streams s.detached s.next_id h

  pong_matched-Kept :
      (pending : Option (List ℕ × ℕ)) (ping_id : List ℕ) (now : ℕ) (s : Session)
      → Kept s
      → Kept (pong_matched pending ping_id now s)
  unfolding pong_matched
  pong_matched-Kept none ping_id now s h = h
  pong_matched-Kept (some (armed, sent_at)) ping_id now s h =
      if_cases Kept (not (bytes_eq armed []) && bytes_eq ping_id armed) (λ e. h) (λ e. h)

  pub handle_control-Kept :
      (sent : Bool) (message : Incoming) (s : Session)
      → Kept s
      → OnOk (Kept) (handle_control sent id message s)
  unfolding handle_control
  handle_control-Kept sent (Incoming.pong_received ping_id now) s h =
      pong_matched-Kept s.pending_ping ping_id now s h
  handle_control-Kept sent (Incoming.health_report now) s h = h
  handle_control-Kept true Incoming.ping s h = send_control-Kept true 0 Outgoing.pong s h
  handle_control-Kept false Incoming.ping s h = tt
  handle_control-Kept sent Incoming.stream_closed s h = finish_stream-Kept (some Fault.eof) s h
  handle_control-Kept sent Incoming.half_closed s h = half_close_found-Kept (find id s.streams) s h
  handle_control-Kept sent (Incoming.stream_failed code) s h =
      finish_stream-Kept (some (Fault.failure code)) s h
  handle_control-Kept sent Incoming.revoked s h = tt
  handle_control-Kept sent (Incoming.credit bytes) s h =
      if_cases (OnOk (Kept)) s.flow_controlled
        (λ e. credit_found-Kept sent bytes (find id s.streams) s h) (λ e. tt)
  handle_control-Kept sent Incoming.other_message s h = tt

  enqueued-Kept :
      (sent : Bool) (entry : Entry) (size : ℕ) (s : Session)
      (r : Result Panic (Stream × Pools × Option EnqueueError))
      → Kept s
      → OnOk (Kept) (enqueued sent id entry size s r)
  unfolding enqueued
  enqueued-Kept sent entry size s (err panic) h = tt
  enqueued-Kept sent entry size s (ok (stream, pools, none)) h =
      on_put _ s.streams s.detached s.next_id h
  enqueued-Kept sent entry size s (ok (stream, pools, some fault)) h =
      refuse-Kept sent (codes "resource_limit") (codes "stream response queue exhausted") true _
        (on_put _ s.streams s.detached s.next_id h)

  data_found-Kept :
      (sent : Bool) (payload : List ℕ) (found : Option Entry) (s : Session)
      → Kept s
      → OnOk (Kept) (data_found sent id payload found s)
  unfolding data_found
  data_found-Kept sent payload none s h =
      if_cases (OnOk (Kept)) (not (id == 0) && ltb id s.next_id) (λ e. h) (λ e. tt)
  data_found-Kept sent payload (some entry) s h =
      if_cases (OnOk (Kept)) (entry.stream.datagram && ltb max_udp_datagram (length payload))
        (λ e.
          refuse-Kept sent (codes "resource_limit") (codes "UDP datagram exceeds tunnel limit")
            false s h)
        (λ e. enqueued-Kept sent entry (length payload) s _ h)

  pub handle_data-Kept :
      (sent : Bool) (payload : List ℕ) (s : Session)
      → Kept s
      → OnOk (Kept) (handle_data sent id payload s)
  unfolding handle_data
  handle_data-Kept sent payload s h = data_found-Kept sent payload (find id s.streams) s h
