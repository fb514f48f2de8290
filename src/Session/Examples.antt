-- ===== src/Session/Examples.antt =====
-- internal/gateway/session.go: a session with two streams.
use hooshi_xagent.Session.{Entry, Session, Limits, close_stream}
use hooshi_xagent.Session.Map.{find, ids, Distinct}
use hooshi_xagent.Session.Handle.{Incoming, handle_control, handle_data}
use hooshi_xagent.Session.Ids.{IsCounted}
use hooshi_xagent.Session.Life.{Call, live, ids-live}
use hooshi_xagent.Session.Isolation.{IsSame, isolation}
use hooshi_xagent.Session.Chunks.{Turn, chunks, send_bytes, joined, Fits, finished, waits}
use hooshi_xagent.Session.Sending.{send_bytes_lem, arrived, short}
use hooshi_xagent.Stream.{Pools, new_stream}
use hooshi_xagent.Window.{Window}
use hooshi_xagent.Window
use hooshi_xagent.Window.Laws.{adds, step}
use hooshi_xagent.Budget.{new_byte_budget}
use hooshi_xagent.Base.{
  List, [], ◌∷◌, ◌++◌, ℕ, true, false, some, none, ◌≡◌, ◌≤◌, ◌+◌, length, All, OnOk, arith, refl,
  pos,
}

abbrev limits : Limits
limits = record {
  max_streams_per_session = 4;
  max_stream_queue_frames = 8;
  max_stream_queue_bytes = 65536;
}

abbrev window : Window
window = record { credit = 5; limit = 100; closed = false; error = none; changed = 0 }

abbrev entry : Entry
entry = record { stream = new_stream false true 8 65536; window = some window }

abbrev pools : Pools
pools = record {
  session_budget = new_byte_budget 65536;
  global_budget = new_byte_budget 65536;
  rejects = 0;
}

abbrev session : Session
session = record {
  streams = (2, entry) ∷ (1, entry) ∷ [];
  detached = [];
  next_id = 3;
  pools = pools;
  flow_controlled = true;
  supports_half_close = true;
  outbox = [];
  agent_bytes = 0;
  health_reports = 0;
  last_seen = 0;
  pending_ping = none;
  ping_latency = 0;
}

session-IsCounted : IsCounted 4 session
session-IsCounted = (
  ((omega arith, omega arith), ((omega arith, omega arith), tt)),
  tt,
  ((λ e. omega (arith, e), tt), (tt, tt)),
  omega arith,
  omega arith,
)

abbrev calls : List Call
calls =
    Call.opens true true true false
    ∷ Call.carries true 3 (7 ∷ 8 ∷ [])
    ∷ Call.controls true 1 Incoming.stream_closed
    ∷ Call.carries true 1 (9 ∷ [])
    ∷ []

ids-live_example :
    (length (live limits calls session).streams ≤ 4)
    × Distinct (ids (live limits calls session).streams)
    × (find (live limits calls session).next_id (live limits calls session).streams ≡ none)
    × (find (live limits calls session).next_id (live limits calls session).detached ≡ none)
ids-live_example = ids-live limits calls session session-IsCounted

isolation_example :
    OnOk (IsSame 2 session) (handle_data true 1 (7 ∷ []) session)
    × OnOk (IsSame 2 session) (handle_control true 1 Incoming.half_closed session)
    × OnOk (IsSame 2 session) (close_stream true 1 [] session)
isolation_example =
    isolation true 1 2 (7 ∷ []) [] Incoming.half_closed session (λ e. omega (arith, e))

abbrev payload : List ℕ
payload = 1 ∷ 2 ∷ 3 ∷ []

-- The first attempt waits for a grant of ten bytes, the second one has it.
abbrev turns : List Turn
turns =
    record { calls = []; writes = true; expires = false }
    ∷ record { calls = adds (pos 10) ∷ []; writes = true; expires = false }
    ∷ []

abbrev low : Window
low = record window { credit = 2 }

waits_then_finishes : (send_bytes payload turns (some low)).2 ≡ finished
unfolding send_bytes step Window.take Window.add
waits_then_finishes = refl

send_bytes_lem_example :
    ((rest : List ℕ) × (payload ≡ joined (send_bytes payload turns (some low)).0 ++ rest)
      × ((send_bytes payload turns (some low)).2 ≡ finished → rest ≡ []))
    × All Fits (send_bytes payload turns (some low)).0
    × ((left : Window) × ((send_bytes payload turns (some low)).1 ≡ some left)
        × (length (joined (send_bytes payload turns (some low)).0) + left.credit
            ≤ 2 + arrived (chunks payload) turns low))
    × ((send_bytes payload turns (some low)).2 ≡ waits
        → 2 ≤ length (send_bytes payload turns (some low)).0 + short (chunks payload) turns low)
send_bytes_lem_example = send_bytes_lem payload turns low (omega arith)
