-- ===== src/Writer/Examples.antt =====
-- internal/gateway/session.go: one run of the writer.
use hooshi_xagent.Frame.{kind_control, kind_data}
use hooshi_xagent.Frame.Sequence.{accept_all}
use hooshi_xagent.Writer.{Request, Writer, Event, Arm, new_writer, run}
use hooshi_xagent.Writer.Sequences.{sequences, IsEncoded, run-accepted}
use hooshi_xagent.Writer.Answers.{IsKept, data_answered, held, on_wire, told_sent}
use hooshi_xagent.Writer.Order.{accepted, run_order}
use hooshi_xagent.Base.{List, [], ◌∷◌, ◌++◌, false, ok, ◌≡◌, length, All, arith, ◌+◌}

abbrev ping : Request
ping = record { caller = 1; kind = kind_control; stream_id = 0; payload = 7 ∷ [] }

abbrev chunk : Request
chunk = record { caller = 2; kind = kind_data; stream_id = 3; payload = 1 ∷ 2 ∷ [] }

abbrev next_turn : Event
next_turn = Event.turned Arm.data_arm false false

-- The chunk is held, a ping comes in, the chunk goes out first, then the ping.
abbrev events : List Event
events =
    Event.submitted chunk
    ∷ next_turn
    ∷ next_turn
    ∷ next_turn
    ∷ Event.submitted ping
    ∷ next_turn
    ∷ next_turn
    ∷ next_turn
    ∷ next_turn
    ∷ []

abbrev after : Writer
after = run events (new_writer 1)

run-accepted_example :
    (accept_all 1 (sequences after.wire) ≡ ok (1 + length after.wire)) × All IsEncoded after.wire
run-accepted_example = run-accepted 1 events (omega arith)

run_order_example :
    (data_answered after.answers ++ (held after.pending_data ++ after.data_writes)
      ≡ accepted events (new_writer 1))
    × (on_wire after.wire ≡ told_sent after.answers)
    × All IsKept after.answers
run_order_example = run_order 1 events
