-- ===== src/Stream/Examples.antt =====
-- Runs of one stream on concrete input.
use hooshi_xagent.Budget.{new_byte_budget, try_acquire, release}
use hooshi_xagent.Stream.{
  Stream, Pools, new_stream, enqueue, read, read_datagram, finish, reserve_session, reserve_global,
  offer, read_chunks, read_terminal, faulted, total, flat, eof, release_queued, grant_credits,
  copy_out, delivered,
}
use hooshi_xagent.Stream.Invariant.{new_stream-IsWellFormed, IsWellFormed, pending}
use hooshi_xagent.Stream.Enqueue.{Enqueues, enqueue_lem}
use hooshi_xagent.Stream.Read.{Reads, read_lem}
use hooshi_xagent.Stream.Datagram.{ReadsPacket, read_datagram_lem}
use hooshi_xagent.Stream.Delivery.{Life, Event, IsSound, life_conserves, end_means_delivered}
use hooshi_xagent.Base.{List, [], arith, false, none, ok, refl, true, ℕ, ◌++◌, ◌∷◌, ◌≡◌}

abbrev pools : Pools
pools = record {
  session_budget = record { limit = 64; used = 0; rejected = 0 };
  global_budget = record { limit = 256; used = 0; rejected = 0 };
  rejects = 0;
}

fresh : Stream
fresh = new_stream false true 2 16

flow : Stream
flow = new_stream true false 2 16

fresh_well : IsWellFormed fresh
unfolding fresh
fresh_well = new_stream-IsWellFormed false true 2 16

flow_well : IsWellFormed flow
unfolding flow
flow_well = new_stream-IsWellFormed true false 2 16

enqueue_lem_example : Enqueues fresh pools (1 ∷ 2 ∷ 3 ∷ []) (enqueue fresh pools (1 ∷ 2 ∷ 3 ∷ []))
enqueue_lem_example =
    enqueue_lem fresh pools (1 ∷ 2 ∷ 3 ∷ []) fresh_well.bounded (omega arith) (omega arith)

-- The stream and the budgets after one push of three bytes.
abbrev holding : Stream
holding = record fresh {
  incoming = record { bytes = 1 ∷ 2 ∷ 3 ∷ []; size = 3 } ∷ [];
  stream_budget = record { limit = 16; used = 3; rejected = 0 };
}

abbrev holding_pools : Pools
holding_pools = record {
  session_budget = record { limit = 64; used = 3; rejected = 0 };
  global_budget = record { limit = 256; used = 3; rejected = 0 };
  rejects = 0;
}

pushes : enqueue fresh pools (1 ∷ 2 ∷ 3 ∷ []) ≡ ok (holding, holding_pools, none)
unfolding fresh new_stream new_byte_budget enqueue try_acquire reserve_session reserve_global offer
pushes = refl

fresh-IsSound : IsSound fresh pools
unfolding fresh new_stream new_byte_budget total
fresh-IsSound = record {
  well = fresh_well;
  covered = omega arith;
  within = omega arith;
  bytes_mode = refl;
}

life : Life fresh pools holding holding_pools (1 ∷ 2 ∷ 3 ∷ []) []
life = Life.next Life.start (Event.push (1 ∷ 2 ∷ 3 ∷ []) pushes)

life_conserves_example :
    IsSound holding holding_pools × (pending fresh ++ (1 ∷ 2 ∷ 3 ∷ []) ≡ [] ++ pending holding)
life_conserves_example = life_conserves life fresh-IsSound

holding-IsSound : IsSound holding holding_pools
holding-IsSound = (life_conserves life fresh-IsSound).0

read_lem_example : Reads holding holding_pools (read false holding holding_pools 2)
read_lem_example =
    read_lem false holding holding_pools 2 holding-IsSound.well holding-IsSound.covered

read_datagram_lem_example : ReadsPacket flow pools (read_datagram false flow pools)
unfolding flow new_stream total
read_datagram_lem_example = read_datagram_lem false flow pools flow_well (omega arith)

-- The same stream once a reader has taken the three bytes and granted them back as credit, and
-- once it has been closed.
drained : Stream
unfolding fresh new_stream new_byte_budget
drained = record fresh { credits = 3 ∷ [] }

over : Stream
unfolding finish drained
over = finish drained none

takes : read false holding holding_pools 8 ≡ ok (drained, pools, delivered (1 ∷ 2 ∷ 3 ∷ []))
unfolding drained read read_chunks release_queued release grant_credits copy_out
takes = refl

over_life : Life fresh pools over pools (1 ∷ 2 ∷ 3 ∷ []) (1 ∷ 2 ∷ 3 ∷ [])
unfolding over
over_life = Life.next (Life.next life (Event.pull false 8 takes)) (Event.close none)

at_end : read false over pools 8 ≡ ok (over, pools, faulted eof)
unfolding over read read_chunks read_terminal flat
at_end = refl

end_means_delivered_example : ◌≡◌ {A = List ℕ} (1 ∷ 2 ∷ 3 ∷ []) (1 ∷ 2 ∷ 3 ∷ [])
unfolding fresh new_stream flat
end_means_delivered_example = end_means_delivered false 8 fresh-IsSound refl over_life at_end
