-- ===== src/Stream/Enqueue.antt =====
-- internal/gateway/session.go: `enqueue` accepts a payload whole and charges it three times, or
-- changes nothing but the counters of rejections.
use hooshi_xagent.Budget.Laws.{charge, release-charge, try_acquire_cases}
use hooshi_xagent.Budget.{note_reject, ByteBudget, Panic}
use hooshi_xagent.Base.{
  List, Option, Result, [], arith, err, false, length, none, ok, some, ℕ, ◌++◌, ◌+◌, ◌<◌, ◌∷◌, ◌≡◌,
  ◌≤◌, inl, inr, if_cases,
}
use hooshi_xagent.Stream.{
  Stream, Pools, EnqueueError, offer, release_queued, count_reject, Payload, reserve_global,
  reserve_session, enqueue,
}

-- The same budget, but for its count of rejections.
abbrev pub SameUse : ByteBudget → ByteBudget → Type 0
SameUse b c = (c.used ≡ b.used) × (c.limit ≡ b.limit)

-- The same stream, but for that count.
abbrev pub SameQueue : Stream → Stream → Type 0
SameQueue s t =
    (t ≡ record s { stream_budget = t.stream_budget }) × SameUse s.stream_budget t.stream_budget

abbrev pub SamePools : Pools → Pools → Type 0
SamePools p q = SameUse p.session_budget q.session_budget × SameUse p.global_budget q.global_budget

abbrev pub accepted : Stream → List ℕ → Stream
accepted s bytes = record s {
  incoming = s.incoming ++ (record { bytes = bytes; size = length bytes } ∷ []);
  stream_budget = charge s.stream_budget (length bytes);
}

abbrev pub charged_pools : Pools → ℕ → Pools
charged_pools p size = record p {
  session_budget = charge p.session_budget size;
  global_budget = charge p.global_budget size;
}

-- What a call of `enqueue` comes to.
abbrev pub Enqueues :
    Stream → Pools → List ℕ → Result Panic (Stream × Pools × Option EnqueueError) → Type 0
Enqueues s p bytes (err e) = ⊥
Enqueues s p bytes (ok (t, q, none)) =
    (s.closed ≡ false)
    × (length s.incoming < s.slots)
    × (s.stream_budget.used + length bytes ≤ s.stream_budget.limit)
    × (p.session_budget.used + length bytes ≤ p.session_budget.limit)
    × (p.global_budget.used + length bytes ≤ p.global_budget.limit)
    × (t ≡ accepted s bytes)
    × (q ≡ charged_pools p (length bytes))
Enqueues s p bytes (ok (t, q, some e)) = SameQueue s t × SamePools p q

IsWithin : ByteBudget → Type 0
IsWithin b = b.used ≤ b.limit

offer_lem :
    (s : Stream) (p : Pools) (bytes : List ℕ)
    → s.closed ≡ false
    → s.stream_budget.used + length bytes ≤ s.stream_budget.limit
    → p.session_budget.used + length bytes ≤ p.session_budget.limit
    → p.global_budget.used + length bytes ≤ p.global_budget.limit
    → Enqueues s p bytes (
        offer
          (record s { stream_budget = charge s.stream_budget (length bytes) })
          (charged_pools p (length bytes))
          (record { bytes = bytes; size = length bytes }))
unfolding offer release_queued count_reject
offer_lem s p bytes o a b c =
    rw
      (
        release-charge p.global_budget (length bytes),
        release-charge p.session_budget (length bytes),
        release-charge s.stream_budget (length bytes),
      )
      (ground arith)

abbrev payload_of : List ℕ → Payload
payload_of bytes = record { bytes = bytes; size = length bytes }

reserve_global_lem :
    (s : Stream) (p : Pools) (bytes : List ℕ)
    → s.closed ≡ false
    → s.stream_budget.used + length bytes ≤ s.stream_budget.limit
    → p.session_budget.used + length bytes ≤ p.session_budget.limit
    → p.global_budget.used ≤ p.global_budget.limit
    → Enqueues s p bytes (
        reserve_global
          (record s { stream_budget = charge s.stream_budget (length bytes) })
          (record p { session_budget = charge p.session_budget (length bytes) })
          (payload_of bytes))
unfolding reserve_global count_reject note_reject
reserve_global_lem s p bytes o a b c = elim (try_acquire_cases p.global_budget (length bytes) c) [
  | inl (e, f) ↦ rw e (offer_lem s p bytes o a b f)
  | inr e ↦
      rw
        (
          e,
          release-charge p.session_budget (length bytes),
          release-charge s.stream_budget (length bytes),
        )
        (ground arith)
]

reserve_session_lem :
    (s : Stream) (p : Pools) (bytes : List ℕ)
    → s.closed ≡ false
    → s.stream_budget.used + length bytes ≤ s.stream_budget.limit
    → p.session_budget.used ≤ p.session_budget.limit
    → p.global_budget.used ≤ p.global_budget.limit
    → Enqueues s p bytes (
        reserve_session
          (record s { stream_budget = charge s.stream_budget (length bytes) })
          p
          (payload_of bytes))
unfolding reserve_session count_reject note_reject
reserve_session_lem s p bytes o a b c = elim (try_acquire_cases p.session_budget (length bytes) b) [
  | inl (e, f) ↦ rw e (reserve_global_lem s p bytes o a f c)
  | inr e ↦ rw (e, release-charge s.stream_budget (length bytes)) (ground arith)
]

-- On budgets that are within their limits `enqueue` does not panic.
-- It returns no error only for an open stream with a free slot, where the payload fits all three
-- budgets; then the payload is the last in the queue and its length is charged to each budget.
-- With an error the queue and what the budgets have in use are as before.
pub enqueue_lem :
    (s : Stream) (p : Pools) (bytes : List ℕ)
    → s.stream_budget.used ≤ s.stream_budget.limit
    → p.session_budget.used ≤ p.session_budget.limit
    → p.global_budget.used ≤ p.global_budget.limit
    → Enqueues s p bytes (enqueue s p bytes)
unfolding enqueue count_reject note_reject
enqueue_lem s p bytes a b c =
    if_cases (Enqueues s p bytes) s.closed (λ closed. ground arith)
      (λ o. elim (try_acquire_cases s.stream_budget (length bytes) a) [
        | inl (e, f) ↦ rw e (reserve_session_lem s p bytes o f b c)
        | inr e ↦ rw e (ground arith)
      ])
