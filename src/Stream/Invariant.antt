-- ===== src/Stream/Invariant.antt =====
-- internal/gateway/session.go: what holds of a stream between two calls, and how its queue is charged.
use hooshi_xagent.Budget.Laws.{release_exact}
use hooshi_xagent.Budget.{new_byte_budget}
use hooshi_xagent.Base.{
  All, Bool, List, [], arith, false, length, length-append, ok, refl, true, ℕ, ◌++◌, ◌+◌, ◌-◌, ◌∷◌,
  ◌≡◌, ◌≤◌, ◌∙◌,
}
use hooshi_xagent.Stream.{Payload, Stream, Pools, release_queued, new_stream, flat, total}
use mathlib.Core.List.{append_assoc}

abbrev pub IsSized : Payload → Type 0
IsSized payload = payload.size ≡ length payload.bytes

-- The bytes that the stream has reserved in each of the three budgets.
abbrev pub held : Stream → ℕ
held s = total s.incoming + s.terminal_bytes

-- The bytes that the reader has still to be given, in order.
abbrev pub pending : Stream → List ℕ
pending s = s.buffer ++ (flat s.incoming ++ s.terminal_buffer)

pub record IsWellFormed (s : Stream) : Type 0 where
  pub sized : All IsSized s.incoming
  pub sized_packets : All IsSized s.terminal_packets
  pub charged : s.stream_budget.used ≡ held s
  pub bounded : s.stream_budget.used ≤ s.stream_budget.limit
  pub tail : s.terminal_bytes ≡ length s.terminal_buffer + total s.terminal_packets
  pub fits : length s.incoming ≤ s.slots
  pub ended : s.terminal_ready ≡ s.closed
  pub once : s.finish_once ≡ s.closed
  pub drained : s.closed ≡ true → s.incoming ≡ []
  pub no_tail : s.closed ≡ false → (s.terminal_buffer ≡ []) × (s.terminal_packets ≡ [])
  pub byte_mode : s.datagram ≡ false → s.terminal_packets ≡ []
  pub packet_mode : s.datagram ≡ true → (s.terminal_buffer ≡ []) × (s.buffer ≡ [])

-- The shared budgets account for at least what this stream holds.
abbrev pub Covers : Pools → Stream → Type 0
Covers p s = (held s ≤ p.session_budget.used) × (held s ≤ p.global_budget.used)

-- The stream and the shared budgets with `size` bytes given back.
abbrev pub paid : Stream → ℕ → Stream
paid s size = record s {
  stream_budget = record (s.stream_budget) { used = s.stream_budget.used - size };
}

abbrev pub repaid : Pools → ℕ → Pools
repaid p size = record p {
  session_budget = record (p.session_budget) { used = p.session_budget.used - size };
  global_budget = record (p.global_budget) { used = p.global_budget.used - size };
}

pub release_queued_exact :
    (s : Stream) (p : Pools) (size : ℕ)
    → size ≤ s.stream_budget.used
    → size ≤ p.session_budget.used
    → size ≤ p.global_budget.used
    → release_queued s p size ≡ ok (paid s size, repaid p size)
unfolding release_queued
release_queued_exact s p size a b c = rw (
  release_exact p.global_budget size c,
  release_exact p.session_budget size b,
  release_exact s.stream_budget size a,
)

-- A new stream is well formed.
pub new_stream-IsWellFormed :
    (datagram grants_credit : Bool) (frames bytes : ℕ)
    → IsWellFormed (new_stream datagram grants_credit frames bytes)
unfolding new_stream new_byte_budget total
new_stream-IsWellFormed datagram grants_credit frames bytes = ground arith

pub flat-append : (xs ys : List Payload) → flat (xs ++ ys) ≡ flat xs ++ flat ys
unfolding flat
flat-append [] ys = refl
flat-append (x ∷ xs) ys = simp (flat-append xs ys, append_assoc)

pub total-append : (xs ys : List Payload) → total (xs ++ ys) ≡ total xs + total ys
unfolding total
total-append [] ys = omega arith
total-append (x ∷ xs) ys = omega (arith, total-append xs ys)

-- The sizes that are charged are the bytes that are queued.
pub length-flat : (xs : List Payload) → All IsSized xs → length (flat xs) ≡ total xs
unfolding flat total
length-flat [] h = refl
length-flat (x ∷ xs) h = omega (arith, length-append x.bytes (flat xs), length-flat xs h.1, h.0)

-- From `s` to `t` the stream gives reservations back only, keeps its mode, and both shared budgets
-- get back exactly what it gives: the books balance.
abbrev pub Balanced : Stream → Pools → Stream → Pools → Type 0
Balanced s p t q =
    (p.session_budget.used + held t ≡ q.session_budget.used + held s)
    × (p.global_budget.used + held t ≡ q.global_budget.used + held s)
    × (q.session_budget.limit ≡ p.session_budget.limit)
    × (q.global_budget.limit ≡ p.global_budget.limit)
    × (held t ≤ held s)
    × (t.datagram ≡ s.datagram)

pub Balanced-refl : (s : Stream) (p : Pools) → Balanced s p s p
Balanced-refl s p = (refl, refl, refl, refl, omega arith, refl)

pub Balanced-Covers :
    (s : Stream) (p : Pools) (t : Stream) (q : Pools) → Balanced s p t q → Covers p s → Covers q t
Balanced-Covers s p t q b c = omega arith

pub Balanced-trans :
    (s : Stream) (p : Pools) (t : Stream) (q : Pools) (u : Stream) (r : Pools)
    → Balanced s p t q
    → Balanced t q u r
    → Balanced s p u r
Balanced-trans s p t q u r (a, b, c, d, e, f) (a', b', c', d', e', f') =
    (omega arith, omega arith, c' ∙ c, d' ∙ d, omega arith, f' ∙ f)
