-- ===== src/Stream/Finish.antt =====
-- internal/gateway/session.go: `finish`, `releaseQueuedChunks` and `discardRetained`.
use hooshi_xagent.Stream.{
  finish, Stream, Payload, Fault, total, flat, retain, Pools, release_chunks, discard_retained,
  release_queued_chunks, detach,
}
use hooshi_xagent.Stream.Invariant.{
  IsWellFormed, IsSized, held, pending, total-append, length-flat, paid, repaid,
  release_queued_exact, Covers,
}
use hooshi_xagent.Base.{
  All-append, Bool, List, Option, [], ap, arith, false, if_cases, length, refl, sym, true, ℕ, ◌++◌,
  ◌∙◌, ◌≡◌, ltb, ok, ◌+◌, ◌∷◌, ◌≤◌,
}
use mathlib.Core.Bool.{true≢false}
use mathlib.Core.List.{append-nil}
use mathlib.Core.Path.{ap₂}

-- The packets that a datagram reader has still to be given, in order.
abbrev pub packets : Stream → List Payload
packets s = s.incoming ++ s.terminal_packets

total_nil : total [] ≡ 0
unfolding total
total_nil = refl

flat_nil : flat [] ≡ []
unfolding flat
flat_nil = refl

-- Closing keeps everything that is queued.
abbrev pub Finishes : Stream → Option Fault → Stream → Type 0
Finishes s fault t =
    IsWellFormed t
    × (held t ≡ held s)
    × (t.closed ≡ true)
    × (s.datagram ≡ false → pending t ≡ pending s)
    × (s.datagram ≡ true → packets t ≡ packets s)
    × (s.closed ≡ false → t.terminal_err ≡ fault)
    × (s.closed ≡ true → t ≡ s)

retain_lem :
    (datagram : Bool) (s : Stream) (fault : Option Fault)
    → s.datagram ≡ datagram
    → s.closed ≡ false
    → IsWellFormed s
    → Finishes s fault (retain datagram s fault)
unfolding retain
retain_lem true s fault d o w = (
  well,
  omega (arith, nothing_total),
  refl,
  (λ e. absurd (true≢false (sym d ∙ e))),
  (λ e. rw (w.no_tail o).1 (sym (append-nil s.incoming))),
  (λ e. refl),
  (λ e. absurd (true≢false (sym e ∙ o))),
)
  where
    nothing_total : total [] ≡ 0
    nothing_total = total_nil

    well : IsWellFormed (retain true s fault)
    well = record {
      sized = tt;
      sized_packets = All-append IsSized s.terminal_packets s.incoming w.sized_packets w.sized;
      charged = omega (arith, w.charged, nothing_total);
      bounded = w.bounded;
      tail =
          omega
            (arith, w.tail, total-append s.terminal_packets s.incoming, ap length (w.no_tail o).0);
      fits = omega arith;
      ended = refl;
      once = refl;
      drained = λ c. refl;
      no_tail = λ c. absurd (true≢false c);
      byte_mode = λ e. absurd (true≢false (sym d ∙ e));
      packet_mode = λ e. (refl, (w.packet_mode e).1);
    }
retain_lem false s fault d o w = (
  well,
  omega (arith, nothing_total, length-flat s.incoming w.sized, tail_nil),
  refl,
  (λ e.
      rw ((w.no_tail o).0, append-nil (flat s.incoming))
        (ap (◌++◌ s.buffer) (no_more (flat s.incoming)))),
  (λ e. absurd (true≢false (sym e ∙ d))),
  (λ e. refl),
  (λ e. absurd (true≢false (sym e ∙ o))),
)
  where
    nothing_total : total [] ≡ 0
    nothing_total = total_nil

    no_more : (xs : List ℕ) → flat [] ++ xs ≡ xs
    no_more xs = rw flat_nil

    tail_nil : s.terminal_bytes ≡ 0
    tail_nil =
        omega (arith, w.tail, ap length (w.no_tail o).0, ap total (w.no_tail o).1, nothing_total)

    well : IsWellFormed (retain false s fault)
    well = record {
      sized = tt;
      sized_packets = w.sized_packets;
      charged = omega (arith, w.charged, nothing_total, length-flat s.incoming w.sized, tail_nil);
      bounded = w.bounded;
      tail = omega (arith, ap total (w.byte_mode d), nothing_total);
      fits = omega arith;
      ended = refl;
      once = refl;
      drained = λ c. refl;
      no_tail = λ c. absurd (true≢false c);
      byte_mode = w.byte_mode;
      packet_mode = λ e. absurd (true≢false (sym e ∙ d));
    }

-- `finish` keeps a stream well formed and its reservation as it is. It closes the stream, and the
-- bytes of a byte stream and the packets of a datagram stream that were pending still are. The
-- first call sets the error that the reader meets at the end, and a later one changes nothing.
pub finish_lem :
    (s : Stream) (fault : Option Fault) → IsWellFormed s → Finishes s fault (finish s fault)
unfolding finish
finish_lem s fault w =
    if_cases (Finishes s fault) s.finish_once
      (λ o.
        let c = sym w.once ∙ o in
        (w, refl, c, (λ d. refl), (λ d. refl), (λ e. absurd (true≢false (sym c ∙ e))), (λ e. refl)))
      (λ o. retain_lem s.datagram s fault refl (sym w.once ∙ o) w)

paid_twice : (s : Stream) (a b : ℕ) → paid (paid s a) b ≡ paid s (a + b)
paid_twice s a b = ground arith

repaid_twice : (p : Pools) (a b : ℕ) → repaid (repaid p a) b ≡ repaid p (a + b)
repaid_twice p a b = ground arith

release_chunks_lem :
    (cs : List Payload) (s : Stream) (p : Pools)
    → total cs ≤ s.stream_budget.used
    → total cs ≤ p.session_budget.used
    → total cs ≤ p.global_budget.used
    → release_chunks cs s p ≡ ok (record (paid s (total cs)) { incoming = [] }, repaid p (total cs))
unfolding release_chunks total
release_chunks_lem [] s p a b c = ground arith
release_chunks_lem (chunk ∷ cs) s p a b c =
    rw (release_queued_exact s p chunk.size (omega arith) (omega arith) (omega arith)) (
      rw
        (release_chunks_lem cs (paid s chunk.size) (repaid p chunk.size) (omega arith) (omega arith)
          (omega arith))
        (ground arith))

-- The stream with nothing queued or retained, and all of it given back.
abbrev pub emptied : Stream → Stream
emptied s = record (paid s (held s)) {
  incoming = [];
  terminal_buffer = [];
  terminal_packets = [];
  terminal_bytes = 0;
}

-- `discardRetained` drops everything that the stream still holds and gives exactly its reservation
-- back to the three budgets; it does not panic.
pub discard_retained_lem :
    (s : Stream) (p : Pools)
    → IsWellFormed s
    → Covers p s
    → discard_retained s p ≡ ok (emptied s, repaid p (held s))
unfolding discard_retained release_queued_chunks
discard_retained_lem s p w c =
    rw (release_chunks_lem s.incoming s p (omega (arith, w.charged)) (omega arith) (omega arith)) (
      if_cases (λ r. r ≡ ok (emptied s, repaid p (held s))) (ltb 0 s.terminal_bytes)
        (λ e.
          release_queued_exact dropped (repaid p (total s.incoming)) s.terminal_bytes
            (omega (arith, w.charged)) (omega (arith, c)) (omega (arith, c))
          ∙ ap₂ (λ (t : Stream) (q : Pools). ok (t, q)) (ground arith)
              (repaid_twice p (total s.incoming) s.terminal_bytes))
        (λ e. ground arith))
  where
    dropped : Stream
    dropped = record (paid s (total s.incoming)) {
      incoming = [];
      terminal_buffer = [];
      terminal_packets = [];
      terminal_bytes = 0;
    }

nothing_queued :
    (s : Stream) (p : Pools) → s.incoming ≡ [] → release_chunks s.incoming s p ≡ ok (s, p)
unfolding release_chunks
nothing_queued s p e = rw e

-- When a session detaches a stream, the stream is finished, and nothing is left to give back: its
-- tail stays for the reader.
pub detach_lem :
    (s : Stream) (p : Pools) (fault : Option Fault)
    → IsWellFormed s
    → detach s p fault ≡ ok (finish s fault, p)
unfolding detach release_queued_chunks
detach_lem s p fault w =
    let f = finish_lem s fault w in nothing_queued (finish s fault) p (f.0.drained f.2)

retain-datagram : (d : Bool) (s : Stream) (f : Option Fault) → (retain d s f).datagram ≡ s.datagram
unfolding retain
retain-datagram true s f = refl
retain-datagram false s f = refl

pub finish-datagram : (s : Stream) (fault : Option Fault) → (finish s fault).datagram ≡ s.datagram
unfolding finish
finish-datagram s fault =
    if_cases (λ (t : Stream). t.datagram ≡ s.datagram) s.finish_once (λ o. refl)
      (λ o. retain-datagram s.datagram s fault)
