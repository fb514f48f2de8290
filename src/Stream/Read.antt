-- ===== src/Stream/Read.antt =====
-- internal/gateway/session.go: `Read` hands out the queued bytes in order and pays for them once.
use hooshi_xagent.Stream.{
  delivered, credits_after, faulted, cancelled, blocked, wrong_mode, grant_credits, total, Payload,
  read_chunks, read,
}
use hooshi_xagent.Stream.Invariant.{
  IsWellFormed, Covers, pending, Balanced, Balanced-trans, Balanced-Covers, release_queued_exact,
  paid, repaid, Balanced-refl,
}
use hooshi_xagent.Base.{
  Bool, List, Result, [], ap, arith, drop, err, false, if_cases, ok, refl, sym, take,
  take-append-drop, true, ℕ, ◌++◌, ◌∙◌, ◌∷◌, ◌≡◌, ◌≤◌,
}
use hooshi_xagent.Stream.{
  Stream, read_terminal, ReadOutcome, Pools, is_empty, flat, copy_out, delivered, faulted, fault_of,
}
use hooshi_xagent.Budget.{Panic}
use mathlib.Core.List.{append_assoc, append-nil}
use mathlib.Core.Bool.{true≢false}

-- What one call of `Read` comes to.
abbrev pub Outcome : Stream → Stream → ReadOutcome → Type 0
Outcome s t (delivered bytes) = bytes ++ pending t ≡ pending s
Outcome s t (faulted fault) =
    (pending s ≡ []) × (pending t ≡ []) × (s.closed ≡ true) × (fault ≡ fault_of s.terminal_err)
Outcome s t cancelled = (pending s ≡ []) × (pending t ≡ []) × (s.closed ≡ false)
Outcome s t blocked = (pending s ≡ []) × (pending t ≡ []) × (s.closed ≡ false)
Outcome s t wrong_mode = (t ≡ s) × (s.datagram ≡ true)

abbrev pub Reads : Stream → Pools → Result Panic (Stream × Pools × ReadOutcome) → Type 0
Reads s p (err e) = ⊥
Reads s p (ok (t, q, o)) = IsWellFormed t × Balanced s p t q × Outcome s t o

Outcome-trans :
    (s t u : Stream) (o : ReadOutcome)
    → pending t ≡ pending s
    → t.closed ≡ s.closed
    → t.terminal_err ≡ s.terminal_err
    → t.datagram ≡ false
    → Outcome t u o
    → Outcome s u o
Outcome-trans s t u (delivered bytes) e c f d h = h ∙ e
Outcome-trans s t u (faulted fault) e c f d h = (sym e ∙ h.0, h.1, sym c ∙ h.2, h.3 ∙ ap fault_of f)
Outcome-trans s t u cancelled e c f d h = (sym e ∙ h.0, h.1, sym c ∙ h.2)
Outcome-trans s t u blocked e c f d h = (sym e ∙ h.0, h.1, sym c ∙ h.2)
Outcome-trans s t u wrong_mode e c f d h = absurd (true≢false (sym h.1 ∙ d))

Reads-trans :
    (s : Stream) (p : Pools) (t : Stream) (q : Pools)
    (r : Result Panic (Stream × Pools × ReadOutcome))
    → Balanced s p t q
    → pending t ≡ pending s
    → t.closed ≡ s.closed
    → t.terminal_err ≡ s.terminal_err
    → t.datagram ≡ false
    → Reads t q r
    → Reads s p r
Reads-trans s p t q (err e) b x c f d h = h
Reads-trans s p t q (ok (u, v, o)) b x c f d (w, k, l) =
    (w, Balanced-trans s p t q u v b k, Outcome-trans s t u o x c f d l)

is_empty_nil : (xs : List ℕ) → is_empty xs ≡ true → xs ≡ []
is_empty_nil [] h = refl
is_empty_nil (x ∷ xs) h = ground arith

pending_nil :
    (s : Stream) → s.buffer ≡ [] → s.incoming ≡ [] → s.terminal_buffer ≡ [] → pending s ≡ []
unfolding flat
pending_nil s b i t = rw (b, i, t) refl

rebuffered :
    (u : Stream) (buffer : List ℕ) (credits : List ℕ)
    → IsWellFormed u
    → u.datagram ≡ false
    → IsWellFormed (record u { buffer = buffer; credits = credits })
rebuffered u buffer credits w d = ground arith

copy_out_lem :
    (s : Stream) (p : Pools) (u : Stream) (q : Pools) (room : ℕ)
    → IsWellFormed u
    → u.datagram ≡ false
    → Balanced s p u q
    → pending u ≡ pending s
    → Reads s p (copy_out u q room)
unfolding copy_out
copy_out_lem s p u q room w d b e = (
  rebuffered u (drop room u.buffer) u.credits w d,
  b,
  sym (append_assoc (take room u.buffer) (drop room u.buffer) _)
      ∙ rw (take-append-drop room u.buffer) e,
)

-- The stream once the reader has taken the retained tail over, and once it has a chunk.
abbrev with_tail : Stream → List ℕ → Stream
with_tail s credits =
    record (paid (record s { terminal_buffer = []; terminal_bytes = 0 }) s.terminal_bytes) {
      buffer = s.terminal_buffer;
      credits = credits;
    }

abbrev with_chunk : Stream → Payload → List Payload → List ℕ → Stream
with_chunk s chunk rest credits = record (paid (record s { incoming = rest }) chunk.size) {
  buffer = chunk.bytes;
  credits = credits;
}

tail_moves :
    (s : Stream)
    → s.incoming ≡ []
    → s.buffer ≡ []
    → s.terminal_buffer ++ (flat s.incoming ++ []) ≡ pending s
unfolding flat
tail_moves s i b = rw (i, b) (append-nil s.terminal_buffer)

tail_taken :
    (s : Stream) (credits : List ℕ)
    → IsWellFormed s
    → s.datagram ≡ false
    → IsWellFormed (with_tail s credits)
unfolding total
tail_taken s credits w d = ground (arith, w.byte_mode d)

read_terminal_lem :
    (done : Bool) (s : Stream) (p : Pools) (room : ℕ)
    → IsWellFormed s
    → Covers p s
    → s.datagram ≡ false
    → s.incoming ≡ []
    → s.buffer ≡ []
    → Reads s p (read_terminal done s p room)
unfolding read_terminal grant_credits
read_terminal_lem done s p room w c d i b =
    if_cases (Reads s p) s.terminal_ready
      (λ r.
        if_cases (Reads s p) (is_empty s.terminal_buffer)
          (λ e.
            let n = pending_nil s b i (is_empty_nil s.terminal_buffer e) in
            (w, Balanced-refl s p, (n, n, sym w.ended ∙ r, refl)))
          (λ e.
            rw
              (release_queued_exact (record s { terminal_buffer = []; terminal_bytes = 0 }) p
                s.terminal_bytes (omega arith) (omega arith) (omega arith))
              (copy_out_lem s p (with_tail s _) (repaid p s.terminal_bytes) room
                (tail_taken s _ w d) d (omega arith, omega arith, refl, refl, omega arith, refl)
                (tail_moves s i b))))
      (λ r.
        let n = pending_nil s b i (w.no_tail (sym w.ended ∙ r)).0 in
        (
          w,
          Balanced-refl s p,
          if_cases (Outcome s s) done (λ x. (n, n, sym w.ended ∙ r)) (λ x. (n, n, sym w.ended ∙ r)),
        ))

chunk_taken :
    (s : Stream) (chunk : Payload) (rest : List Payload) (credits : List ℕ)
    → IsWellFormed (record s { incoming = chunk ∷ rest })
    → s.datagram ≡ false
    → IsWellFormed (with_chunk s chunk rest credits)
unfolding total
chunk_taken s chunk rest credits w d = record {
  sized = w.sized.1;
  sized_packets = w.sized_packets;
  charged = omega (arith, w.charged);
  bounded = omega (arith, w.bounded);
  tail = w.tail;
  fits = omega (arith, w.fits);
  ended = w.ended;
  once = w.once;
  drained = λ c. absurd (cons_ne_nil (w.drained c));
  no_tail = w.no_tail;
  byte_mode = w.byte_mode;
  packet_mode = λ e. absurd (true≢false (sym e ∙ d));
}
  where
    cons_ne_nil : (chunk ∷ rest ≡ []) → ⊥
    cons_ne_nil e = cc

chunk_balances :
    (s : Stream) (p : Pools) (chunk : Payload) (rest : List Payload) (credits : List ℕ)
    → Covers p (record s { incoming = chunk ∷ rest })
    → Balanced
        (record s { incoming = chunk ∷ rest })
        p
        (with_chunk s chunk rest credits)
        (repaid p chunk.size)
unfolding total
chunk_balances s p chunk rest credits c = (omega arith, omega arith, refl, refl, omega arith, refl)

chunk_moves :
    (s : Stream) (chunk : Payload) (rest : List Payload) (credits : List ℕ)
    → s.buffer ≡ []
    → pending (with_chunk s chunk rest credits) ≡ pending (record s { incoming = chunk ∷ rest })
unfolding flat
chunk_moves s chunk rest credits b =
    rw b (sym (append_assoc chunk.bytes (flat rest) s.terminal_buffer))

chunk_covered :
    (s : Stream) (p : Pools) (chunk : Payload) (rest : List Payload)
    → IsWellFormed (record s { incoming = chunk ∷ rest })
    → Covers p (record s { incoming = chunk ∷ rest })
    → (chunk.size ≤ s.stream_budget.used)
      × (chunk.size ≤ p.session_budget.used)
      × (chunk.size ≤ p.global_budget.used)
unfolding total
chunk_covered s p chunk rest w c = (omega (arith, w.charged), omega arith, omega arith)

read_chunks_lem :
    (cs : List Payload) (done : Bool) (s : Stream) (p : Pools) (room : ℕ)
    → IsWellFormed (record s { incoming = cs })
    → Covers p (record s { incoming = cs })
    → s.datagram ≡ false
    → s.buffer ≡ []
    → Reads (record s { incoming = cs }) p (read_chunks cs done (record s { incoming = cs }) p room)
unfolding read_chunks grant_credits
read_chunks_lem [] done s p room w c d b =
    read_terminal_lem done (record s { incoming = [] }) p room w c d refl b
read_chunks_lem (chunk ∷ rest) done s p room w c d b =
    let fit = chunk_covered s p chunk rest w c in
    let start = record s { incoming = chunk ∷ rest } in
    let credits = credits_after s chunk.size in
    let moved = chunk_balances s p chunk rest credits c in
    rw (release_queued_exact (record s { incoming = rest }) p chunk.size fit.0 fit.1 fit.2) (
      if_cases (Reads start p) (is_empty chunk.bytes)
        (λ e.
          Reads-trans start p (with_chunk s chunk rest credits) (repaid p chunk.size) _ moved
            (chunk_moves s chunk rest credits b) refl refl d
            (read_chunks_lem rest done (with_chunk s chunk rest credits) (repaid p chunk.size) room
              (chunk_taken s chunk rest credits w d)
              (Balanced-Covers start p (with_chunk s chunk rest credits) (repaid p chunk.size) moved
                c)
              d (is_empty_nil chunk.bytes e)))
        (λ e.
          copy_out_lem start p (with_chunk s chunk rest credits) (repaid p chunk.size) room
            (chunk_taken s chunk rest credits w d) d moved (chunk_moves s chunk rest credits b)))

-- A call of `Read` on a well-formed stream whose bytes the shared budgets account for does not
-- panic, leaves the stream well formed, and gives back to each budget exactly what it stops holding.
-- The bytes that it delivers are the first of those pending, and the others stay pending in order.
-- An error or the end of the stream is reported only when nothing is pending and the stream is
-- closed, with the error that it was closed with; the call waits, or gives up because the context
-- has ended, only when nothing is pending and the stream is open.
pub read_lem :
    (done : Bool) (s : Stream) (p : Pools) (room : ℕ)
    → IsWellFormed s
    → Covers p s
    → Reads s p (read done s p room)
unfolding read
read_lem done s p room w c =
    if_cases (Reads s p) s.datagram (λ d. (w, Balanced-refl s p, (refl, d)))
      (λ d.
        if_cases (Reads s p) (is_empty s.buffer)
          (λ e. read_chunks_lem s.incoming done s p room w c d (is_empty_nil s.buffer e))
          (λ e. copy_out_lem s p s p room w d (Balanced-refl s p) refl))
