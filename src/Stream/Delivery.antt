-- ===== src/Stream/Delivery.antt =====
-- internal/gateway/session.go: a byte stream over its whole life, in any interleaving of the
-- session's pushes, the reader's calls, the closing, and what the other streams do to the budgets.
use hooshi_xagent.Stream.{
  enqueue, read, finish, delivered, faulted, cancelled, blocked, wrong_mode, Pools, EnqueueError,
  ReadOutcome, Stream, total, flat, Fault,
}
use hooshi_xagent.Stream.Invariant.{
  IsWellFormed, IsSized, Covers, pending, Balanced-Covers, total-append, flat-append,
}
use hooshi_xagent.Stream.Enqueue.{Enqueues, accepted, charged_pools, enqueue_lem, SameUse}
use hooshi_xagent.Stream.Read.{Reads, read_lem, Outcome}
use hooshi_xagent.Stream.Finish.{finish_lem, finish-datagram}
use hooshi_xagent.Base.{
  All-append, Bool, List, Option, [], ap, arith, false, length, length-append, none, ok, refl, some,
  subst, sym, ℕ, ◌++◌, ◌+◌, ◌<◌, ◌∙◌, ◌∷◌, ◌≡◌, ◌≤◌,
}
use mathlib.Core.Bool.{true≢false}
use mathlib.Core.List.{append-nil, append_assoc}
use mathlib.Core.Path.{subst₂}
use hooshi_xagent.Budget.{ByteBudget}

abbrev pub IsWithin : Pools → Type 0
IsWithin p =
    (p.session_budget.used ≤ p.session_budget.limit)
    × (p.global_budget.used ≤ p.global_budget.limit)

-- The bytes that a push adds to the queue, and those that a call of `Read` hands out.
abbrev pub pushed : Option EnqueueError → List ℕ → List ℕ
pushed none bytes = bytes
pushed (some e) bytes = []

abbrev pub handed : ReadOutcome → List ℕ
handed (delivered bytes) = bytes
handed _ = []

-- One event, with the bytes that it puts in and takes out. `others` is any change that the other
-- streams make to the shared budgets while those still account for this stream.
pub data Event (s : Stream) (p : Pools) : Stream → Pools → List ℕ → List ℕ → Type 0 where
  push :
      {t : Stream} {q : Pools} {e : Option EnqueueError} (bytes : List ℕ)
      → enqueue s p bytes ≡ ok (t, q, e)
      → Event s p t q (pushed e bytes) []
  pull :
      {t : Stream} {q : Pools} {o : ReadOutcome} (done : Bool) (room : ℕ)
      → read done s p room ≡ ok (t, q, o)
      → Event s p t q [] (handed o)
  close : (fault : Option Fault) → Event s p (finish s fault) p [] []
  others : {q : Pools} → Covers q s → IsWithin q → Event s p s q [] []

-- A life: the events so far, with all bytes put in and all bytes handed out.
pub data Life (s : Stream) (p : Pools) : Stream → Pools → List ℕ → List ℕ → Type 0 where
  start : Life s p s p [] []
  next :
      {t u : Stream} {q r : Pools} {ins outs more given : List ℕ}
      → Life s p t q ins outs
      → Event t q u r more given
      → Life s p u r (ins ++ more) (outs ++ given)

pub record IsSound (s : Stream) (p : Pools) : Type 0 where
  pub well : IsWellFormed s
  pub covered : Covers p s
  pub within : IsWithin p
  pub bytes_mode : s.datagram ≡ false

accepted_well :
    (s : Stream) (bytes : List ℕ)
    → IsWellFormed s
    → s.closed ≡ false
    → length s.incoming < s.slots
    → s.stream_budget.used + length bytes ≤ s.stream_budget.limit
    → IsWellFormed (accepted s bytes)
unfolding total
accepted_well s bytes w o f b = record {
  sized = All-append IsSized s.incoming _ w.sized (refl, tt);
  sized_packets = w.sized_packets;
  charged = omega (
    arith,
    w.charged,
    total-append s.incoming (record { bytes = bytes; size = length bytes } ∷ []),
  );
  bounded = b;
  tail = w.tail;
  fits =
      omega (arith, length-append s.incoming (record { bytes = bytes; size = length bytes } ∷ []));
  ended = w.ended;
  once = w.once;
  drained = λ c. absurd (true≢false (sym c ∙ o));
  no_tail = w.no_tail;
  byte_mode = w.byte_mode;
  packet_mode = w.packet_mode;
}

pending-accepted :
    (s : Stream) (bytes : List ℕ)
    → s.terminal_buffer ≡ []
    → pending (accepted s bytes) ≡ pending s ++ bytes
unfolding flat
pending-accepted s bytes e =
    rw (e, flat-append s.incoming (record { bytes = bytes; size = length bytes } ∷ []))
      (simp (append-nil, append_assoc))

-- What one event does: it keeps the stream sound, and the bytes handed out are the first of those
-- pending and put in.
abbrev Conserves : Stream → Stream → Pools → List ℕ → List ℕ → Type 0
Conserves s t q ins outs = IsSound t q × (pending s ++ ins ≡ outs ++ pending t)

accepted_covered :
    (s : Stream) (p : Pools) (bytes : List ℕ)
    → Covers p s
    → Covers (charged_pools p (length bytes)) (accepted s bytes)
unfolding total
accepted_covered s p bytes c =
    omega (arith, total-append s.incoming (record { bytes = bytes; size = length bytes } ∷ []))

-- A refused push changes counters of rejections only.
rejected_well :
    (s : Stream) (b : ByteBudget)
    → IsWellFormed s
    → SameUse s.stream_budget b
    → IsWellFormed (record s { stream_budget = b })
rejected_well s b w u = record {
  sized = w.sized;
  sized_packets = w.sized_packets;
  charged = u.0 ∙ w.charged;
  bounded = omega (arith, w.bounded);
  tail = w.tail;
  fits = w.fits;
  ended = w.ended;
  once = w.once;
  drained = w.drained;
  no_tail = w.no_tail;
  byte_mode = w.byte_mode;
  packet_mode = w.packet_mode;
}

push-Conserves :
    (s : Stream) (p : Pools) (bytes : List ℕ) (t : Stream) (q : Pools) (e : Option EnqueueError)
    → IsSound s p
    → Enqueues s p bytes (ok (t, q, e))
    → Conserves s t q (pushed e bytes) []
push-Conserves s p bytes t q none i (o, f, b, bs, bg, et, eq) =
    subst₂ (λ t q. Conserves s t q bytes []) (sym et) (sym eq)
      (
        record {
          well = accepted_well s bytes i.well o f b;
          covered = accepted_covered s p bytes i.covered;
          within = (bs, bg);
          bytes_mode = i.bytes_mode;
        },
        sym (pending-accepted s bytes (i.well.no_tail o).0),
      )
push-Conserves s p bytes t q (some e) i ((et, u), (us, ug)) =
    subst (λ t. Conserves s t q [] []) (sym et)
      (
        record {
          well = rejected_well s t.stream_budget i.well u;
          covered = omega (arith, i.covered);
          within = omega (arith, i.within);
          bytes_mode = i.bytes_mode;
        },
        append-nil (pending s),
      )

pull-Conserves :
    (s : Stream) (p : Pools) (t : Stream) (q : Pools) (o : ReadOutcome)
    → IsSound s p
    → Reads s p (ok (t, q, o))
    → Conserves s t q [] (handed o)
pull-Conserves s p t q o i (w, b, x) = (
  record {
    well = w;
    covered = Balanced-Covers s p t q b i.covered;
    within = omega (arith, i.within);
    bytes_mode = b.5 ∙ i.bytes_mode;
  },
  append-nil (pending s) ∙ shown o x,
)
  where
    shown : (o : ReadOutcome) → Outcome s t o → pending s ≡ handed o ++ pending t
    shown (delivered bytes) x = sym x
    shown (faulted fault) x = x.0 ∙ sym x.1
    shown cancelled x = x.0 ∙ sym x.1
    shown blocked x = x.0 ∙ sym x.1
    shown wrong_mode x = absurd (true≢false (sym x.1 ∙ i.bytes_mode))

close-Conserves :
    (s : Stream) (p : Pools) (fault : Option Fault)
    → IsSound s p
    → Conserves s (finish s fault) p [] []
close-Conserves s p fault i =
    let (w, h, c, b, d, e, f) = finish_lem s fault i.well in
    (
      record {
        well = w;
        covered = omega (arith, i.covered);
        within = i.within;
        bytes_mode = finish-datagram s fault ∙ i.bytes_mode;
      },
      append-nil (pending s) ∙ sym (b i.bytes_mode),
    )

event-Conserves :
    {s : Stream} {p : Pools} {t : Stream} {q : Pools} {ins outs : List ℕ}
    → Event s p t q ins outs
    → IsSound s p
    → Conserves s t q ins outs
event-Conserves {s} {p} (push {t} {q} {e} bytes h) i =
    push-Conserves s p bytes t q e i
      (subst (Enqueues s p bytes) h (enqueue_lem s p bytes i.well.bounded i.within.0 i.within.1))
event-Conserves {s} {p} (pull {t} {q} {o} done room h) i =
    pull-Conserves s p t q o i (subst (Reads s p) h (read_lem done s p room i.well i.covered))
event-Conserves {s} {p} (close fault) i = close-Conserves s p fault i
event-Conserves {s} {p} (others {q} c w) i = (
  record { well = i.well; covered = c; within = w; bytes_mode = i.bytes_mode },
  append-nil (pending s),
)

-- Over any life of a byte stream that starts sound, it stays sound, and the bytes handed to the
-- reader followed by those still pending are the bytes pending at the start followed by those that
-- were accepted: none is lost, made up, repeated or put out of order.
pub life_conserves :
    {s : Stream} {p : Pools} {t : Stream} {q : Pools} {ins outs : List ℕ}
    → Life s p t q ins outs
    → IsSound s p
    → IsSound t q × (pending s ++ ins ≡ outs ++ pending t)
life_conserves {s} start i = (i, append-nil (pending s))
life_conserves {s} (next {t} {u} {q} {r} {ins} {outs} {more} {given} l e) i =
    let (j, h) = life_conserves l i in
    let (k, g) = event-Conserves e j in
    (
      k,
      sym (append_assoc (pending s) ins more)
          ∙ ap (λ (x : List ℕ). x ++ more) h
          ∙ append_assoc outs (pending t) more
          ∙ ap (λ (x : List ℕ). outs ++ x) g
          ∙ sym (append_assoc outs given (pending u)),
    )

-- A reader that is told of the end or of an error, after any life of a byte stream that starts sound
-- and empty, has been handed every byte that was accepted.
pub end_means_delivered :
    {s t u : Stream} {p q r : Pools} {ins outs : List ℕ} {fault : Fault} (done : Bool) (room : ℕ)
    → IsSound s p
    → pending s ≡ []
    → Life s p t q ins outs
    → read done t q room ≡ ok (u, r, faulted fault)
    → outs ≡ ins
end_means_delivered {s} {t} {u} {p} {q} {r} {ins} {outs} done room i e l h =
    let (j, g) = life_conserves l i in
    let x = subst (Reads t q) h (read_lem done t q room j.well j.covered) in
    sym (
      sym (ap (λ (y : List ℕ). y ++ ins) e)
      ∙ g
      ∙ ap (λ (y : List ℕ). outs ++ y) x.2.0
      ∙ append-nil outs)
