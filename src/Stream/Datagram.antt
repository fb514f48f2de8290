-- ===== src/Stream/Datagram.antt =====
-- internal/gateway/session.go: `ReadDatagram` hands out whole packets in order.
use hooshi_xagent.Stream.{
  read_datagram, read_packet, delivered, faulted, cancelled, blocked, wrong_mode, fault_of, Stream,
  total, ReadOutcome, Pools, Payload,
}
use hooshi_xagent.Stream.Invariant.{
  IsWellFormed, Covers, Balanced, Balanced-refl, release_queued_exact, paid,
}
use hooshi_xagent.Stream.Finish.{packets}
use hooshi_xagent.Base.{
  Bool, List, Result, [], arith, err, false, if_cases, not, ok, refl, sym, true, ◌-◌, ◌∙◌, ◌∷◌, ◌≡◌,
}
use hooshi_xagent.Budget.{Panic}

abbrev pub PacketOutcome : Stream → Stream → ReadOutcome → Type 0
PacketOutcome s t (delivered bytes) =
    (packet : Payload) × (packets s ≡ packet ∷ packets t) × (packet.bytes ≡ bytes)
PacketOutcome s t (faulted fault) =
    (packets s ≡ []) × (packets t ≡ []) × (s.closed ≡ true) × (fault ≡ fault_of s.terminal_err)
PacketOutcome s t cancelled = (packets s ≡ []) × (packets t ≡ []) × (s.closed ≡ false)
PacketOutcome s t blocked = (packets s ≡ []) × (packets t ≡ []) × (s.closed ≡ false)
PacketOutcome s t wrong_mode = (t ≡ s) × (s.datagram ≡ false)

abbrev pub ReadsPacket : Stream → Pools → Result Panic (Stream × Pools × ReadOutcome) → Type 0
ReadsPacket s p (err e) = ⊥
ReadsPacket s p (ok (t, q, o)) = IsWellFormed t × Balanced s p t q × PacketOutcome s t o

abbrev queued : Stream → List Payload → List Payload → Stream
queued s cs ps = record s { incoming = cs; terminal_packets = ps }

abbrev popped : Stream → Payload → List Payload → Stream
popped s packet rest =
    paid
      (record s {
        incoming = [];
        terminal_packets = rest;
        terminal_bytes = s.terminal_bytes - packet.size;
      })
      packet.size

popped_well :
    (s : Stream) (packet : Payload) (rest : List Payload)
    → IsWellFormed (queued s [] (packet ∷ rest))
    → IsWellFormed (popped s packet rest)
unfolding total
popped_well s packet rest w = record {
  sized = tt;
  sized_packets = w.sized_packets.1;
  charged = omega (arith, w.charged, w.tail);
  bounded = omega (arith, w.bounded);
  tail = omega (arith, w.tail);
  fits = w.fits;
  ended = w.ended;
  once = w.once;
  drained = w.drained;
  no_tail = λ o. absurd (cons_ne_nil (w.no_tail o).1);
  byte_mode = λ d. absurd (cons_ne_nil (w.byte_mode d));
  packet_mode = w.packet_mode;
}
  where
    cons_ne_nil : (packet ∷ rest ≡ []) → ⊥
    cons_ne_nil e = cc

taken_well :
    (s : Stream) (packet : Payload) (rest ps : List Payload)
    → IsWellFormed (queued s (packet ∷ rest) ps)
    → IsWellFormed (paid (queued s rest ps) packet.size)
unfolding total
taken_well s packet rest ps w = record {
  sized = w.sized.1;
  sized_packets = w.sized_packets;
  charged = omega (arith, w.charged);
  bounded = omega (arith, w.bounded);
  tail = w.tail;
  fits = omega (arith, w.fits);
  ended = w.ended;
  once = w.once;
  drained = λ c. absurd (cons_ne_nil (w.drained c));
  no_tail = w.no_tail;
  byte_mode = w.byte_mode;
  packet_mode = w.packet_mode;
}
  where
    cons_ne_nil : (packet ∷ rest ≡ []) → ⊥
    cons_ne_nil e = cc

read_packet_lem :
    (cs ps : List Payload) (done : Bool) (s : Stream) (p : Pools)
    → IsWellFormed (queued s cs ps)
    → Covers p (queued s cs ps)
    → ReadsPacket (queued s cs ps) p (read_packet cs ps done (queued s cs ps) p)
unfolding read_packet total
read_packet_lem (packet ∷ rest) ps done s p w c =
    rw
      (release_queued_exact (queued s rest ps) p packet.size (omega (arith, w.charged))
        (omega arith) (omega arith))
      (
        taken_well s packet rest ps w,
        (omega arith, omega arith, refl, refl, omega arith, refl),
        (packet, refl, refl),
      )
read_packet_lem [] (packet ∷ rest) done s p w c =
    if_cases (ReadsPacket (queued s [] (packet ∷ rest)) p) s.terminal_ready
      (λ r.
        rw
          (release_queued_exact
            (record s {
              incoming = [];
              terminal_packets = rest;
              terminal_bytes = s.terminal_bytes - packet.size;
            })
            p packet.size (omega (arith, w.charged, w.tail)) (omega (arith, c, w.tail))
            (omega (arith, c, w.tail)))
          (
            popped_well s packet rest w,
            (omega (arith, w.tail, c), omega (arith, w.tail, c), refl, refl, omega arith, refl),
            (packet, refl, refl),
          ))
      (λ r. absurd (cons_ne_nil (w.no_tail (sym w.ended ∙ r)).1))
  where
    cons_ne_nil : (packet ∷ rest ≡ []) → ⊥
    cons_ne_nil e = cc
read_packet_lem [] [] done s p w c = (
  w,
  Balanced-refl (queued s [] []) p,
  if_cases (PacketOutcome (queued s [] []) (queued s [] [])) s.terminal_ready
      (λ r. (refl, refl, sym w.ended ∙ r, refl))
      (λ r.
        if_cases (PacketOutcome (queued s [] []) (queued s [] [])) done
          (λ x. (refl, refl, sym w.ended ∙ r)) (λ x. (refl, refl, sym w.ended ∙ r))),
)

-- A call of `ReadDatagram` on a well-formed stream whose bytes the shared budgets account for does
-- not panic, leaves the stream well formed, and gives back to each budget exactly what it stops
-- holding. It delivers the first pending packet whole and leaves the others pending in order. The
-- end or an error is reported only when no packet is pending and the stream is closed, with the
-- error that it was closed with; the call waits, or gives up because the context has ended, only
-- when no packet is pending and the stream is open.
pub read_datagram_lem :
    (done : Bool) (s : Stream) (p : Pools)
    → IsWellFormed s
    → Covers p s
    → ReadsPacket s p (read_datagram done s p)
unfolding read_datagram
read_datagram_lem done s p w c =
    if_cases (ReadsPacket s p) (not s.datagram) (λ d. (w, Balanced-refl s p, (refl, ground arith)))
      (λ d. read_packet_lem s.incoming s.terminal_packets done s p w c)
