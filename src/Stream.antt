-- ===== src/Stream.antt =====
-- internal/gateway/session.go: one tunneled stream. Its bounded queue of payloads is charged to
-- three byte budgets (of the stream, its session and the gateway), and is drained by the reader.
-- A channel is the list of what it buffers, with its number of slots. A call that has to wait
-- returns `blocked`, and is made again when something happened.
pub mod Invariant
pub mod Enqueue
pub mod Read
pub mod Finish
pub mod Datagram
pub mod Delivery
pub mod Examples
use hooshi_xagent.Budget.{ByteBudget, Panic, new_byte_budget, try_acquire, release}
use hooshi_xagent.Base.{
  Bool, List, Option, Result, [], drop, false, if◌then◌else◌, length, ltb, none, not, ok, pos, some,
  take, true, ℕ, ◌%◌, ◌&&◌, ◌++◌, ◌+◌, ◌-◌, ◌/◌, ◌>>=◌, ◌^◌, ◌∷◌,
}

pub record Payload : Type 0 where
  pub bytes : List ℕ
  pub size : ℕ

-- The terminal error: `io.EOF`, or another error by its number.
pub data Fault : Type 0 where
  eof : Fault
  failure : ℕ → Fault

pub record Stream : Type 0 where
  pub datagram : Bool
  pub incoming : List Payload
  pub slots : ℕ
  pub buffer : List ℕ
  pub closed : Bool
  pub terminal_buffer : List ℕ
  pub terminal_packets : List Payload
  pub terminal_bytes : ℕ
  pub terminal_err : Option Fault
  pub terminal_ready : Bool
  pub finish_once : Bool  -- whether `finishOnce` has run
  pub stream_budget : ByteBudget
  pub grants_credit : Bool  -- whether `grantCredit` is set
  pub credits : List ℕ  -- the window updates that `grantCredit` sent

-- What the streams of a session share, by pointer.
pub record Pools : Type 0 where
  pub session_budget : ByteBudget
  pub global_budget : ByteBudget
  pub rejects : ℕ  -- uint64

abbrev pub min_tunnel_frame : ℕ
min_tunnel_frame = 4096

pub new_stream : Bool → Bool → ℕ → ℕ → Stream
new_stream datagram grants_credit queue_frames queue_bytes = record {
  datagram = datagram;
  incoming = [];
  slots =
      if ltb queue_frames (queue_bytes / min_tunnel_frame)
      then queue_bytes / min_tunnel_frame
      else queue_frames;
  buffer = [];
  closed = false;
  terminal_buffer = [];
  terminal_packets = [];
  terminal_bytes = 0;
  terminal_err = none;
  terminal_ready = false;
  finish_once = false;
  stream_budget = new_byte_budget queue_bytes;
  grants_credit = grants_credit;
  credits = [];
}

count_reject : Pools → Pools
count_reject pools = record pools { rejects = (pools.rejects + 1) % 2 ^ 64 }

pub release_queued : Stream → Pools → ℕ → Result Panic (Stream × Pools)
release_queued stream pools size = do
  global ← release pools.global_budget (pos size)
  session ← release pools.session_budget (pos size)
  own ← release stream.stream_budget (pos size)
  ok (
    record stream { stream_budget = own },
    record pools { session_budget = session; global_budget = global },
  )

pub data EnqueueError : Type 0 where
  stream_closed budget_exhausted queue_full : EnqueueError

-- The `select` at the end of `enqueue`, with all three reservations made.
offer : Stream → Pools → Payload → Result Panic (Stream × Pools × Option EnqueueError)
unfolding count_reject
offer stream pools payload =
    if ltb (length stream.incoming) stream.slots
    then ok (record stream { incoming = stream.incoming ++ (payload ∷ []) }, pools, none)
    else do
      (stream', pools') ← release_queued stream pools payload.size
      ok (stream', count_reject pools', some queue_full)

-- The reservations, innermost first: each refusal returns what was reserved before it.
reserve_global : Stream → Pools → Payload → Result Panic (Stream × Pools × Option EnqueueError)
unfolding count_reject
reserve_global stream pools payload =
    let (global, granted) = try_acquire pools.global_budget (pos payload.size) in
    if granted then offer stream (record pools { global_budget = global }) payload else do
      session ← release pools.session_budget (pos payload.size)
      own ← release stream.stream_budget (pos payload.size)
      ok (
        record stream { stream_budget = own },
        count_reject (record pools { session_budget = session; global_budget = global }),
        some budget_exhausted,
      )

reserve_session : Stream → Pools → Payload → Result Panic (Stream × Pools × Option EnqueueError)
unfolding count_reject
reserve_session stream pools payload =
    let (session, granted) = try_acquire pools.session_budget (pos payload.size) in
    if granted
    then reserve_global stream (record pools { session_budget = session }) payload
    else do
      own ← release stream.stream_budget (pos payload.size)
      ok (
        record stream { stream_budget = own },
        count_reject (record pools { session_budget = session }),
        some budget_exhausted,
      )

pub enqueue : Stream → Pools → List ℕ → Result Panic (Stream × Pools × Option EnqueueError)
unfolding count_reject
enqueue stream pools bytes =
    let payload : Payload = record { bytes = bytes; size = length bytes } in
    let (own, granted) = try_acquire stream.stream_budget (pos payload.size) in
    if stream.closed
    then ok (stream, pools, some stream_closed)
    else if granted
    then reserve_session (record stream { stream_budget = own }) pools payload
    else ok (record stream { stream_budget = own }, count_reject pools, some budget_exhausted)

-- `grantCredits`, with the guard of the closure that `openStreamTarget` installs.
abbrev credits_after : Stream → ℕ → List ℕ
credits_after stream size =
    if stream.grants_credit && ltb 0 size then stream.credits ++ (size ∷ []) else stream.credits

grant_credits : Stream → ℕ → Stream
grant_credits stream size = record stream { credits = credits_after stream size }

pub data ReadOutcome : Type 0 where
  delivered : List ℕ → ReadOutcome
  faulted : Fault → ReadOutcome
  wrong_mode cancelled blocked : ReadOutcome

abbrev pub is_empty {ℓ} : {A : Type ℓ} → List A → Bool
is_empty [] = true
is_empty (x ∷ xs) = false

abbrev pub fault_of : Option Fault → Fault
fault_of none = eof
fault_of (some fault) = fault

-- The copy at the end of `Read`, into a slice of `room` bytes.
copy_out : Stream → Pools → ℕ → Result Panic (Stream × Pools × ReadOutcome)
copy_out stream pools room =
    ok (
      record stream { buffer = drop room stream.buffer },
      pools,
      delivered (take room stream.buffer),
    )

-- The rest of the loop of `Read` when the channel is empty. `done` is whether the stream's context
-- has ended; the call then fails where it would wait.
read_terminal : Bool → Stream → Pools → ℕ → Result Panic (Stream × Pools × ReadOutcome)
read_terminal done stream pools room =
    if stream.terminal_ready
    then (if is_empty stream.terminal_buffer
        then ok (stream, pools, faulted (fault_of stream.terminal_err))
        else do
          (stream', pools') ←
              release_queued (record stream { terminal_buffer = []; terminal_bytes = 0 }) pools
                stream.terminal_bytes
          copy_out
              (grant_credits (record stream' { buffer = stream.terminal_buffer })
                stream.terminal_bytes)
              pools' room)
    else ok (stream, pools, if done then cancelled else blocked)

-- The loop of `Read` with an empty buffer, over what the channel holds: an empty chunk is taken and
-- the loop goes on.
read_chunks : List Payload → Bool → Stream → Pools → ℕ → Result Panic (Stream × Pools × ReadOutcome)
read_chunks [] done stream pools room = read_terminal done stream pools room
read_chunks (chunk ∷ rest) done stream pools room =
    release_queued (record stream { incoming = rest }) pools chunk.size >>= λ r.
    let (stream', pools') = r in
    let taken = grant_credits (record stream' { buffer = chunk.bytes }) chunk.size in
    let again = read_chunks rest done taken pools' room in
    if is_empty chunk.bytes then again else copy_out taken pools' room

pub read : Bool → Stream → Pools → ℕ → Result Panic (Stream × Pools × ReadOutcome)
read done stream pools room =
    if stream.datagram
    then ok (stream, pools, wrong_mode)
    else if is_empty stream.buffer
    then read_chunks stream.incoming done stream pools room
    else copy_out stream pools room

-- `ReadDatagram`, by what the channel and then the retained packets hold.
pub read_packet :
    List Payload
    → List Payload
    → Bool
    → Stream
    → Pools
    → Result Panic (Stream × Pools × ReadOutcome)
read_packet (packet ∷ rest) packets done stream pools = do
  (stream', pools') ← release_queued (record stream { incoming = rest }) pools packet.size
  ok (stream', pools', delivered packet.bytes)
read_packet [] (packet ∷ rest) done stream pools =
    if stream.terminal_ready
    then (do
      (stream', pools') ←
          release_queued
            (record stream {
              terminal_packets = rest;
              terminal_bytes = stream.terminal_bytes - packet.size;
            })
            pools packet.size
      ok (stream', pools', delivered packet.bytes))
    else ok (stream, pools, if done then cancelled else blocked)
read_packet [] [] done stream pools = ok (
  stream,
  pools,
  if stream.terminal_ready
      then faulted (fault_of stream.terminal_err)
      else (if done then cancelled else blocked),
)

pub read_datagram : Bool → Stream → Pools → Result Panic (Stream × Pools × ReadOutcome)
read_datagram done stream pools =
    if not stream.datagram
    then ok (stream, pools, wrong_mode)
    else read_packet stream.incoming stream.terminal_packets done stream pools

-- The bytes and the sizes of queued payloads.
pub flat : List Payload → List ℕ
flat [] = []
flat (chunk ∷ rest) = chunk.bytes ++ flat rest

pub total : List Payload → ℕ
total [] = 0
total (chunk ∷ rest) = chunk.size + total rest

-- What `finish` sets aside for the reader: of a datagram stream the packets, of a byte stream the
-- bytes.
retain : Bool → Stream → Option Fault → Stream
retain true stream fault = record stream {
  finish_once = true;
  closed = true;
  incoming = [];
  terminal_packets = stream.terminal_packets ++ stream.incoming;
  terminal_buffer = [];
  terminal_bytes = stream.terminal_bytes + total stream.incoming;
  terminal_err = fault;
  terminal_ready = true;
}
retain false stream fault = record stream {
  finish_once = true;
  closed = true;
  incoming = [];
  terminal_buffer = flat stream.incoming;
  terminal_bytes = length (flat stream.incoming);
  terminal_err = fault;
  terminal_ready = true;
}

pub finish : Stream → Option Fault → Stream
unfolding retain
finish stream fault = if stream.finish_once then stream else retain stream.datagram stream fault

pub half_close : Stream → Stream
unfolding finish
half_close stream = finish stream none

release_chunks : List Payload → Stream → Pools → Result Panic (Stream × Pools)
release_chunks [] stream pools = ok (record stream { incoming = [] }, pools)
release_chunks (chunk ∷ rest) stream pools =
    release_queued stream pools chunk.size >>= λ r. release_chunks rest r.0 r.1

pub release_queued_chunks : Stream → Pools → Result Panic (Stream × Pools)
release_queued_chunks stream pools = release_chunks stream.incoming stream pools

pub discard_retained : Stream → Pools → Result Panic (Stream × Pools)
discard_retained stream pools = do
  (stream', pools') ← release_queued_chunks stream pools
  let size = stream'.terminal_bytes
  let dropped = record stream' { terminal_buffer = []; terminal_packets = []; terminal_bytes = 0 }
  if ltb 0 size then release_queued dropped pools' size else ok (dropped, pools')

-- The stream's part of `session.detachStream`.
pub detach : Stream → Pools → Option Fault → Result Panic (Stream × Pools)
detach stream pools fault = release_queued_chunks (finish stream fault) pools
