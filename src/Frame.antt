-- ===== src/Frame.antt =====
-- internal/contractv1/frame.go: the tunnel frame codec and the per-direction sequence rule.
-- A byte is a number below 256, a byte slice a list of them. `uint32` and `uint64` fields are
-- numbers, with their ranges as hypotheses where they matter.
mod Bytes
pub mod RoundTrip
pub mod Sequence
pub mod Examples
pub use Bytes.{IsBytes}
use Bytes.{put_be, get_be}
use hooshi_xagent.Base.{
  ℕ, ◌+◌, ◌-◌, ◌*◌, ◌^◌, List, [], ◌∷◌, ◌++◌, Bool, true, false, not, ◌&&◌, ◌==◌, ltb,
  if◌then◌else◌, length, take, drop, bytes_eq, Result, ok, err, ◌>>=◌, ◌>>◌, reject_if,
}

abbrev pub header_size : ℕ
header_size = 24

abbrev pub protocol_version : ℕ
protocol_version = 1

abbrev pub max_control_payload : ℕ
max_control_payload = 64 * 1024

abbrev pub max_data_payload : ℕ
max_data_payload = 1024 * 1024

abbrev pub max_udp_datagram : ℕ
max_udp_datagram = 1200

abbrev pub max_sequence : ℕ
max_sequence = 2 ^ 64 - 1

abbrev pub magic : List ℕ
magic = b'H' ∷ b'X' ∷ b'T' ∷ b'1' ∷ []

-- `Kind` is a `uint8`; only two of its values are kinds of the protocol.
abbrev pub kind_control : ℕ
kind_control = 1

abbrev pub kind_data : ℕ
kind_data = 2

pub record Frame : Type 0 where
  pub kind : ℕ
  pub stream_id : ℕ
  pub sequence : ℕ
  pub payload : List ℕ

-- The errors of `validateFrameFields`, which carry no `FrameError` wrapper.
pub data FieldError : Type 0 where
  unknown_kind zero_sequence payload_over_limit zero_stream_id : FieldError

-- The errors that `frameErrorf` wraps as a `FrameError`.
pub data FrameError : Type 0 where
  short_header bad_magic bad_version bad_kind nonzero_flags length_mismatch payload_too_long :
      FrameError

pub data DecodeError : Type 0 where
  framing : FrameError → DecodeError
  field : FieldError → DecodeError

abbrev pub is_kind : ℕ → Bool
is_kind kind = if kind == kind_control then true else kind == kind_data

pub max_payload_for_kind : ℕ → ℕ
max_payload_for_kind kind = if kind == kind_control then max_control_payload else max_data_payload

pub validate_frame_fields : Frame → Result FieldError (Unit {0})
unfolding max_payload_for_kind
validate_frame_fields frame = do
  reject_if (not (is_kind frame.kind)) unknown_kind
  reject_if (frame.sequence == 0) zero_sequence
  reject_if (ltb (max_payload_for_kind frame.kind) (length frame.payload)) payload_over_limit
  reject_if (frame.kind == kind_data && frame.stream_id == 0) zero_stream_id

-- The 24 bytes that `EncodeFrame` writes in front of the payload.
frame_header : Frame → List ℕ
frame_header frame =
    magic
    ++ (protocol_version
        ∷ frame.kind
        ∷ (put_be 2 0
            ++ (put_be 4 frame.stream_id
                ++ (put_be 4 (length frame.payload) ++ put_be 8 frame.sequence))))

pub encode_frame : Frame → Result FieldError (List ℕ)
unfolding validate_frame_fields frame_header
encode_frame frame = do validate_frame_fields frame; ok (frame_header frame ++ frame.payload)

-- `encoded[low:high]`, and `encoded[index]`, both within the header.
slice : ℕ → ℕ → List ℕ → List ℕ
slice low high encoded = take (high - low) (drop low encoded)

byte_at : ℕ → List ℕ → ℕ
unfolding slice
byte_at index encoded = get_be (slice index (index + 1) encoded)

lift_field {ℓ} : {A : Type ℓ} → Result FieldError A → Result DecodeError A
lift_field (ok a) = ok a
lift_field (err e) = err (field e)

lift_framing {ℓ} : {A : Type ℓ} → Result FrameError A → Result DecodeError A
lift_framing (ok a) = ok a
lift_framing (err e) = err (framing e)

decoded : List ℕ → Frame
unfolding slice byte_at
decoded encoded = record {
  kind = byte_at 5 encoded;
  stream_id = get_be (slice 8 12 encoded);
  sequence = get_be (slice 16 24 encoded);
  payload = drop header_size encoded;
}

-- The guards of `DecodeFrame` in their order, over the fields that they read.
check_header :
    (size : ℕ) (signature : List ℕ) (version kind flags payload_length : ℕ)
    → Result FrameError (Unit {0})
unfolding max_payload_for_kind
check_header size signature version kind flags payload_length = do
  reject_if (ltb size header_size) short_header
  reject_if (not (bytes_eq signature magic)) bad_magic
  reject_if (not (version == protocol_version)) bad_version
  reject_if (not (is_kind kind)) bad_kind
  reject_if (not (flags == 0)) nonzero_flags
  reject_if (not (payload_length == size - header_size)) length_mismatch
  reject_if (ltb (max_payload_for_kind kind) payload_length) payload_too_long

pub decode_frame : List ℕ → Result DecodeError Frame
unfolding slice byte_at lift_field lift_framing decoded validate_frame_fields check_header
decode_frame encoded = do
  lift_framing (
      check_header (length encoded) (slice 0 4 encoded) (byte_at 4 encoded) (byte_at 5 encoded)
        (get_be (slice 6 8 encoded)) (get_be (slice 12 16 encoded)))
  lift_field (validate_frame_fields (decoded encoded))
  ok (decoded encoded)

-- The tracker's state is the last sequence that it accepted.
pub data SequenceError : Type 0 where
  exhausted non_contiguous : SequenceError

pub next_sequence : ℕ → Result SequenceError ℕ
next_sequence last = if last == max_sequence then err exhausted else ok (last + 1)

-- The new value of `tracker.last`, or the error with the tracker left as it was.
pub accept : ℕ → ℕ → Result SequenceError ℕ
unfolding next_sequence
accept last sequence = do
  expected ← next_sequence last
  reject_if (not (sequence == expected)) non_contiguous
  ok sequence
