-- ===== src/Frame/RoundTrip.antt =====
-- internal/contractv1/frame.go: `EncodeFrame` and `DecodeFrame` are inverse to one another.
use mathlib.Core.List.{append_assoc}
use hooshi_xagent.Base.{
  ℕ, ◌+◌, ◌-◌, ◌^◌, ◌≤◌, ◌<◌, ◌≡◌, refl, sym, ◌∙◌, List, [], ◌∷◌, ◌++◌, true, length, drop,
  bytes_eq, bytes_eq_sound, Result, ok, err, ◌>>◌, arith, length-take_of_le, length-drop, All-take,
  All-drop, take-drop-append, ap,
}
use hooshi_xagent.Frame.Bytes.{IsBytes, put_be, get_be, get_be-put_be, put_be-get_be, get_be-single}
use hooshi_xagent.Frame.{
  Frame, FieldError, validate_frame_fields, frame_header, slice, byte_at, lift_field, decoded,
  decode_frame, header_size, magic, protocol_version, check_header, lift_framing, FrameError,
  encode_frame,
}

decoded-header :
    (f : Frame)
    → length f.payload < 2 ^ 32
    → f.stream_id < 2 ^ 32
    → f.sequence < 2 ^ 64
    → decoded (frame_header f ++ f.payload) ≡ f
unfolding decoded slice byte_at frame_header put_be
decoded-header f hl hs hq =
    rw (get_be-put_be 4 f.stream_id hs, get_be-put_be 8 f.sequence hq) (rw (get_be-single f.kind))

payload_bounded : (f : Frame) → validate_frame_fields f ≡ ok tt → length f.payload ≤ 2 ^ 20
unfolding validate_frame_fields
payload_bounded f h = ground arith

decode-header :
    (f : Frame)
    → validate_frame_fields f ≡ ok tt
    → f.stream_id < 2 ^ 32
    → f.sequence < 2 ^ 64
    → decode_frame (frame_header f ++ f.payload) ≡ ok f
unfolding decode_frame frame_header put_be
decode-header f h hs hq =
    rw
      (
        get_be-put_be 2 0 (omega arith),
        get_be-put_be 4 f.stream_id hs,
        get_be-put_be 4 (length f.payload) (omega (arith, payload_bounded f h)),
        get_be-put_be 8 f.sequence hq,
        get_be-single f.kind,
        get_be-single 1,
      )
      (ground arith)

check_header-inv :
    (size : ℕ) (signature : List ℕ) (version kind flags payload_length : ℕ)
    → check_header size signature version kind flags payload_length ≡ ok tt
    → (header_size ≤ size)
      × (bytes_eq signature magic ≡ true)
      × (version ≡ protocol_version)
      × (flags ≡ 0)
      × (payload_length ≡ size - header_size)
unfolding check_header
check_header-inv size signature version kind flags payload_length h = ground arith

both_checked :
    (m : Result FrameError (Unit {0})) (n : Result FieldError (Unit {0})) (g f : Frame)
    → (lift_framing m >> (lift_field n >> ok g)) ≡ ok f
    → (m ≡ ok tt) × (n ≡ ok tt) × (g ≡ f)
unfolding lift_framing lift_field
both_checked (ok a) (ok b) g f h = (refl, refl, ground arith)
both_checked (err e) n g f h = cc
both_checked (ok a) (err e) g f h = cc

-- What a successful decoding has checked.
decode-inv :
    (bs : List ℕ) (f : Frame)
    → decode_frame bs ≡ ok f
    → (check_header
          (length bs)
          (slice 0 4 bs)
          (byte_at 4 bs)
          (byte_at 5 bs)
          (get_be (slice 6 8 bs))
          (get_be (slice 12 16 bs))
        ≡ ok tt)
      × (validate_frame_fields (decoded bs) ≡ ok tt)
      × (decoded bs ≡ f)
unfolding decode_frame
decode-inv bs f h = both_checked _ _ (decoded bs) f h

slice-length :
    (low high : ℕ) (bs : List ℕ)
    → low ≤ high
    → high ≤ length bs
    → length (slice low high bs) ≡ high - low
unfolding slice
slice-length low high bs h k =
    length-take_of_le (high - low) (drop low bs) (omega (arith, length-drop low bs))

-- A big-endian field of the header, written again.
put_be-slice :
    (low high : ℕ) (bs : List ℕ)
    → IsBytes bs
    → low ≤ high
    → high ≤ length bs
    → put_be (high - low) (get_be (slice low high bs)) ≡ slice low high bs
unfolding slice
put_be-slice low high bs b h k = rw (slice-length low high bs h k) at (
    put_be-get_be (slice low high bs) (All-take _ (high - low) (drop low bs) (All-drop _ low bs b)))

slice-append :
    (low high : ℕ) (bs : List ℕ) → low ≤ high → slice low high bs ++ drop high bs ≡ drop low bs
unfolding slice
slice-append low high bs h =
    let e : low + (high - low) ≡ high = omega arith in
    rw e at (take-drop-append low (high - low) bs)

one_byte : (xs : List ℕ) → length xs ≡ 1 → get_be xs ∷ [] ≡ xs
one_byte [] h = absurd (omega arith)
one_byte (x ∷ []) h = rw (get_be-single x)
one_byte (x ∷ y ∷ ys) h = absurd (omega arith)

-- The fields of the header in their order, and the payload.
reassembled :
    (bs : List ℕ)
    → slice 0 4 bs
        ++ (slice 4 5 bs
            ++ (slice 5 6 bs
                ++ (slice 6 8 bs
                    ++ (slice 8 12 bs ++ (slice 12 16 bs ++ (slice 16 24 bs ++ drop 24 bs))))))
      ≡ bs
reassembled bs =
    rw
      (
        slice-append 16 24 bs (omega arith),
        slice-append 12 16 bs (omega arith),
        slice-append 8 12 bs (omega arith),
        slice-append 6 8 bs (omega arith),
        slice-append 5 6 bs (omega arith),
        slice-append 4 5 bs (omega arith),
        slice-append 0 4 bs (omega arith),
      )
      refl

-- The pieces of an encoded frame, put together as `frame_header` does.
assemble : List ℕ → List ℕ → List ℕ → List ℕ → List ℕ → List ℕ → List ℕ → List ℕ → List ℕ
assemble signature version kind flags id size sequence rest =
    (signature ++ (version ++ (kind ++ (flags ++ (id ++ (size ++ sequence)))))) ++ rest

assemble_lem :
    (a b c d e f g h : List ℕ)
    → assemble a b c d e f g h ≡ a ++ (b ++ (c ++ (d ++ (e ++ (f ++ (g ++ h))))))
unfolding assemble
assemble_lem a b c d e f g h = simp append_assoc

header-decoded :
    (bs : List ℕ) (f : Frame)
    → IsBytes bs
    → decode_frame bs ≡ ok f
    → frame_header (decoded bs) ++ drop 24 bs ≡ bs
unfolding frame_header decoded assemble byte_at
header-decoded bs f b h =
    let (c, v, e) = decode-inv bs f h in
    let (long, m, version, flags, size) =
      check_header-inv (length bs) (slice 0 4 bs) (byte_at 4 bs) (byte_at 5 bs)
        (get_be (slice 6 8 bs)) (get_be (slice 12 16 bs)) c in
    let e0 : magic ≡ slice 0 4 bs = sym (bytes_eq_sound _ _ m) in
    let e1 : protocol_version ∷ [] ≡ slice 4 5 bs =
      rw version at (one_byte (slice 4 5 bs) (slice-length 4 5 bs (omega arith) (omega arith))) in
    let e2 : byte_at 5 bs ∷ [] ≡ slice 5 6 bs =
      one_byte (slice 5 6 bs) (slice-length 5 6 bs (omega arith) (omega arith)) in
    let e3 : put_be 2 0 ≡ slice 6 8 bs =
      rw flags at (put_be-slice 6 8 bs b (omega arith) (omega arith)) in
    let e4 = put_be-slice 8 12 bs b (omega arith) (omega arith) in
    let e5 : put_be 4 (length (drop 24 bs)) ≡ slice 12 16 bs =
      rw (length-drop 24 bs) (rw size at (put_be-slice 12 16 bs b (omega arith) (omega arith))) in
    let e6 = put_be-slice 16 24 bs b (omega arith) (omega arith) in
    same_pieces e0 e1 e2 e3 e4 e5 e6
    ∙ assemble_lem (slice 0 4 bs) (slice 4 5 bs) (slice 5 6 bs) (slice 6 8 bs) (slice 8 12 bs)
        (slice 12 16 bs) (slice 16 24 bs) (drop 24 bs)
    ∙ reassembled bs
  where
    same_pieces :
        {a a' b b' c c' d d' e e' f f' g g' : List ℕ}
        → a ≡ a'
        → b ≡ b'
        → c ≡ c'
        → d ≡ d'
        → e ≡ e'
        → f ≡ f'
        → g ≡ g'
        → assemble a b c d e f g (drop 24 bs) ≡ assemble a' b' c' d' e' f' g' (drop 24 bs)
    same_pieces p q r s t u v = λ i. assemble (p i) (q i) (r i) (s i) (t i) (u i) (v i) (drop 24 bs)

encoded_parts :
    (m : Result FieldError (Unit {0})) (cs bs : List ℕ)
    → (m >> ok cs) ≡ ok bs
    → (m ≡ ok tt) × (cs ≡ bs)
encoded_parts (ok a) cs bs h = (refl, ground arith)
encoded_parts (err e) cs bs h = cc

-- A frame that encodes, whose stream identifier and sequence fit their 32 and 64 bits, decodes from
-- its own encoding to itself.
pub decode-encode :
    (f : Frame) (bs : List ℕ)
    → f.stream_id < 2 ^ 32
    → f.sequence < 2 ^ 64
    → encode_frame f ≡ ok bs
    → decode_frame bs ≡ ok f
unfolding encode_frame
decode-encode f bs hs hq h =
    let (v, e) = encoded_parts (validate_frame_fields f) (frame_header f ++ f.payload) bs h in
    rw (← e) (decode-header f v hs hq)

-- A byte string that decodes is the encoding of the frame that it decodes to: the wire format is
-- canonical, and no two byte strings decode to the same frame.
pub encode-decode :
    (bs : List ℕ) (f : Frame) → IsBytes bs → decode_frame bs ≡ ok f → encode_frame f ≡ ok bs
unfolding encode_frame decoded
encode-decode bs f b h =
    let (c, v, e) = decode-inv bs f h in rw (← e) (rw v (ap ok (header-decoded bs f b h)))
