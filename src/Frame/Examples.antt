-- ===== src/Frame/Examples.antt =====
-- Runs of the frame codec and the sequence rule on concrete input.
use hooshi_xagent.Frame.{Frame, encode_frame, decode_frame, accept}
use hooshi_xagent.Frame.RoundTrip.{decode-encode, encode-decode}
use hooshi_xagent.Frame.Sequence.{accept_all, accept_all-eq-ok}
use hooshi_xagent.Base.{List, ◌≡◌, ℕ, ok, arith, [], refl, ◌-◌, ◌^◌, ◌∷◌, ◌≤◌}
use hooshi_xagent.Frame.Bytes.{put_be}

abbrev hello : Frame
hello = record { kind = 2; stream_id = 7; sequence = 258; payload = b'h' ∷ b'i' ∷ [] }

abbrev hello_bytes : List ℕ
hello_bytes =
    b'H' ∷ b'X' ∷ b'T' ∷ b'1' ∷ 1 ∷ 2 ∷ 0 ∷ 0 ∷ 0 ∷ 0 ∷ 0 ∷ 7 ∷ 0 ∷ 0 ∷ 0 ∷ 2 ∷ 0 ∷ 0 ∷ 0 ∷ 0 ∷ 0
    ∷ 0 ∷ 1 ∷ 2 ∷ b'h' ∷ b'i' ∷ []

hello_encoded : encode_frame hello ≡ ok hello_bytes
unfolding encode_frame put_be
hello_encoded = refl

decode-encode_example : decode_frame hello_bytes ≡ ok hello
decode-encode_example = decode-encode hello hello_bytes (omega arith) (omega arith) hello_encoded

encode-decode_example : encode_frame hello ≡ ok hello_bytes
encode-decode_example = encode-decode hello_bytes hello (omega arith) decode-encode_example

three_frames : accept_all 4 (5 ∷ 6 ∷ 7 ∷ []) ≡ ok 7
unfolding accept_all accept
three_frames = refl

accept_all-eq-ok_example :
    (◌≡◌ {A = List ℕ} (5 ∷ 6 ∷ 7 ∷ []) (5 ∷ 6 ∷ 7 ∷ [])) × (◌≡◌ {A = ℕ} 7 7) × (7 ≤ 2 ^ 64 - 1)
accept_all-eq-ok_example = accept_all-eq-ok 4 (5 ∷ 6 ∷ 7 ∷ []) 7 (omega arith) three_frames
