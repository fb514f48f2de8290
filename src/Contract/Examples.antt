-- ===== src/Contract/Examples.antt =====
-- Transcripts on concrete input.
use hooshi_xagent.Contract.{
  Std, check_decoded, validate_raw_base64_length, parse_utc_time, matches_timestamp, matches_id,
  validate_id,
}
use hooshi_xagent.Contract.Nul.{join}
use hooshi_xagent.Contract.Transcript.{
  ClientHello, ServerChallenge, ResumeSession, validate_ids, transcript_for, resume_checks,
  resume_transcript, auth_checks, auth_transcript,
}
use hooshi_xagent.Contract.Transcript.Injective.{
  EncodesText, resume_transcript_injective, auth_transcript_injective, transcripts_disjoint,
}
use hooshi_xagent.Base.{
  List, [], ◌∷◌, ℕ, true, some, ok, ◌≡◌, length, arith, refl, ap, suc, zero, if◌then◌else◌, ◌==◌,
}

-- One instance of the library: every text but the empty one decodes to the same 32 bytes, and every
-- bytes encode to the same text of 43; the empty text stands for a signature of 64 bytes.
abbrev pub times : ℕ → ℕ → List ℕ
times zero b = []
times (suc n) b = b ∷ times n b

abbrev pub std : Std
std = record {
  raw_url_decode = λ text. some (times (if length text == 0 then 64 else 32) 0);
  raw_url_encode = λ bytes. times 43 b'A';
  parse_rfc3339 = λ text. some 7;
  ed25519_verify = λ key text signature. true;
}

std-EncodesText : EncodesText std
std-EncodesText bytes = ground arith

abbrev pub id : List ℕ
id = b'd' ∷ b'1' ∷ []

abbrev pub issued_at : List ℕ
issued_at =
    b'2' ∷ b'0' ∷ b'2' ∷ b'6' ∷ b'-' ∷ b'0' ∷ b'7' ∷ b'-' ∷ b'0' ∷ b'1' ∷ b'T' ∷ b'1' ∷ b'2' ∷ b':'
    ∷ b'0' ∷ b'0' ∷ b':' ∷ b'0' ∷ b'0' ∷ b'Z' ∷ []

abbrev pub proof : ResumeSession
proof = record {
  device_id = id;
  authorization_id = id;
  token_id = id;
  session_id = id;
  resume_nonce = times 43 b'A';
  resume_challenge = times 43 b'A';
  issued_at = issued_at;
  signature = [];
}

abbrev hello : ClientHello
hello = record {
  device_id = id;
  authorization_id = id;
  token_id = id;
  session_token = [];
  client_nonce = times 43 b'A';
}

abbrev challenge : ServerChallenge
challenge = record { session_id = id; server_nonce = times 43 b'A'; expires_at = [] }

resume_checked : resume_checks std proof ≡ ok tt
unfolding resume_checks validate_ids validate_id validate_raw_base64_length check_decoded
    parse_utc_time matches_timestamp matches_id
resume_checked = refl

resume_signed : ¬ (resume_transcript std proof ≡ [])
unfolding resume_transcript transcript_for join
resume_signed = rw resume_checked (λ h. absurd (omega (arith, ap (λ (l : List ℕ). length l) h)))

auth_checked : auth_checks std hello challenge ≡ ok tt
unfolding auth_checks validate_ids validate_id validate_raw_base64_length check_decoded matches_id
auth_checked = refl

auth_signed : ¬ (auth_transcript std hello challenge ≡ [])
unfolding auth_transcript transcript_for join
auth_signed = rw auth_checked (λ h. absurd (omega (arith, ap (λ (l : List ℕ). length l) h)))

resume_transcript_injective_example :
    (id ≡ id)
    × (id ≡ id)
    × (id ≡ id)
    × (id ≡ id)
    × (times 43 b'A' ≡ times 43 b'A')
    × (times 43 b'A' ≡ times 43 b'A')
    × (issued_at ≡ issued_at)
resume_transcript_injective_example =
    resume_transcript_injective std proof proof std-EncodesText resume_signed refl

auth_transcript_injective_example :
    (id ≡ id)
    × (id ≡ id)
    × (id ≡ id)
    × (id ≡ id)
    × (times 43 b'A' ≡ times 43 b'A')
    × (times 43 b'A' ≡ times 43 b'A')
auth_transcript_injective_example =
    auth_transcript_injective std hello hello challenge challenge std-EncodesText auth_signed refl

-- Identifiers that the pattern refuses: nothing is signed for either message.
abbrev no_proof : ResumeSession
no_proof = record proof { device_id = [] }

abbrev no_challenge : ServerChallenge
no_challenge = record challenge { session_id = [] }

both_nil : auth_transcript std hello no_challenge ≡ resume_transcript std no_proof
unfolding auth_transcript resume_transcript transcript_for auth_checks resume_checks validate_ids
    validate_id matches_id
both_nil = refl

transcripts_disjoint_example : auth_transcript std hello no_challenge ≡ []
transcripts_disjoint_example = transcripts_disjoint std hello no_challenge no_proof both_nil
