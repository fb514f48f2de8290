-- ===== src/Contract/Transcript.antt =====
-- internal/contractv1/validation.go: the byte strings that an Agent signs, and their verification.
-- A transcript of refused inputs is nil, the empty list.
pub mod Injective
use hooshi_xagent.Contract.{
  Std, ContractError, invalid_public_key, invalid_signature, session_mismatch, invalid_inputs,
  not_verified, invalid_id, invalid_base64, not_canonical, matches_id, matches_timestamp,
  validate_id, validate_raw_base64_length, parse_utc_time,
}
use hooshi_xagent.Contract.Nul.{
  IsNulFree, join, SameAll, join_injective, first_injective, matches_id-IsNulFree,
  matches_timestamp-IsNulFree,
}
use hooshi_xagent.Base.{
  List, [], ◌∷◌, ◌++◌, ℕ, Bool, true, false, not, Option, some, none, Result, ok, err, reject_if,
  ◌>>◌, ◌>>=◌, ◌≡◌, ◌≤◌, length, arith, refl, All, ◌==◌, if◌then◌else◌, bytes_eq, >>=-eq-ok,
}

pub record ClientHello : Type 0 where
  pub device_id : List ℕ
  pub authorization_id : List ℕ
  pub token_id : List ℕ
  pub session_token : List ℕ
  pub client_nonce : List ℕ

pub record ServerChallenge : Type 0 where
  pub session_id : List ℕ
  pub server_nonce : List ℕ
  pub expires_at : List ℕ

pub record ClientAuth : Type 0 where
  pub session_id : List ℕ
  pub signature : List ℕ

pub record ResumeSession : Type 0 where
  pub device_id : List ℕ
  pub authorization_id : List ℕ
  pub token_id : List ℕ
  pub session_id : List ℕ
  pub resume_nonce : List ℕ
  pub resume_challenge : List ℕ
  pub issued_at : List ℕ
  pub signature : List ℕ

-- "HXT1-RESUME" and "HXT1-AUTH"
abbrev pub resume_prefix : List ℕ
resume_prefix = b'H' ∷ b'X' ∷ b'T' ∷ b'1' ∷ b'-' ∷ b'R' ∷ b'E' ∷ b'S' ∷ b'U' ∷ b'M' ∷ b'E' ∷ []

abbrev pub auth_prefix : List ℕ
auth_prefix = b'H' ∷ b'X' ∷ b'T' ∷ b'1' ∷ b'-' ∷ b'A' ∷ b'U' ∷ b'T' ∷ b'H' ∷ []

unfoldable pub validate_ids : List (List ℕ) → Result ContractError (Unit {0})
validate_ids [] = ok tt
validate_ids (value ∷ rest) = validate_id value >> validate_ids rest

-- `transcriptFor`, with nil for an error.
unfoldable pub transcript_for : List ℕ → List (List ℕ) → Result ContractError (Unit {0}) → List ℕ
transcript_for prefix components (err e) = []
transcript_for prefix components (ok _) = join prefix components

unfoldable pub resume_checks : Std → ResumeSession → Result ContractError (Unit {0})
unfolding validate_ids
resume_checks std r =
    validate_ids (r.device_id ∷ r.authorization_id ∷ r.token_id ∷ r.session_id ∷ [])
    >> (validate_raw_base64_length std r.resume_nonce 32
        >> (validate_raw_base64_length std r.resume_challenge 32
            >> (parse_utc_time std r.issued_at >>= λ _. ok tt)))

unfoldable pub resume_transcript : Std → ResumeSession → List ℕ
unfolding resume_checks transcript_for
resume_transcript std r =
    transcript_for resume_prefix
      (r.device_id ∷ r.authorization_id ∷ r.token_id ∷ r.session_id ∷ r.resume_nonce
        ∷ r.resume_challenge ∷ r.issued_at ∷ [])
      (resume_checks std r)

unfoldable pub auth_checks : Std → ClientHello → ServerChallenge → Result ContractError (Unit {0})
unfolding validate_ids
auth_checks std hello challenge =
    validate_ids
      (challenge.session_id ∷ hello.device_id ∷ hello.authorization_id ∷ hello.token_id ∷ [])
    >> (validate_raw_base64_length std hello.client_nonce 32
        >> validate_raw_base64_length std challenge.server_nonce 32)

unfoldable pub auth_transcript : Std → ClientHello → ServerChallenge → List ℕ
unfolding auth_checks transcript_for
auth_transcript std hello challenge =
    transcript_for auth_prefix
      (challenge.session_id ∷ hello.device_id ∷ hello.authorization_id ∷ hello.token_id
        ∷ hello.client_nonce ∷ challenge.server_nonce ∷ [])
      (auth_checks std hello challenge)

-- A decoded value of exactly `size` bytes.
unfoldable pub decode_exactly : Std → List ℕ → ℕ → Option (List ℕ)
decode_exactly std value size = elim (std.raw_url_decode value) [
  | none ↦ none
  | some decoded ↦ if length decoded == size then some decoded else none
]

-- The end of both verifications.
unfoldable pub verify_transcript : Std → List ℕ → List ℕ → List ℕ → Result ContractError (Unit {0})
verify_transcript std public_key transcript signature =
    if length transcript == 0
    then err invalid_inputs
    else reject_if (not (std.ed25519_verify public_key transcript signature)) not_verified

unfoldable pub verify_resume_signature :
    Std → List ℕ → ResumeSession → Result ContractError (Unit {0})
unfolding decode_exactly verify_transcript resume_transcript
verify_resume_signature std public_key_base64 r = elim (decode_exactly std public_key_base64 32) [
  | none ↦ err invalid_public_key
  | some public_key ↦ elim (decode_exactly std r.signature 64) [
    | none ↦ err invalid_signature
    | some signature ↦ verify_transcript std public_key (resume_transcript std r) signature
  ]
]

pub verify_client_auth_signature :
    Std → List ℕ → ClientHello → ServerChallenge → ClientAuth → Result ContractError (Unit {0})
unfolding decode_exactly verify_transcript auth_transcript
verify_client_auth_signature std public_key_base64 hello challenge auth =
    elim (decode_exactly std public_key_base64 32) [
      | none ↦ err invalid_public_key
      | some public_key ↦ elim (decode_exactly std auth.signature 64) [
        | none ↦ err invalid_signature
        | some signature ↦
            if not (bytes_eq auth.session_id challenge.session_id)
            then err session_mismatch
            else verify_transcript std public_key (auth_transcript std hello challenge) signature
      ]
    ]
