-- ===== src/Contract/Transcript/Injective.antt =====
-- internal/contractv1/validation.go: what is signed determines what it was signed for.
use hooshi_xagent.Contract.{
  check_decoded, Std, ContractError, validate_id, validate_raw_base64_length, parse_utc_time,
  matches_id, matches_timestamp,
}
use hooshi_xagent.Contract.Nul.{
  IsNulFree, join, join_injective, first_injective, matches_id-IsNulFree,
  matches_timestamp-IsNulFree,
}
use hooshi_xagent.Contract.Transcript.{
  ClientHello, ServerChallenge, ResumeSession, resume_prefix, auth_prefix, validate_ids,
  transcript_for, resume_checks, resume_transcript, auth_checks, auth_transcript,
}
use hooshi_xagent.Base.{
  List, [], ◌∷◌, ℕ, Bool, true, false, not, Option, some, none, Result, ok, err, reject_if, ◌≡◌,
  length, arith, refl, All, ◌==◌, >>=-eq-ok, ap, bytes_eq_sound, inl, inr, reject_if-eq-ok, subst,
  sym, ◌∙◌, ◌⊎◌,
}

-- encoding/base64: the output is in the alphabet, which has no NUL.
abbrev pub EncodesText : Std → Type 0
EncodesText std = (bytes : List ℕ) → IsNulFree (std.raw_url_encode bytes)

validate_id-IsNulFree : (value : List ℕ) → validate_id value ≡ ok tt → IsNulFree value
unfolding validate_id
validate_id-IsNulFree value h = matches_id-IsNulFree value (kept (matches_id value) h)
  where
    kept : (b : Bool) → reject_if (not b) ContractError.invalid_id ≡ ok tt → b ≡ true
    kept true h = refl
    kept false h = cc

validate_ids-IsNulFree :
    (values : List (List ℕ)) → validate_ids values ≡ ok tt → All IsNulFree values
unfolding validate_ids
validate_ids-IsNulFree [] h = tt
validate_ids-IsNulFree (value ∷ rest) h =
    let (a, b, c) = >>=-eq-ok (validate_id value) (λ _. validate_ids rest) h in
    (validate_id-IsNulFree value b, validate_ids-IsNulFree rest c)

passes : (b : Bool) (e : ContractError) → reject_if (not b) e ≡ ok tt → b ≡ true
passes true e h = refl
passes false e h = cc

decoded-IsNulFree :
    (std : Std) (value : List ℕ) (size : ℕ) (decoded : Option (List ℕ))
    → EncodesText std
    → check_decoded std value size decoded ≡ ok tt
    → IsNulFree value
unfolding check_decoded
decoded-IsNulFree std value size none text h = cc
decoded-IsNulFree std value size (some decoded) text h =
    let (_, r) = reject_if-eq-ok (not (length decoded == size)) _ _ h in
    subst IsNulFree (bytes_eq_sound _ _ (passes _ _ r)) (text decoded)

base64-IsNulFree :
    (std : Std) (value : List ℕ) (size : ℕ)
    → EncodesText std
    → validate_raw_base64_length std value size ≡ ok tt
    → IsNulFree value
unfolding validate_raw_base64_length
base64-IsNulFree std value size text h = decoded-IsNulFree std value size _ text h

time-IsNulFree :
    (std : Std) (value : List ℕ) (time : ℕ) → parse_utc_time std value ≡ ok time → IsNulFree value
unfolding parse_utc_time
time-IsNulFree std value time h =
    let (a, _) = reject_if-eq-ok (not (matches_timestamp value)) _ _ h in
    matches_timestamp-IsNulFree value (ground (arith, a))

transcript_for_cases :
    (prefix : List ℕ) (components : List (List ℕ)) (checks : Result ContractError (Unit {0}))
    → ¬ (transcript_for prefix components checks ≡ [])
    → (checks ≡ ok tt) × (transcript_for prefix components checks ≡ join prefix components)
unfolding transcript_for
transcript_for_cases prefix components (ok u) n = (refl, refl)
transcript_for_cases prefix components (err e) n = absurd (n refl)

resume_parts : ResumeSession → List (List ℕ)
resume_parts r =
    r.authorization_id ∷ r.token_id ∷ r.session_id ∷ r.resume_nonce ∷ r.resume_challenge
    ∷ r.issued_at ∷ []

resume_checks-IsNulFree :
    (std : Std) (r : ResumeSession)
    → EncodesText std
    → resume_checks std r ≡ ok tt
    → All IsNulFree (r.device_id ∷ resume_parts r)
unfolding resume_checks resume_parts
resume_checks-IsNulFree std r text h =
    let (_, ids, h1) =
      >>=-eq-ok (validate_ids (r.device_id ∷ r.authorization_id ∷ r.token_id ∷ r.session_id ∷ [])) _
        h in
    let (_, nonce, h2) = >>=-eq-ok (validate_raw_base64_length std r.resume_nonce 32) _ h1 in
    let (_, challenge, h3) =
      >>=-eq-ok (validate_raw_base64_length std r.resume_challenge 32) _ h2 in
    let (t, time, _) = >>=-eq-ok (parse_utc_time std r.issued_at) (λ _. ok tt) h3 in
    let (a, (b, (c, (d, _)))) =
      validate_ids-IsNulFree (r.device_id ∷ r.authorization_id ∷ r.token_id ∷ r.session_id ∷ [])
        ids in
    (
      a,
      (
        b,
        (
          c,
          (
            d,
            (
              base64-IsNulFree std r.resume_nonce 32 text nonce,
              (
                base64-IsNulFree std r.resume_challenge 32 text challenge,
                (time-IsNulFree std r.issued_at t time, tt),
              ),
            ),
          ),
        ),
      ),
    )

auth_parts : ClientHello → ServerChallenge → List (List ℕ)
auth_parts hello challenge =
    hello.device_id ∷ hello.authorization_id ∷ hello.token_id ∷ hello.client_nonce
    ∷ challenge.server_nonce ∷ []

auth_checks-IsNulFree :
    (std : Std) (hello : ClientHello) (challenge : ServerChallenge)
    → EncodesText std
    → auth_checks std hello challenge ≡ ok tt
    → All IsNulFree (challenge.session_id ∷ auth_parts hello challenge)
unfolding auth_checks auth_parts
auth_checks-IsNulFree std hello challenge text h =
    let (_, ids, h1) =
      >>=-eq-ok
        (validate_ids
          (challenge.session_id ∷ hello.device_id ∷ hello.authorization_id ∷ hello.token_id ∷ []))
        _ h in
    let (_, client, server) =
      >>=-eq-ok (validate_raw_base64_length std hello.client_nonce 32) _ h1 in
    let (a, (b, (c, (d, _)))) =
      validate_ids-IsNulFree
        (challenge.session_id ∷ hello.device_id ∷ hello.authorization_id ∷ hello.token_id ∷ [])
        ids in
    (
      a,
      (
        b,
        (
          c,
          (
            d,
            (
              base64-IsNulFree std hello.client_nonce 32 text client,
              (base64-IsNulFree std challenge.server_nonce 32 text server, tt),
            ),
          ),
        ),
      ),
    )

prefixes-IsNulFree : IsNulFree resume_prefix × IsNulFree auth_prefix
prefixes-IsNulFree = (ground arith, ground arith)

-- Two resume proofs that give the same bytes to sign, other than nil, are for the same device,
-- authorization, token, session, nonce, challenge and time. Base64 output is taken to have no NUL.
pub resume_transcript_injective :
    (std : Std) (r s : ResumeSession)
    → EncodesText std
    → ¬ (resume_transcript std r ≡ [])
    → resume_transcript std r ≡ resume_transcript std s
    → (r.device_id ≡ s.device_id)
      × (r.authorization_id ≡ s.authorization_id)
      × (r.token_id ≡ s.token_id)
      × (r.session_id ≡ s.session_id)
      × (r.resume_nonce ≡ s.resume_nonce)
      × (r.resume_challenge ≡ s.resume_challenge)
      × (r.issued_at ≡ s.issued_at)
unfolding resume_transcript resume_parts
resume_transcript_injective std r s text n e =
    let (a, b) =
      transcript_for_cases resume_prefix (r.device_id ∷ resume_parts r) (resume_checks std r) n in
    let (c, d) =
      transcript_for_cases resume_prefix (s.device_id ∷ resume_parts s) (resume_checks std s)
        (λ z. n (e ∙ z)) in
    let (_, (f, (g, (h, (i, (j, (k, l))))))) =
      join_injective resume_prefix resume_prefix (r.device_id ∷ resume_parts r)
        (s.device_id ∷ resume_parts s) prefixes-IsNulFree.0 prefixes-IsNulFree.0
        (resume_checks-IsNulFree std r text a) (resume_checks-IsNulFree std s text c)
        (sym b ∙ (e ∙ d)) in
    (f, g, h, i, j, k, l)

-- Two handshakes that give the same bytes to sign, other than nil, are for the same session,
-- device, authorization, token and nonces. Base64 output is taken to have no NUL.
pub auth_transcript_injective :
    (std : Std) (hello hello' : ClientHello) (challenge challenge' : ServerChallenge)
    → EncodesText std
    → ¬ (auth_transcript std hello challenge ≡ [])
    → auth_transcript std hello challenge ≡ auth_transcript std hello' challenge'
    → (challenge.session_id ≡ challenge'.session_id)
      × (hello.device_id ≡ hello'.device_id)
      × (hello.authorization_id ≡ hello'.authorization_id)
      × (hello.token_id ≡ hello'.token_id)
      × (hello.client_nonce ≡ hello'.client_nonce)
      × (challenge.server_nonce ≡ challenge'.server_nonce)
unfolding auth_transcript auth_parts
auth_transcript_injective std hello hello' challenge challenge' text n e =
    let (a, b) =
      transcript_for_cases auth_prefix (challenge.session_id ∷ auth_parts hello challenge)
        (auth_checks std hello challenge) n in
    let (c, d) =
      transcript_for_cases auth_prefix (challenge'.session_id ∷ auth_parts hello' challenge')
        (auth_checks std hello' challenge') (λ z. n (e ∙ z)) in
    let (_, (f, (g, (h, (i, (j, k)))))) =
      join_injective auth_prefix auth_prefix (challenge.session_id ∷ auth_parts hello challenge)
        (challenge'.session_id ∷ auth_parts hello' challenge') prefixes-IsNulFree.1
        prefixes-IsNulFree.1 (auth_checks-IsNulFree std hello challenge text a)
        (auth_checks-IsNulFree std hello' challenge' text c) (sym b ∙ (e ∙ d)) in
    (f, g, h, i, j, k)

nil_or : (xs : List ℕ) → (xs ≡ []) ⊎ ¬ (xs ≡ [])
nil_or [] = inl refl
nil_or (x ∷ xs) = inr (λ h. absurd (omega (arith, ap (λ (l : List ℕ). length l) h)))

prefixes_differ : ¬ (auth_prefix ≡ resume_prefix)
prefixes_differ h = absurd (omega (arith, ap (λ (l : List ℕ). length l) h))

-- A handshake and a resume never give the same bytes to sign, other than nil, which is the transcript
-- of a message that is not well formed.
pub transcripts_disjoint :
    (std : Std) (hello : ClientHello) (challenge : ServerChallenge) (r : ResumeSession)
    → auth_transcript std hello challenge ≡ resume_transcript std r
    → auth_transcript std hello challenge ≡ []
unfolding auth_transcript resume_transcript auth_parts resume_parts
transcripts_disjoint std hello challenge r e = elim (nil_or (auth_transcript std hello challenge)) [
  | inl z ↦ z
  | inr n ↦
      let (a, b) =
        transcript_for_cases auth_prefix (challenge.session_id ∷ auth_parts hello challenge)
          (auth_checks std hello challenge) n in
      let (c, d) =
        transcript_for_cases resume_prefix (r.device_id ∷ resume_parts r) (resume_checks std r)
          (λ z. n (e ∙ z)) in
      absurd (
        prefixes_differ (
          first_injective auth_prefix challenge.session_id resume_prefix r.device_id
            (auth_parts hello challenge) (resume_parts r) prefixes-IsNulFree.1 prefixes-IsNulFree.0
            (sym b ∙ (e ∙ d))))
]
