-- ===== src/Resume/Laws.antt =====
-- internal/gateway/gateway.go: what an accepted resume has proved, and that its frame is spent.
use hooshi_xagent.Contract.{ContractError, parse_utc_time}
use hooshi_xagent.Contract.Transcript.{ResumeSession, verify_resume_signature}
use hooshi_xagent.Resume.{
  Session, Authorization, Env, match_resume_challenge, outside_window, looked_up, verified, issued,
  generated, check_record, check_proof, ResumeError, disarmed, answer, take_slot, resume_session,
  resume_unavailable, is_subject, resume_into, subject_mismatch, send_failed,
}
use hooshi_xagent.Base.{
  List, [], ◌∷◌, ℕ, Bool, true, false, not, Option, some, none, Result, ok, err, length, ◌+◌, ◌≡◌,
  ◌≤◌, arith, refl, >>=-eq-ok, reject_if-eq-ok, bytes_eq_sound, ap, if_cases, sym, ◌∙◌, Bool-cases,
  inl, inr, subst, ◌⊎◌,
}
use mathlib.Core.Bool.{true≢false}

-- What holds of the frame and the session where the proof is accepted.
pub record IsProved (env : Env) (existing : Session) (resume : ResumeSession) (next : List ℕ)
    : Type 0 where
  pub challenge : existing.resume_challenge ≡ resume.resume_challenge
  pub challenge_given : ¬ (existing.resume_challenge ≡ [])
  pub issued_at : ℕ
  pub parsed : parse_utc_time env.std resume.issued_at ≡ ok issued_at
  pub fresh :
      (issued_at ≤ env.now + env.resume_acceptance_window)
      × (env.now ≤ issued_at + env.resume_acceptance_window)
  pub current : Authorization
  pub found :
      env.authorization resume.authorization_id resume.device_id resume.token_id ≡ some current
  pub enabled : current.disabled ≡ false
  pub signed : verify_resume_signature env.std current.device_public_key resume ≡ ok tt
  pub generates : env.random_base64_url ≡ some next

matched :
    (expected presented : List ℕ)
    → match_resume_challenge expected presented ≡ true
    → (expected ≡ presented) × ¬ (expected ≡ [])
unfolding match_resume_challenge
matched [] presented = λ h. absurd (true≢false (sym h))
matched (b ∷ bs) presented =
    if_cases (λ r. r ≡ true → (b ∷ bs ≡ presented) × ¬ (b ∷ bs ≡ [])) _
      (λ e h. absurd (true≢false (sym h)))
      (λ e h. (bytes_eq_sound _ _ h, λ z. absurd (omega (arith, ap (λ (l : List ℕ). length l) z))))

within :
    (now at window : ℕ)
    → outside_window now at window ≡ false
    → (at ≤ now + window) × (now ≤ at + window)
unfolding outside_window
within now at window h = (ground arith, ground arith)

looked_up-eq-ok : (x : Option Authorization) (a : Authorization) → looked_up x ≡ ok a → x ≡ some a
unfolding looked_up
looked_up-eq-ok none a h = cc
looked_up-eq-ok (some b) a h = cc

verified-eq-ok :
    (x : Result ContractError (Unit {0})) {u : Unit {0}} → verified x ≡ ok u → x ≡ ok tt
unfolding verified
verified-eq-ok (ok u) h = refl
verified-eq-ok (err e) h = cc

issued-eq-ok : (x : Result ContractError ℕ) (t : ℕ) → issued x ≡ ok t → x ≡ ok t
unfolding issued
issued-eq-ok (ok u) t h = cc
issued-eq-ok (err e) t h = cc

generated-eq-ok : (x : Option (List ℕ)) (v : List ℕ) → generated x ≡ ok v → x ≡ some v
unfolding generated
generated-eq-ok none v h = cc
generated-eq-ok (some w) v h = cc

not-false : (b : Bool) → not b ≡ false → b ≡ true
not-false true h = refl
not-false false h = sym h

check_record-eq-ok :
    (env : Env) (resume : ResumeSession) (current : Authorization) (next : List ℕ)
    → check_record env resume current ≡ ok next
    → (current.disabled ≡ false)
      × (verify_resume_signature env.std current.device_public_key resume ≡ ok tt)
      × (env.random_base64_url ≡ some next)
unfolding check_record
check_record-eq-ok env resume current next h =
    let (_, h1) = reject_if-eq-ok _ _ _ h in
    let (a, h2) = reject_if-eq-ok current.disabled _ _ h1 in
    let (_, b, h3) =
      >>=-eq-ok (verified (verify_resume_signature env.std current.device_public_key resume)) _
        h2 in
    let (v, c, h4) = >>=-eq-ok (generated env.random_base64_url) _ h3 in
    let (_, d) = reject_if-eq-ok (not env.still_authorized) _ _ h4 in
    (a, verified-eq-ok _ b, generated-eq-ok _ next (c ∙ d))

check_proof-eq-ok :
    (env : Env) (existing : Session) (resume : ResumeSession) (next : List ℕ)
    → check_proof env existing resume ≡ ok next
    → IsProved env existing resume next
unfolding check_proof
check_proof-eq-ok env existing resume next h =
    let (a, h1) =
      reject_if-eq-ok
        (not (match_resume_challenge existing.resume_challenge resume.resume_challenge)) _ _ h in
    let (t, b, h2) = >>=-eq-ok (issued (parse_utc_time env.std resume.issued_at)) _ h1 in
    let (c, h3) = reject_if-eq-ok (outside_window env.now t env.resume_acceptance_window) _ _ h2 in
    let (current, d, h4) =
      >>=-eq-ok
        (looked_up (env.authorization resume.authorization_id resume.device_id resume.token_id))
        (λ current. check_record env resume current) h3 in
    let (e, f, g) = check_record-eq-ok env resume current next h4 in
    let (i, j) = matched _ _ (not-false _ a) in
    record {
      challenge = i;
      challenge_given = j;
      issued_at = t;
      parsed = issued-eq-ok _ t b;
      fresh = within env.now t env.resume_acceptance_window c;
      current = current;
      found = looked_up-eq-ok _ current d;
      enabled = e;
      signed = f;
      generates = g;
    }

-- What an attempt to resume leads to.
abbrev pub Resumes : Env → Session → ResumeSession → Session × Result ResumeError Session → Type 0
Resumes env existing resume (existing', ok resumed) =
    IsProved env existing resume resumed.resume_challenge
    × (existing.authorized ≡ true)
    × (existing.resume_armed ≡ true)
    × (is_subject existing resume ≡ true)
    × (existing' ≡ disarmed existing)
    × (resumed ≡ resume_into existing resumed.resume_challenge)
Resumes env existing resume (existing', err e) =
    (existing' ≡ existing)
    ⊎ ((existing' ≡ disarmed existing) × ((e ≡ subject_mismatch) ⊎ (e ≡ send_failed)))

rearmed :
    (existing : Session)
    → existing.resume_armed ≡ true
    → record (disarmed existing) { resume_armed = true } ≡ existing
unfolding disarmed
rearmed existing h = ap (λ b. record existing { resume_armed = b }) (sym h)

answer_lem :
    (env : Env) (existing : Session) (resume : ResumeSession) (result : Result ResumeError (List ℕ))
    → check_proof env existing resume ≡ result
    → existing.authorized ≡ true
    → existing.resume_armed ≡ true
    → is_subject existing resume ≡ true
    → Resumes env existing resume (answer env existing result)
unfolding answer resume_into
answer_lem env existing resume (err e) h a b c = inl (rearmed existing b)
answer_lem env existing resume (ok next) h a b c =
    if_cases (Resumes env existing resume) (not env.sends) (λ _. inr (refl, inr refl))
      (λ _. (check_proof-eq-ok env existing resume next h, a, b, c, refl, refl))

take_slot_lem :
    (env : Env) (existing : Session) (resume : ResumeSession)
    → Resumes env existing resume (take_slot env existing resume)
unfolding take_slot
take_slot_lem env existing resume =
    if_cases (Resumes env existing resume) (not existing.authorized) (λ _. inl refl)
      (λ a.
        if_cases (Resumes env existing resume) (not existing.resume_armed) (λ _. inl refl)
          (λ b.
            if_cases (Resumes env existing resume) (not (is_subject existing resume))
              (λ _. inr (refl, inl refl))
              (λ c.
                answer_lem env existing resume _ refl (not-false _ a) (not-false _ b)
                  (not-false _ c))))

abbrev pub ResumesFound :
    Env → Session → ResumeSession → Option Session × Result ResumeError Session → Type 0
ResumesFound env existing resume (some existing', result) =
    Resumes env existing resume (existing', result)
ResumesFound env existing resume (none, result) = ⊥

-- A resume is accepted only on an authorized session whose slot is armed, for its own subject, with
-- the challenge that was issued to it, a time within the window, a current authorization that is
-- enabled, and a signature over all of it; then the old session is disarmed and the new one has its
-- identity, its stream counter, a fresh challenge and an armed slot. A refusal leaves the session as
-- it was, except that a foreign subject or a reply that cannot be sent leaves it disarmed.
pub resume_session_lem :
    (env : Env) (existing : Session) (resume : ResumeSession)
    → ResumesFound env existing resume (resume_session env (some existing) resume)
unfolding resume_session
resume_session_lem env existing resume =
    if_cases (ResumesFound env existing resume) (not env.is_tunnel_subprotocol) (λ _. inl refl)
      (λ _. take_slot_lem env existing resume)

unmatched : (a b : List ℕ) → ¬ (a ≡ b) → match_resume_challenge a b ≡ false
unmatched a b n = elim (Bool-cases (match_resume_challenge a b)) [
  | inl h ↦ absurd (n (matched a b h).0)
  | inr h ↦ h
]

stale :
    (env : Env) (session : Session) (resume : ResumeSession)
    → ¬ (session.resume_challenge ≡ resume.resume_challenge)
    → check_proof env session resume ≡ err resume_unavailable
unfolding check_proof
stale env session resume n = rw (unmatched session.resume_challenge resume.resume_challenge n) refl

not-true : (b : Bool) → b ≡ true → ¬ (not b ≡ true)
not-true b e h = true≢false (sym h ∙ ap not e)

answer_stale :
    (env : Env) (session : Session)
    → session.resume_armed ≡ true
    → answer env session (err resume_unavailable) ≡ (session, err resume_unavailable)
unfolding answer
answer_stale env session b = ap (λ (s : Session). (s, err resume_unavailable)) (rearmed session b)

-- With another challenge and the same subject nothing is accepted, and nothing changes.
refused_lem :
    (env : Env) (session : Session) (resume : ResumeSession)
    → session.authorized ≡ true
    → session.resume_armed ≡ true
    → is_subject session resume ≡ true
    → ¬ (session.resume_challenge ≡ resume.resume_challenge)
    → take_slot env session resume ≡ (session, err resume_unavailable)
unfolding take_slot
refused_lem env session resume a b c n =
    if_cases (λ r. r ≡ (session, err resume_unavailable)) (not session.authorized)
      (λ e. absurd (not-true _ a e))
      (λ _.
        if_cases (λ r. r ≡ (session, err resume_unavailable)) (not session.resume_armed)
          (λ e. absurd (not-true _ b e))
          (λ _.
            if_cases (λ r. r ≡ (session, err resume_unavailable)) (not (is_subject session resume))
              (λ e. absurd (not-true _ c e))
              (λ _.
                ap (answer env session) (stale env session resume n) ∙ answer_stale env session b)))

spent_lem :
    (env : Env) (session : Session) (resume : ResumeSession)
    → session.resume_armed ≡ false
    → take_slot env session resume ≡ (session, err resume_unavailable)
unfolding take_slot
spent_lem env session resume b =
    if_cases (λ r. r ≡ (session, err resume_unavailable)) (not session.authorized) (λ _. refl)
      (λ _.
        if_cases (λ r. r ≡ (session, err resume_unavailable)) (not session.resume_armed) (λ _. refl)
          (λ e. absurd (true≢false (sym (not-false _ e) ∙ b))))

found_refused :
    (env : Env) (session : Session) (resume : ResumeSession)
    → take_slot env session resume ≡ (session, err resume_unavailable)
    → resume_session env (some session) resume ≡ (some session, err resume_unavailable)
unfolding resume_session
found_refused env session resume h =
    if_cases (λ r. r ≡ (some session, err resume_unavailable)) (not env.is_tunnel_subprotocol)
      (λ _. refl) (λ _. ap (λ (r : Session × Result ResumeError Session). (some r.0, r.1)) h)

resumed_subject :
    (existing : Session) (next : List ℕ) (resume : ResumeSession)
    → (is_subject (resume_into existing next) resume ≡ is_subject existing resume)
      × ((resume_into existing next).authorized ≡ true)
      × ((resume_into existing next).resume_armed ≡ true)
      × ((disarmed existing).resume_armed ≡ false)
unfolding resume_into is_subject disarmed
resumed_subject existing next resume = (refl, refl, refl, refl)

-- The frame of an accepted resume is spent: whatever the circumstances, on the new session it is
-- refused, as long as the fresh challenge differs from the one it carries, and changes nothing; and
-- on the old session it is refused too.
pub no_replay :
    (env env' : Env) (existing existing' resumed : Session) (resume : ResumeSession)
    → resume_session env (some existing) resume ≡ (some existing', ok resumed)
    → ¬ (resumed.resume_challenge ≡ resume.resume_challenge)
    → (resume_session env' (some resumed) resume ≡ (some resumed, err resume_unavailable))
      × (resume_session env' (some existing') resume ≡ (some existing', err resume_unavailable))
no_replay env env' existing existing' resumed resume h n =
    let (_, _, _, subject, old, new) =
      subst (ResumesFound env existing resume) h (resume_session_lem env existing resume) in
    let (a, b, c, d) = resumed_subject existing resumed.resume_challenge resume in
    (
      found_refused env' resumed resume (
          refused_lem env' resumed resume (ap (λ (s : Session). s.authorized) new ∙ b)
            (ap (λ (s : Session). s.resume_armed) new ∙ c)
            (ap (λ (s : Session). is_subject s resume) new ∙ (a ∙ subject)) n),
      found_refused env' existing' resume
          (spent_lem env' existing' resume (ap (λ (s : Session). s.resume_armed) old ∙ d)),
    )
