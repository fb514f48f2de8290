-- ===== src/Resume.antt =====
-- internal/gateway/gateway.go and session.go: an Agent that lost its transport takes its session
-- over on a new one. Only the fields of a session that the decision reads or sets are modelled. The
-- metadata service, the random source, the clock and the connection are what they answer.
pub mod Laws
pub mod Examples
use hooshi_xagent.Contract.{Std, ContractError, parse_utc_time}
use hooshi_xagent.Contract.Transcript.{ResumeSession, verify_resume_signature}
use hooshi_xagent.Base.{
  List, [], ◌∷◌, ℕ, Bool, true, false, not, Option, some, none, Result, ok, err, reject_if, ◌>>◌,
  ◌>>=◌, ltb, ◌==◌, length, if◌then◌else◌, ◌&&◌, ◌||◌, bytes_eq, ◌+◌,
}

pub record Session : Type 0 where
  pub authorized : Bool
  pub resume_armed : Bool
  pub device_id : List ℕ
  pub session_id : List ℕ
  pub authorization_id : List ℕ
  pub token_id : List ℕ
  pub resume_challenge : List ℕ
  pub next_id : ℕ

-- The fields of `DeviceSessionAuthorization` that are read here.
pub record Authorization : Type 0 where
  pub authorization_id : List ℕ
  pub device_id : List ℕ
  pub token_id : List ℕ
  pub device_public_key : List ℕ
  pub disabled : Bool

pub record Env : Type 0 where
  pub std : Std
  pub is_tunnel_subprotocol : Bool
  pub authorization : List ℕ → List ℕ → List ℕ → Option Authorization
  pub random_base64_url : Option (List ℕ)
  pub now : ℕ
  pub resume_acceptance_window : ℕ
  -- The second read of `authorized`, in `resumeInto`.
  pub still_authorized : Bool
  -- Whether the reply could be sent.
  pub sends : Bool

pub data ResumeError : Type 0 where
  resume_unavailable subject_mismatch lookup_failed authorization_mismatch : ResumeError
  authorization_disabled no_randomness send_failed : ResumeError
  refused : ContractError → ResumeError

pub match_resume_challenge : List ℕ → List ℕ → Bool
match_resume_challenge expected presented =
    if length expected == 0 || not (length expected == length presented)
    then false
    else bytes_eq expected presented

pub outside_window : ℕ → ℕ → ℕ → Bool
outside_window now issued window = ltb (issued + window) now || ltb (now + window) issued

pub looked_up : Option Authorization → Result ResumeError Authorization
looked_up none = err lookup_failed
looked_up (some current) = ok current

pub verified : Result ContractError (Unit {0}) → Result ResumeError (Unit {0})
verified (ok u) = ok tt
verified (err e) = err (refused e)

-- A time that is not well formed makes the fast path unavailable.
pub issued : Result ContractError ℕ → Result ResumeError ℕ
issued (ok time) = ok time
issued (err e) = err resume_unavailable

pub generated : Option (List ℕ) → Result ResumeError (List ℕ)
generated none = err no_randomness
generated (some value) = ok value

pub check_record : Env → ResumeSession → Authorization → Result ResumeError (List ℕ)
unfolding verified generated
check_record env resume current =
    reject_if
      (not (
        bytes_eq current.authorization_id resume.authorization_id
        && (bytes_eq current.device_id resume.device_id
            && bytes_eq current.token_id resume.token_id)))
      authorization_mismatch
    >> (reject_if current.disabled authorization_disabled
        >> (verified (verify_resume_signature env.std current.device_public_key resume)
            >> (generated env.random_base64_url >>= λ next_challenge.
                reject_if (not env.still_authorized) resume_unavailable >> ok next_challenge)))

-- What is checked after the slot is consumed and the subject is compared; each refusal of these
-- restores the slot. The result is the next challenge.
pub check_proof : Env → Session → ResumeSession → Result ResumeError (List ℕ)
unfolding outside_window looked_up check_record match_resume_challenge issued
check_proof env existing resume =
    reject_if (not (match_resume_challenge existing.resume_challenge resume.resume_challenge))
      resume_unavailable
    >> (issued (parse_utc_time env.std resume.issued_at) >>= λ issued_at.
        reject_if (outside_window env.now issued_at env.resume_acceptance_window) resume_unavailable
        >> (looked_up (env.authorization resume.authorization_id resume.device_id resume.token_id)
            >>= λ current. check_record env resume current))

-- `resumeInto`, for a session that is still authorized.
pub resume_into : Session → List ℕ → Session
resume_into existing next_challenge = record existing {
  authorized = true;
  resume_armed = true;
  resume_challenge = next_challenge;
}

pub is_subject : Session → ResumeSession → Bool
is_subject existing resume =
    bytes_eq existing.device_id resume.device_id
    && (bytes_eq existing.authorization_id resume.authorization_id
        && bytes_eq existing.token_id resume.token_id)

pub disarmed : Session → Session
disarmed existing = record existing { resume_armed = false }

pub answer : Env → Session → Result ResumeError (List ℕ) → Session × Result ResumeError Session
unfolding resume_into disarmed
answer env existing (err e) = (record (disarmed existing) { resume_armed = true }, err e)
answer env existing (ok next_challenge) =
    if not env.sends
    then (disarmed existing, err send_failed)
    else (disarmed existing, ok (resume_into existing next_challenge))

pub take_slot : Env → Session → ResumeSession → Session × Result ResumeError Session
unfolding answer is_subject disarmed
take_slot env existing resume =
    if not existing.authorized
    then (existing, err resume_unavailable)
    else if not existing.resume_armed
    then (existing, err resume_unavailable)
    else if not (is_subject existing resume)
    then (disarmed existing, err subject_mismatch)
    else answer env existing (check_proof env existing resume)

-- `resumeSession` on the session that the registry holds under the identifiers of the frame: what
-- it is afterwards, and the session on the new transport.
pub resume_session :
    Env → Option Session → ResumeSession → Option Session × Result ResumeError Session
unfolding take_slot
resume_session env none resume = (none, err resume_unavailable)
resume_session env (some existing) resume =
    if not env.is_tunnel_subprotocol
    then (some existing, err resume_unavailable)
    else let (existing', result) = take_slot env existing resume in (some existing', result)
