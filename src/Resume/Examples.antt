-- ===== src/Resume/Examples.antt =====
-- A resume on concrete input.
use hooshi_xagent.Contract.{parse_utc_time, validate_id, validate_raw_base64_length}
use hooshi_xagent.Contract.Nul.{join}
use hooshi_xagent.Contract.Transcript.{verify_resume_signature}
use hooshi_xagent.Contract.Examples.{std, proof, times, id}
use hooshi_xagent.Resume.{
  Session, Env, resume_unavailable, resume_session, take_slot, answer, check_proof, check_record,
  match_resume_challenge, outside_window, looked_up, verified, issued, generated, is_subject,
  disarmed, resume_into,
}
use hooshi_xagent.Resume.Laws.{ResumesFound, resume_session_lem, no_replay}
use hooshi_xagent.Base.{List, [], ◌∷◌, ℕ, true, false, some, ok, err, ◌≡◌, arith, refl, ap}

abbrev env : Env
env = record {
  std = std;
  is_tunnel_subprotocol = true;
  authorization = λ a d t. some (record {
    authorization_id = a;
    device_id = d;
    token_id = t;
    device_public_key = times 43 b'A';
    disabled = false;
  });
  random_base64_url = some (times 43 b'B');
  now = 9;
  resume_acceptance_window = 5;
  still_authorized = true;
  sends = true;
}

abbrev session : Session
session = record {
  authorized = true;
  resume_armed = true;
  device_id = id;
  session_id = id;
  authorization_id = id;
  token_id = id;
  resume_challenge = times 43 b'A';
  next_id = 12;
}

resume_session_lem_example :
    ResumesFound env session proof (resume_session env (some session) proof)
resume_session_lem_example = resume_session_lem env session proof

abbrev spent : Session
spent = record session { resume_armed = false }

abbrev resumed : Session
resumed = record session { resume_challenge = times 43 b'B' }

resumes : resume_session env (some session) proof ≡ (some spent, ok resumed)
unfolding resume_session take_slot answer check_proof check_record match_resume_challenge
    outside_window looked_up verified issued generated is_subject disarmed resume_into
    parse_utc_time verify_resume_signature validate_id validate_raw_base64_length join
resumes = refl

rotated : ¬ (resumed.resume_challenge ≡ proof.resume_challenge)
rotated h = absurd (omega (arith, ap (λ (l : List ℕ). head_of l) h))
  where
    head_of : List ℕ → ℕ
    head_of [] = 0
    head_of (b ∷ bs) = b

no_replay_example :
    (resume_session env (some resumed) proof ≡ (some resumed, err resume_unavailable))
    × (resume_session env (some spent) proof ≡ (some spent, err resume_unavailable))
no_replay_example = no_replay env env session spent resumed proof resumes rotated
