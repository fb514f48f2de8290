-- ===== src/Control/Payload.antt =====
-- internal/contractv1/validation.go: `ValidateControlPayload`, one definition for each case of its
-- switch. The checks of the identifiers of a message stand in a map in the source; their order only
-- decides which name an error has.
use hooshi_xagent.Control.{
  unmarshal, ControlError, Codec, check_envelope, one_of_strings, check_present, check_not_empty,
  decode_control_strict, expired, out_of_bounds, invalid_field, invalid_token, contract,
}
use hooshi_xagent.Control.Messages.{Decoders, Heartbeat}
use hooshi_xagent.Contract.{
  Std, validate_raw_base64_length, parse_utc_time, is_alphanumeric, all_bytes,
}
use hooshi_xagent.Contract.Transcript.{ClientHello, ServerChallenge, ClientAuth, validate_ids}
use hooshi_xagent.Base.{
  List, [], ◌∷◌, ℕ, Bool, true, false, not, ◌||◌, Result, ok, reject_if, ◌>>◌, ◌>>=◌, bytes_eq,
  codes, with_fault, below, double, outside, ltb, leb, ◌==◌, if◌then◌else◌, length, ◌&&◌,
}

-- `tokenPattern`
unfoldable pub matches_token : List ℕ → Bool
unfolding all_bytes is_alphanumeric
matches_token token =
    all_bytes (λ b. is_alphanumeric b || (b == b'_' || b == b'-')) token
    && (leb 32 (length token) && leb (length token) 512)

-- A field that may be left out, and what it has to pass when it is there.
abbrev pub unless_empty : List ℕ → Result ControlError (Unit {0}) → Result ControlError (Unit {0})
unless_empty [] check = ok tt
unless_empty (b ∷ bs) check = check

module _ (std : Std) (codec : Codec) (decoders : Decoders) where
  unfoldable pub check_time : List ℕ → Result ControlError (Unit {0})
  check_time value = with_fault contract (parse_utc_time std value) >>= λ time. ok tt

  unfoldable pub check_nonce : List ℕ → ℕ → Result ControlError (Unit {0})
  check_nonce value size = with_fault contract (validate_raw_base64_length std value size)

  unfoldable pub check_ids : List (List ℕ) → Result ControlError (Unit {0})
  check_ids values = with_fault contract (validate_ids values)

  unfoldable pub decode_client_hello : List ℕ → Result ControlError ClientHello
  unfolding check_ids check_nonce matches_token
  decode_client_hello payload = do
    (envelope, message) ← decode_control_strict codec (decoders.hello) payload
    check_envelope (codes "client_hello") envelope
    check_ids (message.device_id ∷ message.authorization_id ∷ message.token_id ∷ [])
    reject_if (not (matches_token message.session_token)) invalid_token
    check_nonce message.client_nonce 32
    ok message

  unfoldable pub decode_server_challenge : List ℕ → Result ControlError ServerChallenge
  unfolding check_ids check_nonce check_time
  decode_server_challenge payload = do
    (envelope, message) ← decode_control_strict codec (decoders.challenge) payload
    check_envelope (codes "server_challenge") envelope
    check_ids (message.session_id ∷ [])
    check_nonce message.server_nonce 32
    check_time message.expires_at
    ok message

  unfoldable pub decode_client_auth : List ℕ → Result ControlError ClientAuth
  unfolding check_ids check_nonce
  decode_client_auth payload = do
    (envelope, message) ← decode_control_strict codec (decoders.auth) payload
    check_envelope (codes "client_auth") envelope
    check_ids (message.session_id ∷ [])
    check_nonce message.signature 64
    ok message

  unfoldable pub check_challenge : List ℕ → ℕ → Result ControlError (Unit {0})
  unfolding decode_server_challenge
  check_challenge payload at = do
    challenge ← decode_server_challenge payload
    expires_at ← with_fault contract (parse_utc_time std challenge.expires_at)
    reject_if (not (ltb at expires_at)) expired

  -- `_, present := fields["resume_challenge"]`
  unfoldable pub check_offered : List (List ℕ) → List ℕ → Result ControlError (Unit {0})
  unfolding check_nonce
  check_offered names value =
      if one_of_strings (codes "resume_challenge") names then check_nonce value 32 else ok tt

  unfoldable pub check_session_ready : List ℕ → Result ControlError (Unit {0})
  unfolding check_ids check_offered
  check_session_ready payload = do
    check_present codec payload
        (codes "heartbeat_interval_seconds" ∷ codes "idle_timeout_seconds" ∷ [])
    (envelope, ready) ← decode_control_strict codec (decoders.ready) payload
    check_envelope (codes "session_ready") envelope
    check_ids (ready.session_id ∷ [])
    names ← unmarshal (codec.member_names payload)
    check_offered names ready.resume_challenge
    reject_if (outside 5 60 ready.heartbeat_interval_seconds) out_of_bounds
    reject_if
        (outside 15 300 ready.idle_timeout_seconds
          || below ready.idle_timeout_seconds (double ready.heartbeat_interval_seconds))
        out_of_bounds

  -- One of the two times is there, and the other is not.
  unfoldable pub check_only : List ℕ → List ℕ → Result ControlError (Unit {0})
  unfolding check_time
  check_only wanted other =
      reject_if (bytes_eq wanted [] || not (bytes_eq other [])) invalid_field >> check_time wanted

  unfoldable pub check_times : Bool → Heartbeat → Result ControlError (Unit {0})
  unfolding check_only
  check_times true heartbeat = check_only heartbeat.sent_at heartbeat.received_at
  check_times false heartbeat = check_only heartbeat.received_at heartbeat.sent_at

  -- The cases "ping" and "pong"
  unfoldable pub check_heartbeat : Bool → List ℕ → List ℕ → Result ControlError (Unit {0})
  unfolding check_ids check_times
  check_heartbeat is_ping message_type payload = do
    (envelope, heartbeat) ← decode_control_strict codec (decoders.heartbeat) payload
    check_envelope message_type envelope
    check_ids (heartbeat.ping_id ∷ [])
    check_times is_ping heartbeat

  unfoldable pub check_health_report : List ℕ → Result ControlError (Unit {0})
  unfolding check_ids check_time
  check_health_report payload = do
    check_present codec payload
        (codes "active_streams" ∷ codes "queued_frames" ∷ codes "reconnect_count" ∷ [])
    (envelope, report) ← decode_control_strict codec (decoders.report) payload
    check_envelope (codes "health_report") envelope
    check_ids (report.report_id ∷ [])
    check_time report.generated_at
    reject_if (outside 0 4096 report.active_streams) out_of_bounds
    reject_if (outside 0 65536 report.queued_frames) out_of_bounds
    reject_if (outside 0 2147483647 report.reconnect_count) out_of_bounds
    check_not_empty codec payload (codes "last_reconnect_at" ∷ [])
    unless_empty report.last_reconnect_at (check_time report.last_reconnect_at)
    reject_if (ltb 64 (codec.rune_count report.agent_version)) out_of_bounds
