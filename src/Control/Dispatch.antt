-- ===== src/Control/Dispatch.antt =====
-- internal/contractv1/validation.go: `ValidateControlPayload`, the cases of the messages about a
-- stream, a revocation and a resume, and the switch.
use hooshi_xagent.Control.{
  unmarshal, ControlError, Codec, Kind, check_envelope, check_scope, kind_among, kinds,
  one_of_strings, protocol_version, validate_strict_json_object, check_no_nulls, check_present,
  decode_control_strict, invalid_field, out_of_bounds, unknown_message, unsupported_version,
}
use hooshi_xagent.Control.Messages.{Decoders}
use hooshi_xagent.Control.Payload.{
  check_time, check_nonce, check_ids, decode_client_hello, decode_client_auth, check_challenge,
  check_session_ready, check_heartbeat, check_health_report, unless_empty,
}
use hooshi_xagent.Contract.{Std}
use hooshi_xagent.Base.{
  List, [], ◌∷◌, ℕ, true, false, not, ◌||◌, Option, some, none, Result, ok, err, reject_if, ◌>>◌,
  ◌>>=◌, int_eq, codes, ltb, ◌==◌,
}

module _ (std : Std) (codec : Codec) (decoders : Decoders) where
  abbrev ids : List (List ℕ) → Result ControlError (Unit {0})
  ids = check_ids std codec decoders

  unfoldable pub check_stream_open : List ℕ → Result ControlError (Unit {0})
  unfolding check_envelope one_of_strings
  check_stream_open payload = do
    (envelope, message) ← decode_control_strict codec (decoders.opening) payload
    check_envelope (codes "stream_open") envelope
    ids (
        message.endpoint_id ∷ message.assignment_id ∷ message.local_endpoint_id ∷ message.request_id
        ∷ [])
    unless_empty message.mode (
        reject_if
          (not (one_of_strings message.mode (codes "http" ∷ codes "tcp" ∷ codes "udp" ∷ [])))
          invalid_field)

  unfoldable pub check_half_close : List ℕ → Result ControlError (Unit {0})
  unfolding check_envelope
  check_half_close payload = do
    envelope ← decode_control_strict codec (decoders.half_close) payload
    check_envelope (codes "stream_half_close") envelope

  unfoldable pub check_window_update : List ℕ → Result ControlError (Unit {0})
  unfolding check_envelope
  check_window_update payload = do
    check_present codec payload (codes "credit_bytes" ∷ [])
    (envelope, credit_bytes) ← decode_control_strict codec (decoders.window_update) payload
    check_envelope (codes "stream_window_update") envelope
    reject_if (ltb credit_bytes 1 || ltb 8388608 credit_bytes) out_of_bounds

  unfoldable pub check_stream_close : List ℕ → Result ControlError (Unit {0})
  unfolding check_envelope one_of_strings
  check_stream_close payload = do
    (envelope, reason_code) ← decode_control_strict codec (decoders.closing) payload
    check_envelope (codes "stream_close") envelope
    reject_if
        (not (
          one_of_strings reason_code
            (codes "completed" ∷ codes "peer_closed" ∷ codes "cancelled" ∷ [])))
        invalid_field

  unfoldable pub check_stream_error : List ℕ → Result ControlError (Unit {0})
  unfolding check_envelope one_of_strings
  check_stream_error payload = do
    check_present codec payload (codes "retryable" ∷ [])
    (envelope, message) ← decode_control_strict codec (decoders.failure) payload
    check_envelope (codes "stream_error") envelope
    reject_if
        (not (
          one_of_strings message.code (
            codes "local_target_unavailable"
            ∷ codes "route_revoked"
            ∷ codes "protocol_error"
            ∷ codes "resource_limit"
            ∷ codes "internal_error"
            ∷ [])))
        invalid_field
    reject_if (codec.rune_count message.message == 0 || ltb 256 (codec.rune_count message.message))
        out_of_bounds

  unfoldable pub check_session_revoked : List ℕ → Result ControlError (Unit {0})
  unfolding check_envelope one_of_strings
  check_session_revoked payload = do
    (envelope, message) ← decode_control_strict codec (decoders.revoked) payload
    check_envelope (codes "session_revoked") envelope
    ids (message.authorization_id ∷ [])
    reject_if
        (not (
          one_of_strings message.reason_code (
            codes "disabled"
            ∷ codes "credential_revoked"
            ∷ codes "security_hold"
            ∷ codes "expired"
            ∷ [])))
        invalid_field

  unfoldable pub check_resume_session : List ℕ → Result ControlError (Unit {0})
  unfolding check_envelope
  check_resume_session payload = do
    (envelope, message) ← decode_control_strict codec (decoders.resume) payload
    check_envelope (codes "resume_session") envelope
    ids (message.device_id ∷ message.authorization_id ∷ message.token_id ∷ message.session_id ∷ [])
    check_nonce std codec decoders message.resume_nonce 32
    check_nonce std codec decoders message.resume_challenge 32
    check_time std codec decoders message.issued_at
    check_nonce std codec decoders message.signature 64

  unfoldable pub check_session_resumed : List ℕ → Result ControlError (Unit {0})
  unfolding check_envelope
  check_session_resumed payload = do
    check_present codec payload (codes "next_sequence" ∷ codes "resume_challenge" ∷ [])
    (envelope, message) ← decode_control_strict codec (decoders.resumed) payload
    check_envelope (codes "session_resumed") envelope
    ids (message.session_id ∷ [])
    reject_if (message.next_sequence == 0) out_of_bounds
    check_time std codec decoders message.resumed_at
    check_nonce std codec decoders message.resume_challenge 32

  -- What a case does after its check of the scope.
  unfoldable pub check_message : Kind → List ℕ → ℕ → Result ControlError (Unit {0})
  check_message Kind.client_hello payload at =
      decode_client_hello std codec decoders payload >>= λ message. ok tt
  check_message Kind.server_challenge payload at = check_challenge std codec decoders payload at
  check_message Kind.client_auth payload at =
      decode_client_auth std codec decoders payload >>= λ message. ok tt
  check_message Kind.session_ready payload at = check_session_ready std codec decoders payload
  check_message Kind.ping payload at =
      check_heartbeat std codec decoders true (codes "ping") payload
  check_message Kind.pong payload at =
      check_heartbeat std codec decoders false (codes "pong") payload
  check_message Kind.health_report payload at = check_health_report std codec decoders payload
  check_message Kind.stream_open payload at = check_stream_open payload
  check_message Kind.stream_half_close payload at = check_half_close payload
  check_message Kind.stream_window_update payload at = check_window_update payload
  check_message Kind.stream_close payload at = check_stream_close payload
  check_message Kind.stream_error payload at = check_stream_error payload
  check_message Kind.session_revoked payload at = check_session_revoked payload
  check_message Kind.resume_session payload at = check_resume_session payload
  check_message Kind.session_resumed payload at = check_session_resumed payload

  unfoldable pub dispatch : Option Kind → List ℕ → ℕ → ℕ → Result ControlError (Unit {0})
  unfolding check_scope check_message
  dispatch none payload stream_id at = err unknown_message
  dispatch (some kind) payload stream_id at =
      check_scope kind stream_id >> check_message kind payload at

  -- `ValidateControlPayload`
  unfoldable pub validate_control_payload : List ℕ → ℕ → ℕ → Result ControlError (Unit {0})
  unfolding dispatch validate_strict_json_object check_no_nulls
  validate_control_payload payload stream_id at = do
    validate_strict_json_object codec payload
    check_no_nulls codec payload
    envelope ← unmarshal (codec.envelope payload)
    reject_if (not (int_eq envelope.contract_version protocol_version)) unsupported_version
    dispatch (kind_among kinds envelope.message_type) payload stream_id at
