-- ===== src/Control/Examples.antt =====
-- internal/contractv1/validation.go: control messages at a concrete payload.
use hooshi_xagent.Json.{
  validate_tokens, more, next, name_of, is_in, close_object_of, close_array_of, starts_object,
  check_trailing, consume_object, Token, Ending,
}
use hooshi_xagent.Json.Grammar.{head_token, Members, Value, emit_members}
use hooshi_xagent.Json.Members.{
  reject_null_members, require_present, scan_members, has_null, is_null, all_present, present,
  member_at, scan_top_level_members,
}
use hooshi_xagent.Control.{
  check_envelope, decode_control_strict, decode_strict, check_present, check_no_nulls,
  validate_strict_json_object, kind_among, check_scope, one_of_strings, Envelope, Codec,
}
use hooshi_xagent.Control.Messages.{Decoders, SessionReady}
use hooshi_xagent.Control.Payload.{check_ids, check_offered, check_session_ready}
use hooshi_xagent.Control.Dispatch.{
  dispatch, check_message, check_window_update, validate_control_payload,
}
use hooshi_xagent.Control.Accepted.{IsStrictPayload, IsAccepted, validate_control_payload_iff}
use hooshi_xagent.Control.Bounds.{AreIntervals, check_session_ready-bounds}
use hooshi_xagent.Contract.{
  matches_id, all_bytes, is_id_byte, is_alphanumeric, is_digit, validate_id,
}
use hooshi_xagent.Contract.Transcript.{validate_ids}
use hooshi_xagent.Contract.Examples.{std, id}
use hooshi_xagent.Base.{List, [], ◌∷◌, ℕ, true, some, none, ok, pos, codes, ◌≡◌, ◌↔◌, refl, length}

-- {"credit_bytes": 100, "heartbeat_interval_seconds": 20, "idle_timeout_seconds": 60}, with the
-- envelope of the message at hand
abbrev fields : Members
fields = Members.member (codes "credit_bytes") (Value.number (codes "100")) (
    Members.member (codes "heartbeat_interval_seconds") (Value.number (codes "20")) (
      Members.member (codes "idle_timeout_seconds") (Value.number (codes "60")) Members.no_members))

abbrev codec : List ℕ → Codec
codec message_type = record {
  utf8_valid = λ payload. true;
  rune_count = λ text. length text;
  tokens = λ payload. Token.open_object ∷ emit_members fields;
  ending = λ payload. Ending.at_end;
  ends = λ payload. true;
  envelope = λ payload. some (record { contract_version = pos 1; message_type = message_type });
  member_names = λ payload. some [];
}

abbrev envelope_of : List ℕ → Envelope
envelope_of message_type = record { contract_version = pos 1; message_type = message_type }

abbrev ready : SessionReady
ready = record {
  session_id = id;
  heartbeat_interval_seconds = pos 20;
  idle_timeout_seconds = pos 60;
  resume_challenge = [];
}

abbrev decoders : Decoders
decoders = record {
  hello = λ payload. none;
  challenge = λ payload. none;
  auth = λ payload. none;
  ready = λ payload. some (envelope_of (codes "session_ready"), ready);
  heartbeat = λ payload. none;
  report = λ payload. none;
  opening = λ payload. none;
  half_close = λ payload. none;
  window_update = λ payload. some (envelope_of (codes "stream_window_update"), 100);
  closing = λ payload. none;
  failure = λ payload. none;
  revoked = λ payload. none;
  resume = λ payload. none;
  resumed = λ payload. none;
}

abbrev update_codec : Codec
update_codec = codec (codes "stream_window_update")

abbrev ready_codec : Codec
ready_codec = codec (codes "session_ready")

update_accepted : validate_control_payload std update_codec decoders [] 3 0 ≡ ok tt
unfolding validate_control_payload dispatch check_scope check_message check_window_update kind_among
    validate_tokens more next name_of is_in close_object_of close_array_of starts_object
    check_trailing consume_object emit_members head_token reject_null_members require_present
    scan_members has_null is_null all_present present member_at scan_top_level_members
    check_envelope decode_control_strict decode_strict check_present check_no_nulls
    validate_strict_json_object
update_accepted = refl

update_checked : check_window_update std update_codec decoders [] ≡ ok tt
unfolding check_window_update validate_tokens more next name_of is_in close_object_of close_array_of
    starts_object check_trailing consume_object emit_members head_token reject_null_members
    require_present scan_members has_null is_null all_present present member_at
    scan_top_level_members check_envelope decode_control_strict decode_strict check_present
    check_no_nulls validate_strict_json_object
update_checked = refl

ready_accepted : check_session_ready std ready_codec decoders [] ≡ ok tt
unfolding check_session_ready check_ids check_offered one_of_strings validate_ids validate_id
    matches_id all_bytes is_id_byte is_alphanumeric is_digit validate_tokens more next name_of is_in
    close_object_of close_array_of starts_object check_trailing consume_object emit_members
    head_token reject_null_members require_present scan_members has_null is_null all_present present
    member_at scan_top_level_members check_envelope decode_control_strict decode_strict
    check_present check_no_nulls validate_strict_json_object
ready_accepted = refl

validate_control_payload_iff_example :
    (validate_control_payload std update_codec decoders [] 3 0 ≡ ok tt)
    ↔ (IsStrictPayload std update_codec decoders [] × IsAccepted std update_codec decoders [] 3 0)
validate_control_payload_iff_example = validate_control_payload_iff std update_codec decoders [] 3 0

check_session_ready-bounds_example :
    (envelope : Envelope) × (found : SessionReady) × (decoders.ready [] ≡ some (envelope, found))
    × AreIntervals found.heartbeat_interval_seconds found.idle_timeout_seconds
check_session_ready-bounds_example =
    check_session_ready-bounds std ready_codec decoders [] ready_accepted
