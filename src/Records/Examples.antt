-- ===== src/Records/Examples.antt =====
-- internal/contractv1/validation.go: an authorization and a route at concrete payloads.
use hooshi_xagent.Json.{
  Token, Ending, validate_tokens, more, next, name_of, is_in, close_object_of, close_array_of,
  starts_object, check_trailing, consume_object,
}
use hooshi_xagent.Json.Grammar.{Members, Value, emit_members, head_token}
use hooshi_xagent.Json.Members.{
  reject_null_members, require_present, scan_members, has_null, is_null, all_present, present,
  member_at, scan_top_level_members,
}
use hooshi_xagent.Control.{
  Codec, decode_strict, check_present, check_no_nulls, validate_strict_json_object,
}
use hooshi_xagent.Records.{
  DeviceSessionAuthorization, EndpointRouteAssignment, Panel, parse_device_session_authorization,
  parse_endpoint_route_assignment,
}
use hooshi_xagent.Records.Labels.{IsHostname}
use hooshi_xagent.Records.Hostname.{validate_hostname}
use hooshi_xagent.Records.Active.{
  IsInForce, IsActive, parse_device_session_authorization-IsInForce,
  parse_endpoint_route_assignment-IsActive,
}
use hooshi_xagent.Contract.{
  Std, validate_id, matches_id, all_bytes, is_id_byte, is_alphanumeric, is_digit,
  validate_raw_base64_length, check_decoded, parse_utc_time, matches_timestamp, matches_clock,
  matches_zone, matches_fraction, two_digits,
}
use hooshi_xagent.Contract.Transcript.{validate_ids}
use hooshi_xagent.Contract.Examples.{times, id}
use hooshi_xagent.Base.{[], ◌∷◌, true, false, some, none, ok, pos, codes, ◌≡◌, refl, length}

-- A time is the length of its text.
abbrev clock : Std
clock = record {
  raw_url_decode = λ text. some (times 32 0);
  raw_url_encode = λ bytes. times 43 b'A';
  parse_rfc3339 = λ text. some (length text);
  ed25519_verify = λ key text signature. true;
}

-- {"disabled": false, "enabled": true}
abbrev fields : Members
fields =
    Members.member (codes "disabled") (Value.bool false)
      (Members.member (codes "enabled") (Value.bool true) Members.no_members)

abbrev codec : Codec
codec = record {
  utf8_valid = λ payload. true;
  rune_count = λ text. length text;
  tokens = λ payload. Token.open_object ∷ emit_members fields;
  ending = λ payload. Ending.at_end;
  ends = λ payload. true;
  envelope = λ payload. none;
  member_names = λ payload. some [];
}

abbrev authorization : DeviceSessionAuthorization
authorization = record {
  contract_version = pos 1;
  authorization_id = id;
  device_id = id;
  device_public_key = times 43 b'A';
  token_id = id;
  token_sha256 = [];
  issued_at = codes "2026-07-01T12:00:00Z";
  not_before = codes "2026-07-01T12:00:00Z";
  expires_at = codes "2026-07-01T12:00:00.5Z";
  disabled = false;
}

abbrev route : EndpointRouteAssignment
route = record {
  contract_version = pos 1;
  assignment_id = id;
  endpoint_id = id;
  public_hostname = codes "a.example";
  device_id = id;
  local_endpoint_id = id;
  enabled = true;
  not_before = codes "2026-07-01T12:00:00Z";
  expires_at = codes "2026-07-01T12:00:00.5Z";
}

abbrev panel : Panel
panel = record {
  authorization = λ payload. some authorization;
  route = λ payload. some route;
  revocation = λ payload. none;
  status = λ payload. none;
  hex_decode = λ text. some (times 32 0);
  to_lower = λ text. text;
  sha256 = λ text. times 32 0;
}

authorization_parsed : parse_device_session_authorization clock codec panel [] 21 ≡ ok authorization
unfolding parse_device_session_authorization validate_tokens more next name_of is_in close_object_of
    close_array_of starts_object check_trailing consume_object emit_members head_token
    reject_null_members require_present scan_members has_null is_null all_present present member_at
    scan_top_level_members decode_strict check_present check_no_nulls validate_strict_json_object
    validate_ids validate_id matches_id all_bytes is_id_byte is_alphanumeric is_digit
    validate_raw_base64_length check_decoded parse_utc_time matches_timestamp matches_clock
    matches_zone matches_fraction two_digits
authorization_parsed = refl

route_parsed : parse_endpoint_route_assignment clock codec panel [] 21 ≡ ok route
unfolding parse_endpoint_route_assignment validate_hostname validate_tokens more next name_of is_in
    close_object_of close_array_of starts_object check_trailing consume_object emit_members
    head_token reject_null_members require_present scan_members has_null is_null all_present present
    member_at scan_top_level_members decode_strict check_present check_no_nulls
    validate_strict_json_object validate_ids validate_id matches_id all_bytes is_id_byte
    is_alphanumeric is_digit validate_raw_base64_length check_decoded parse_utc_time
    matches_timestamp matches_clock matches_zone matches_fraction two_digits
route_parsed = refl

parse_device_session_authorization-IsInForce_example :
    (panel.authorization [] ≡ some authorization) × IsInForce clock codec panel authorization 21
parse_device_session_authorization-IsInForce_example =
    parse_device_session_authorization-IsInForce clock codec panel [] 21 authorization
      authorization_parsed

parse_endpoint_route_assignment-IsActive_example :
    (panel.route [] ≡ some route)
    × (route.enabled ≡ true)
    × IsHostname route.public_hostname
    × IsActive clock codec panel route.not_before route.expires_at 21
parse_endpoint_route_assignment-IsActive_example =
    parse_endpoint_route_assignment-IsActive clock codec panel [] 21 route route_parsed
