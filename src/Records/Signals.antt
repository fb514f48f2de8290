-- ===== src/Records/Signals.antt =====
-- internal/contractv1/validation.go: revocations, status signals, and the token of a session.
use hooshi_xagent.Records.{
  RevocationSignal, GatewayStatusSignal, DeviceSessionAuthorization, Panel, time_of, all_ids,
  is_version,
}
use hooshi_xagent.Control.{
  ControlError, Codec, validate_strict_json_object, check_no_nulls, check_not_empty, decode_strict,
  one_of_strings,
}
use hooshi_xagent.Contract.{Std}
use hooshi_xagent.Base.{
  List, [], ◌∷◌, ℕ, Bool, true, false, not, ◌||◌, ◌&&◌, Option, some, none, Result, ok, reject_if,
  ◌>>◌, ◌>>=◌, ℤ, codes, ◌==◌, bytes_eq, outside, length, if◌then◌else◌,
}

module _ (std : Std) (codec : Codec) (panel : Panel) where
  unfoldable pub check_revocation : RevocationSignal → Result ControlError (Unit {0})
  unfolding time_of all_ids is_version one_of_strings
  check_revocation signal = do
    is_version std codec panel signal.contract_version
    all_ids std codec panel (signal.event_id ∷ signal.subject_id ∷ [])
    reject_if
        (not (
          one_of_strings signal.subject_kind (
            codes "device_session_authorization"
            ∷ codes "endpoint_route_assignment"
            ∷ codes "device"
            ∷ [])))
        ControlError.invalid_field
    reject_if
        (not (
          one_of_strings signal.reason_code (
            codes "disabled"
            ∷ codes "credential_revoked"
            ∷ codes "assignment_revoked"
            ∷ codes "security_hold"
            ∷ codes "expired"
            ∷ [])))
        ControlError.invalid_field
    time_of std codec panel signal.effective_at >>= λ effective_at. ok tt

  unfoldable pub parse_revocation_signal : List ℕ → Result ControlError RevocationSignal
  unfolding check_revocation
  parse_revocation_signal payload = do
    validate_strict_json_object codec payload
    check_no_nulls codec payload
    signal ← decode_strict codec (panel.revocation) payload
    check_revocation signal
    ok signal

  -- `validateTrafficCounter`, with `MaxTrafficDeltaBytes`; nil is none.
  unfoldable pub validate_traffic_counter : Option ℤ → Result ControlError (Unit {0})
  validate_traffic_counter none = ok tt
  validate_traffic_counter (some value) =
      reject_if (outside 0 1073741824 value) ControlError.out_of_bounds

  unfoldable pub id_unless_empty : List ℕ → Result ControlError (Unit {0})
  unfolding all_ids
  id_unless_empty [] = ok tt
  id_unless_empty (b ∷ bs) = all_ids std codec panel ((b ∷ bs) ∷ [])

  abbrev is_nil : Option ℤ → Bool
  is_nil none = true
  is_nil (some value) = false

  -- The last condition, for a `traffic_delta`.
  unfoldable pub check_delta : GatewayStatusSignal → Result ControlError (Unit {0})
  check_delta signal =
      if bytes_eq signal.kind (codes "traffic_delta")
      then reject_if
          (bytes_eq signal.endpoint_id []
            || (is_nil signal.bytes_from_public && is_nil signal.bytes_to_public))
          ControlError.invalid_field
      else ok tt

  unfoldable pub check_status : List ℕ → GatewayStatusSignal → Result ControlError (Unit {0})
  unfolding time_of all_ids is_version one_of_strings id_unless_empty validate_traffic_counter
      check_delta
  check_status payload signal = do
    is_version std codec panel signal.contract_version
    all_ids std codec panel (signal.event_id ∷ signal.device_id ∷ [])
    id_unless_empty signal.session_id
    id_unless_empty signal.endpoint_id
    check_not_empty codec payload (codes "session_id" ∷ codes "endpoint_id" ∷ [])
    observed_at ← time_of std codec panel signal.observed_at
    reject_if
        (not (
          one_of_strings signal.kind (
            codes "session_connected"
            ∷ codes "session_disconnected"
            ∷ codes "route_opened"
            ∷ codes "route_closed"
            ∷ codes "traffic_delta"
            ∷ [])))
        ControlError.invalid_field
    validate_traffic_counter signal.bytes_from_public
    validate_traffic_counter signal.bytes_to_public
    check_delta signal

  unfoldable pub parse_gateway_status_signal : List ℕ → Result ControlError GatewayStatusSignal
  unfolding check_status
  parse_gateway_status_signal payload = do
    validate_strict_json_object codec payload
    check_no_nulls codec payload
    signal ← decode_strict codec (panel.status) payload
    check_status payload signal
    ok signal

  -- `MatchSessionToken`; the comparison in constant time is that of the bytes.
  unfoldable pub match_session_token : DeviceSessionAuthorization → List ℕ → Bool
  match_session_token r token = elim (panel.hex_decode r.token_sha256) [
    | none ↦ false
    | some expected ↦
        if length expected == 32 then bytes_eq (panel.sha256 token) expected else false
  ]
