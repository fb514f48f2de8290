-- ===== src/Records.antt =====
-- internal/contractv1/validation.go: the records that the control panel hands to the Gateway, an
-- authorization, a route and a revocation, the status that goes back, and their parsers.
pub mod Hostname
pub mod Labels
pub mod Signals
pub mod Active
pub mod Examples
use hooshi_xagent.Records.Hostname.{validate_hostname}
use hooshi_xagent.Control.{
  ControlError, Codec, validate_strict_json_object, check_no_nulls, check_present, check_not_empty,
  decode_strict, one_of_strings, protocol_version,
}
use hooshi_xagent.Contract.{Std, ContractError, parse_utc_time, validate_raw_base64_length}
use hooshi_xagent.Contract.Transcript.{validate_ids}
use hooshi_xagent.Base.{
  List, [], ◌∷◌, ℕ, Bool, true, false, not, ◌||◌, ◌&&◌, Option, some, none, Result, ok, err,
  reject_if, ◌>>◌, ◌>>=◌, ℤ, pos, int_eq, codes, with_fault, ltb, leb, ◌==◌, bytes_eq, outside,
  length, ==_iff, >>=-eq-ok, >>=_iff, >>_iff, All, All-append, All-drop, All-take, Bool-cases,
  Option-cases, ap, arith, below, bytes_eq_refl, bytes_eq_sound, double, drop, drop-drop, if_cases,
  if◌then◌else◌, inl, inr, leb→le, length-append, length-drop, length-take_of_le, ltb→lt, lt→ltb,
  map, negsuc, outside_iff, refl, reject_if-eq-ok, reject_if_iff, subst, suc, sym, take,
  take-append-drop, take-drop-append, with_fault_iff, zero, ◌%◌, ◌*◌, ◌++◌, ◌+◌, ◌-◌, ◌/◌, ◌<◌, ◌^◌,
  ◌↔◌, ◌∙◌, ◌≡◌, ◌≢◌, ◌≤◌, ◌⊎◌,
}

pub record DeviceSessionAuthorization : Type 0 where
  pub contract_version : ℤ
  pub authorization_id : List ℕ
  pub device_id : List ℕ
  pub device_public_key : List ℕ
  pub token_id : List ℕ
  pub token_sha256 : List ℕ
  pub issued_at : List ℕ
  pub not_before : List ℕ
  pub expires_at : List ℕ
  pub disabled : Bool

pub record EndpointRouteAssignment : Type 0 where
  pub contract_version : ℤ
  pub assignment_id : List ℕ
  pub endpoint_id : List ℕ
  pub public_hostname : List ℕ
  pub device_id : List ℕ
  pub local_endpoint_id : List ℕ
  pub enabled : Bool
  pub not_before : List ℕ
  pub expires_at : List ℕ

pub record RevocationSignal : Type 0 where
  pub contract_version : ℤ
  pub event_id : List ℕ
  pub subject_kind : List ℕ
  pub subject_id : List ℕ
  pub effective_at : List ℕ
  pub reason_code : List ℕ

pub record GatewayStatusSignal : Type 0 where
  pub contract_version : ℤ
  pub event_id : List ℕ
  pub observed_at : List ℕ
  pub kind : List ℕ
  pub device_id : List ℕ
  pub session_id : List ℕ
  pub endpoint_id : List ℕ
  pub bytes_from_public : Option ℤ
  pub bytes_to_public : Option ℤ

-- `Decode` of a payload into each record, and encoding/hex, strings.ToLower and crypto/sha256.
pub record Panel : Type 0 where
  pub authorization : List ℕ → Option DeviceSessionAuthorization
  pub route : List ℕ → Option EndpointRouteAssignment
  pub revocation : List ℕ → Option RevocationSignal
  pub status : List ℕ → Option GatewayStatusSignal
  pub hex_decode : List ℕ → Option (List ℕ)
  pub to_lower : List ℕ → List ℕ
  pub sha256 : List ℕ → List ℕ

module _ (std : Std) (codec : Codec) (panel : Panel) where
  unfoldable pub time_of : List ℕ → Result ControlError ℕ
  time_of value = with_fault ControlError.contract (parse_utc_time std value)

  unfoldable pub all_ids : List (List ℕ) → Result ControlError (Unit {0})
  all_ids values = with_fault ControlError.contract (validate_ids values)

  unfoldable pub is_version : ℤ → Result ControlError (Unit {0})
  is_version version =
      reject_if (not (int_eq version protocol_version)) ControlError.unsupported_version

  -- 32 bytes in lower-case hex
  unfoldable pub check_digest : List ℕ → Result ControlError (Unit {0})
  check_digest text = elim (panel.hex_decode text) [
    | none ↦ err ControlError.invalid_field
    | some digest ↦
        reject_if (not (length digest == 32) || not (bytes_eq text (panel.to_lower text)))
          ControlError.invalid_field
  ]

  unfoldable pub check_authorization : DeviceSessionAuthorization → Result ControlError (Unit {0})
  unfolding time_of all_ids is_version check_digest
  check_authorization r = do
    is_version r.contract_version
    all_ids (r.authorization_id ∷ r.device_id ∷ r.token_id ∷ [])
    with_fault ControlError.contract (validate_raw_base64_length std r.device_public_key 32)
    check_digest r.token_sha256
    issued_at ← time_of r.issued_at
    not_before ← time_of r.not_before
    expires_at ← time_of r.expires_at
    reject_if (ltb not_before issued_at || not (ltb not_before expires_at))
        ControlError.invalid_times

  unfoldable pub parse_device_session_authorization_record :
      List ℕ → Result ControlError DeviceSessionAuthorization
  unfolding check_authorization
  parse_device_session_authorization_record payload = do
    validate_strict_json_object codec payload
    check_no_nulls codec payload
    check_present codec payload (codes "disabled" ∷ [])
    r ← decode_strict codec (panel.authorization) payload
    check_authorization r
    ok r

  -- The instant lies in the interval of the two times, its end excluded.
  unfoldable pub check_active : List ℕ → List ℕ → ℕ → Result ControlError (Unit {0})
  unfolding time_of
  check_active not_before_text expires_at_text at = do
    not_before ← time_of not_before_text
    expires_at ← time_of expires_at_text
    reject_if (ltb at not_before || not (ltb at expires_at)) ControlError.inactive

  unfoldable pub validate_device_session_authorization_at :
      DeviceSessionAuthorization → ℕ → Result ControlError (Unit {0})
  unfolding check_active
  validate_device_session_authorization_at r at =
      reject_if r.disabled ControlError.disabled >> check_active r.not_before r.expires_at at

  unfoldable pub parse_device_session_authorization :
      List ℕ → ℕ → Result ControlError DeviceSessionAuthorization
  unfolding parse_device_session_authorization_record validate_device_session_authorization_at
  parse_device_session_authorization payload at = do
    r ← parse_device_session_authorization_record payload
    validate_device_session_authorization_at r at
    ok r

  unfoldable pub check_route : EndpointRouteAssignment → Result ControlError (Unit {0})
  unfolding time_of all_ids is_version
  check_route r = do
    is_version r.contract_version
    all_ids (r.assignment_id ∷ r.endpoint_id ∷ r.device_id ∷ r.local_endpoint_id ∷ [])
    validate_hostname r.public_hostname
    not_before ← time_of r.not_before
    expires_at ← time_of r.expires_at
    reject_if (not (ltb not_before expires_at)) ControlError.invalid_times

  unfoldable pub parse_endpoint_route_assignment_record :
      List ℕ → Result ControlError EndpointRouteAssignment
  unfolding check_route
  parse_endpoint_route_assignment_record payload = do
    validate_strict_json_object codec payload
    check_no_nulls codec payload
    check_present codec payload (codes "enabled" ∷ [])
    r ← decode_strict codec (panel.route) payload
    check_route r
    ok r

  unfoldable pub validate_endpoint_route_assignment_at :
      EndpointRouteAssignment → ℕ → Result ControlError (Unit {0})
  unfolding check_active
  validate_endpoint_route_assignment_at r at =
      reject_if (not r.enabled) ControlError.disabled >> check_active r.not_before r.expires_at at

  unfoldable pub parse_endpoint_route_assignment :
      List ℕ → ℕ → Result ControlError EndpointRouteAssignment
  unfolding parse_endpoint_route_assignment_record validate_endpoint_route_assignment_at
  parse_endpoint_route_assignment payload at = do
    r ← parse_endpoint_route_assignment_record payload
    validate_endpoint_route_assignment_at r at
    ok r
