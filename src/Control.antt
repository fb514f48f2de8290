-- ===== src/Control.antt =====
-- internal/contractv1/validation.go: what a payload passes before its members are looked at, and
-- which stream a control message is for. The fields that each message has, and the two that all of
-- them have, are apart: a decoded message is an envelope with the message.
pub mod Messages
pub mod Payload
pub mod Dispatch
pub mod Accepted
pub mod Bounds
pub mod Examples
use hooshi_xagent.Json.{Token, Ending, JsonError, validate_tokens}
use hooshi_xagent.Json.Members.{reject_null_members, require_present, reject_empty_members}
use hooshi_xagent.Contract.{Std, ContractError}
use hooshi_xagent.Base.{
  List, [], ◌∷◌, ℕ, Bool, true, false, not, ◌||◌, Option, some, none, Result, ok, err, reject_if,
  ◌>>◌, ◌>>=◌, ℤ, pos, int_eq, bytes_eq, codes, with_fault, ==_iff, >>=-eq-ok, >>_iff, All,
  All-append, All-drop, All-take, Bool-cases, Option-cases, ap, arith, below, bytes_eq_refl,
  bytes_eq_sound, double, drop, drop-drop, if_cases, if◌then◌else◌, inl, inr, leb, leb→le, length,
  length-append, length-drop, length-take_of_le, ltb, ltb→lt, lt→ltb, map, negsuc, outside,
  outside_iff, refl, reject_if-eq-ok, reject_if_iff, subst, suc, sym, take, take-append-drop,
  take-drop-append, zero, ◌%◌, ◌&&◌, ◌*◌, ◌++◌, ◌+◌, ◌-◌, ◌/◌, ◌<◌, ◌==◌, ◌^◌, ◌↔◌, ◌∙◌, ◌≡◌, ◌≢◌,
  ◌≤◌, ◌⊎◌,
}

pub record Envelope : Type 0 where
  pub contract_version : ℤ
  pub message_type : List ℕ

pub data ControlError : Type 0 where
  invalid_utf8 undecodable trailing_value invalid_envelope unknown_message : ControlError
  unsupported_version wrong_scope expired out_of_bounds invalid_field invalid_token : ControlError
  invalid_times inactive disabled invalid_hostname : ControlError
  json : JsonError → ControlError
  contract : ContractError → ControlError

-- What the standard library makes of a payload: unicode/utf8, the tokens that `json.Decoder` yields,
-- whether a second `Decode` finds the end of the input, and `json.Unmarshal`.
pub record Codec : Type 0 where
  pub utf8_valid : List ℕ → Bool
  pub rune_count : List ℕ → ℕ
  pub tokens : List ℕ → List Token
  pub ending : List ℕ → Ending
  pub ends : List ℕ → Bool
  pub envelope : List ℕ → Option Envelope
  pub member_names : List ℕ → Option (List (List ℕ))

-- `ProtocolVersion`
abbrev pub protocol_version : ℤ
protocol_version = pos 1

-- The error of `Decode` and of `json.Unmarshal`, when there is one.
abbrev pub unmarshal {ℓ} : {X : Type ℓ} → Option X → Result ControlError X
unmarshal none = err undecodable
unmarshal (some x) = ok x

module _ (codec : Codec) where
  unfoldable pub validate_strict_json_object : List ℕ → Result ControlError (Unit {0})
  validate_strict_json_object payload =
      reject_if (not (codec.utf8_valid payload)) invalid_utf8
      >> with_fault json (validate_tokens (codec.ending payload) (codec.tokens payload))

  unfoldable pub check_no_nulls : List ℕ → Result ControlError (Unit {0})
  check_no_nulls payload =
      with_fault json (reject_null_members (codec.ending payload) (codec.tokens payload))

  unfoldable pub check_present : List ℕ → List (List ℕ) → Result ControlError (Unit {0})
  check_present payload names =
      with_fault json (require_present (codec.ending payload) (codec.tokens payload) names)

  unfoldable pub check_not_empty : List ℕ → List (List ℕ) → Result ControlError (Unit {0})
  check_not_empty payload names =
      with_fault json (reject_empty_members (codec.ending payload) (codec.tokens payload) names)

  -- `decodeStrict` and `decodeControlStrict`, for the `Decode` of the target.
  unfoldable pub decode_strict {ℓ} :
      {X : Type ℓ} → (List ℕ → Option X) → List ℕ → Result ControlError X
  decode_strict decode payload = do
    message ← unmarshal (decode payload)
    reject_if (not (codec.ends payload)) trailing_value
    ok message

  unfoldable pub decode_control_strict {ℓ} :
      {X : Type ℓ} → (List ℕ → Option X) → List ℕ → Result ControlError X
  unfolding validate_strict_json_object decode_strict
  decode_control_strict decode payload =
      validate_strict_json_object payload >>= λ _. decode_strict decode payload

-- The message is of this type and of this version.
unfoldable pub check_envelope : List ℕ → Envelope → Result ControlError (Unit {0})
check_envelope name envelope =
    reject_if
      (not (int_eq envelope.contract_version protocol_version)
        || not (bytes_eq envelope.message_type name))
      invalid_envelope

-- `oneOfStrings`
unfoldable pub one_of_strings : List ℕ → List (List ℕ) → Bool
one_of_strings value [] = false
one_of_strings value (candidate ∷ allowed) =
    if bytes_eq value candidate then true else one_of_strings value allowed

pub data Kind : Type 0 where
  client_hello server_challenge client_auth session_ready ping pong health_report : Kind
  stream_open stream_half_close stream_window_update stream_close stream_error : Kind
  session_revoked resume_session session_resumed : Kind

abbrev pub type_of : Kind → List ℕ
type_of client_hello = codes "client_hello"
type_of server_challenge = codes "server_challenge"
type_of client_auth = codes "client_auth"
type_of session_ready = codes "session_ready"
type_of ping = codes "ping"
type_of pong = codes "pong"
type_of health_report = codes "health_report"
type_of stream_open = codes "stream_open"
type_of stream_half_close = codes "stream_half_close"
type_of stream_window_update = codes "stream_window_update"
type_of stream_close = codes "stream_close"
type_of stream_error = codes "stream_error"
type_of session_revoked = codes "session_revoked"
type_of resume_session = codes "resume_session"
type_of session_resumed = codes "session_resumed"

abbrev pub kinds : List Kind
kinds =
    client_hello ∷ server_challenge ∷ client_auth ∷ session_ready ∷ ping ∷ pong ∷ health_report
    ∷ stream_open ∷ stream_half_close ∷ stream_window_update ∷ stream_close ∷ stream_error
    ∷ session_revoked ∷ resume_session ∷ session_resumed ∷ []

-- The case of the switch that a message type selects.
unfoldable pub kind_among : List Kind → List ℕ → Option Kind
kind_among [] message_type = none
kind_among (kind ∷ rest) message_type =
    if bytes_eq message_type (type_of kind) then some kind else kind_among rest message_type

abbrev pub is_stream_message : Kind → Bool
is_stream_message stream_open = true
is_stream_message stream_half_close = true
is_stream_message stream_window_update = true
is_stream_message stream_close = true
is_stream_message stream_error = true
is_stream_message _ = false

-- `sessionScope` and `streamScope`
unfoldable pub check_scope : Kind → ℕ → Result ControlError (Unit {0})
check_scope kind stream_id =
    if is_stream_message kind
    then reject_if (stream_id == 0) wrong_scope
    else reject_if (not (stream_id == 0)) wrong_scope
