-- ===== src/Control/Accepted.antt =====
-- internal/contractv1/validation.go: what `ValidateControlPayload` accepts.
use hooshi_xagent.Json.{Token, Ending, validate_tokens}
use hooshi_xagent.Json.Members.{reject_null_members}
use hooshi_xagent.Json.Members.Gates.{NoneNull, gates_lem}
use hooshi_xagent.Json.Grammar.{Members, emit_members, AreFresh}
use hooshi_xagent.Json.Sound.{IsStrictObject}
use hooshi_xagent.Json.Complete.{validate_tokens_iff}
use hooshi_xagent.Control.{
  unmarshal, Envelope, ControlError, Codec, Kind, check_scope, kind_among, kinds, type_of,
  is_stream_message, validate_strict_json_object, check_no_nulls, protocol_version,
  unsupported_version,
}
use hooshi_xagent.Control.Messages.{Decoders}
use hooshi_xagent.Control.Dispatch.{dispatch, check_message, validate_control_payload}
use hooshi_xagent.Contract.{Std}
use hooshi_xagent.Base.{
  List, [], ◌∷◌, ℕ, Bool, true, false, not, Option, some, none, Result, ok, reject_if, ◌>>◌, ◌>>=◌,
  ℤ, pos, int_eq, ◌==◌, ◌≡◌, ◌↔◌, ◌≢◌, >>=_iff, >>_iff, Bool-cases, ap, arith, bytes_eq,
  bytes_eq_sound, if◌then◌else◌, inl, inr, negsuc, refl, reject_if_iff, sym, with_fault,
  with_fault_iff, ◌∙◌,
}
use mathlib.Core.Option.{none-ne-some, some-injective}

-- The types that the switch names are different, so that each selects its own case.
kind_among-type_of : (kind : Kind) → kind_among kinds (type_of kind) ≡ some kind
unfolding kind_among
kind_among-type_of Kind.client_hello = refl
kind_among-type_of _ = refl

kind_among-eq-some :
    (among : List Kind) (message_type : List ℕ) (kind : Kind)
    → kind_among among message_type ≡ some kind
    → message_type ≡ type_of kind
unfolding kind_among
kind_among-eq-some [] message_type kind e = absurd (none-ne-some kind e)
kind_among-eq-some (k ∷ rest) message_type kind e =
    elim (Bool-cases (bytes_eq message_type (type_of k))) [
      | inl same ↦
          let found : some k ≡ some kind = rw same at e in
          bytes_eq_sound message_type (type_of k) same ∙ ap type_of (some-injective k kind found)
      | inr other ↦ kind_among-eq-some rest message_type kind (rw other at e)
    ]

-- A message about a stream names one, and a message about the session does not.
abbrev pub IsInScope : Bool → ℕ → Type 0
IsInScope true stream_id = stream_id ≢ 0
IsInScope false stream_id = stream_id ≡ 0

is_zero_iff : (n : ℕ) → ((n == 0) ≡ false) ↔ (n ≢ 0)
is_zero_iff n = ground arith

is_not_zero_iff : (n : ℕ) → (not (n == 0) ≡ false) ↔ (n ≡ 0)
is_not_zero_iff n = ground arith

scope_iff :
    (of_stream : Bool) (stream_id : ℕ)
    → ((if of_stream
          then reject_if (stream_id == 0) ControlError.wrong_scope
          else reject_if (not (stream_id == 0)) ControlError.wrong_scope)
        ≡ ok tt)
      ↔ IsInScope of_stream stream_id
scope_iff true stream_id =
    let (there, back) = reject_if_iff (stream_id == 0) ControlError.wrong_scope in
    let (to, from) = is_zero_iff stream_id in (λ e. to (there e), λ h. back (from h))
scope_iff false stream_id =
    let (there, back) = reject_if_iff (not (stream_id == 0)) ControlError.wrong_scope in
    let (to, from) = is_not_zero_iff stream_id in (λ e. to (there e), λ h. back (from h))

not_iff : (b : Bool) → (not b ≡ false) ↔ (b ≡ true)
not_iff true = (λ e. refl, λ e. refl)
not_iff false = (λ e. cc, λ e. cc)

is_version_iff : (x : ℤ) → (not (int_eq x protocol_version) ≡ false) ↔ (x ≡ pos 1)
is_version_iff (pos n) =
    (λ e. let h : n ≡ 1 = ground arith in ap pos h, λ e. let h : n ≡ 1 = cc in ground arith)
is_version_iff (negsuc n) = (λ e. cc, λ e. cc)

unmarshal_iff :
    {X : Type 0} (found : Option X) (x : X) → (unmarshal found ≡ ok x) ↔ (found ≡ some x)
unmarshal_iff none x = (λ e. cc, λ e. cc)
unmarshal_iff (some y) x = (λ e. cc, λ e. cc)

module _ (std : Std) (codec : Codec) (decoders : Decoders) where
  -- The payload is the text of one object in which no object has a name twice and no member at the
  -- top is null.
  abbrev pub IsStrictPayload : List ℕ → Type 0
  IsStrictPayload payload =
      (codec.utf8_valid payload ≡ true)
      × (fields : Members) × (codec.ending payload ≡ Ending.at_end)
      × (codec.tokens payload ≡ Token.open_object ∷ emit_members fields)
      × AreFresh [] fields
      × NoneNull fields

  -- Its version is the protocol's, its type selects a case, and the case accepts it.
  abbrev pub IsAccepted : List ℕ → ℕ → ℕ → Type 0
  IsAccepted payload stream_id at =
      (envelope : Envelope) × (kind : Kind) × (codec.envelope payload ≡ some envelope)
      × (envelope.contract_version ≡ pos 1)
      × (envelope.message_type ≡ type_of kind)
      × IsInScope (is_stream_message kind) stream_id
      × (check_message std codec decoders kind payload at ≡ ok tt)

  strict_iff :
      (payload : List ℕ)
      → ((validate_strict_json_object codec payload ≡ ok tt)
          × (check_no_nulls codec payload ≡ ok tt))
        ↔ IsStrictPayload payload
  unfolding validate_strict_json_object check_no_nulls
  strict_iff payload =
      let bad = not (codec.utf8_valid payload) in
      let ending = codec.ending payload in
      let tokens = codec.tokens payload in
      let walked = validate_tokens ending tokens in
      let both =
        >>_iff (reject_if bad ControlError.invalid_utf8) (with_fault ControlError.json walked) in
      let utf8 = reject_if_iff bad ControlError.invalid_utf8 in
      let text = not_iff (codec.utf8_valid payload) in
      let walk = with_fault_iff ControlError.json walked tt in
      let nulls = with_fault_iff ControlError.json (reject_null_members ending tokens) tt in
      (
        λ (a, b).
            let (u, w) = both.0 a in
            let strict = (validate_tokens_iff ending tokens).0 (walk.0 w) in
            let none_null = (gates_lem ending tokens [] strict).0.0 (nulls.0 b) in
            (text.0 (utf8.0 u), strict.0, strict.1, strict.2, strict.3, none_null),
        λ (u, fields, at_end, p, fresh, none_null).
            let strict : IsStrictObject ending tokens = (fields, at_end, p, fresh) in
            (
              both.1 (utf8.1 (text.1 u), walk.1 ((validate_tokens_iff ending tokens).1 strict)),
              nulls.1 ((gates_lem ending tokens [] strict).0.1 none_null),
            ),
      )

  -- The outcome of the switch, for the case that was found.
  case_iff :
      (found : Option Kind) (payload message_type : List ℕ) (stream_id at : ℕ)
      → kind_among kinds message_type ≡ found
      → (dispatch std codec decoders found payload stream_id at ≡ ok tt) ↔ (
          (kind : Kind) × (message_type ≡ type_of kind)
          × IsInScope (is_stream_message kind) stream_id
          × (check_message std codec decoders kind payload at ≡ ok tt))
  unfolding dispatch check_scope
  case_iff none payload message_type stream_id at e = (
    λ f. cc,
    λ (kind, p, scope, checked).
        absurd (none-ne-some kind (sym e ∙ ap (kind_among kinds) p ∙ kind_among-type_of kind)),
  )
  case_iff (some kind) payload message_type stream_id at e =
      let checked = check_message std codec decoders kind payload at in
      let both = >>_iff (check_scope kind stream_id) checked in
      let scope = scope_iff (is_stream_message kind) stream_id in
      (
        λ f.
            let (a, b) = both.0 f in
            (kind, kind_among-eq-some kinds message_type kind e, scope.0 a, b),
        λ (other, p, s, c).
            let same =
              some-injective kind other
                (sym e ∙ ap (kind_among kinds) p ∙ kind_among-type_of other) in
            both.1 (scope.1 (rw (← same) at s), rw (← same) at c),
      )

  -- What is left once the envelope is known.
  tail_iff :
      (payload : List ℕ) (stream_id at : ℕ) (envelope : Envelope)
      → ((reject_if
              (not (int_eq envelope.contract_version protocol_version))
              ControlError.unsupported_version
            >> dispatch std codec decoders
                (kind_among kinds envelope.message_type)
                payload
                stream_id
                at)
          ≡ ok tt)
        ↔ ((envelope.contract_version ≡ pos 1)
            × (kind : Kind) × (envelope.message_type ≡ type_of kind)
            × IsInScope (is_stream_message kind) stream_id
            × (check_message std codec decoders kind payload at ≡ ok tt))
  tail_iff payload stream_id at envelope =
      let other = not (int_eq envelope.contract_version protocol_version) in
      let found = kind_among kinds envelope.message_type in
      let both =
        >>_iff (reject_if other ControlError.unsupported_version)
          (dispatch std codec decoders found payload stream_id at) in
      let guard = reject_if_iff other ControlError.unsupported_version in
      let version = is_version_iff envelope.contract_version in
      let case = case_iff found payload envelope.message_type stream_id at refl in
      (
        λ e.
            let (a, b) = both.0 e in
            let (kind, p, scope, checked) = case.0 b in
            (version.0 (guard.0 a), kind, p, scope, checked),
        λ (v, kind, p, scope, checked).
            both.1 (guard.1 (version.1 v), case.1 (kind, p, scope, checked)),
      )

  -- `ValidateControlPayload` accepts a payload exactly when its bytes are UTF-8 and are the text of
  -- one object, no object in it has a name twice and no member at its top is null, its version is 1,
  -- its type is one that the switch names, the stream is zero for a message about the session and is
  -- not for one about a stream, and that case's checks pass.
  pub validate_control_payload_iff :
      (payload : List ℕ) (stream_id at : ℕ)
      → (validate_control_payload std codec decoders payload stream_id at ≡ ok tt)
        ↔ (IsStrictPayload payload × IsAccepted payload stream_id at)
  unfolding validate_control_payload
  validate_control_payload_iff payload stream_id at =
      let message : Envelope → Result ControlError (Unit {0}) = λ envelope.
        dispatch std codec decoders (kind_among kinds envelope.message_type) payload stream_id at in
      let tail : Envelope → Result ControlError (Unit {0}) = λ envelope.
        reject_if (not (int_eq envelope.contract_version protocol_version)) unsupported_version
        >> message envelope in
      let body = unmarshal (codec.envelope payload) >>= tail in
      let first =
        >>_iff (validate_strict_json_object codec payload) (check_no_nulls codec payload >> body) in
      let second = >>_iff (check_no_nulls codec payload) body in
      let third = >>=_iff (unmarshal (codec.envelope payload)) tail tt in
      let strict = strict_iff payload in
      (
        λ e.
            let (a, f) = first.0 e in
            let (b, g) = second.0 f in
            let (envelope, found, h) = third.0 g in
            let (version, kind, p, scope, checked) = (tail_iff payload stream_id at envelope).0 h in
            (
              strict.0 (a, b),
              (
                envelope,
                kind,
                (unmarshal_iff (codec.envelope payload) envelope).0 found,
                version,
                p,
                scope,
                checked,
              ),
            ),
        λ (s, (envelope, kind, found, version, p, scope, checked)).
            let (a, b) = strict.1 s in
            let read = (unmarshal_iff (codec.envelope payload) envelope).1 found in
            let rest =
              (tail_iff payload stream_id at envelope).1 (version, kind, p, scope, checked) in
            first.1 (a, second.1 (b, third.1 (envelope, read, rest))),
      )
