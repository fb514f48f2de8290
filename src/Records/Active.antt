-- ===== src/Records/Active.antt =====
-- internal/contractv1/validation.go: an authorization and a route that a parser returns for an
-- instant are in force then.
use hooshi_xagent.Records.{
  Panel, time_of, check_active, parse_device_session_authorization,
  parse_device_session_authorization_record, check_authorization,
  validate_device_session_authorization_at, DeviceSessionAuthorization, is_version, all_ids,
  check_digest, check_route, parse_endpoint_route_assignment_record,
  parse_endpoint_route_assignment, EndpointRouteAssignment, validate_endpoint_route_assignment_at,
}
use hooshi_xagent.Control.{
  ControlError, Codec, validate_strict_json_object, check_no_nulls, check_present, decode_strict,
}
use hooshi_xagent.Contract.{Std, parse_utc_time, validate_raw_base64_length}
use hooshi_xagent.Base.{
  List, ℕ, false, not, ◌||◌, ok, ltb, ◌≡◌, ◌≤◌, ◌<◌, >>=-eq-ok, arith, reject_if_iff,
  with_fault_iff, Bool, [], ap, codes, ok-injective, refl, reject_if-eq-ok, some, subst, sym, true,
  with_fault, ◌∙◌, ◌∷◌,
}
use hooshi_xagent.Control.Bounds.{decode_strict-eq-ok}
use hooshi_xagent.Records.Labels.{IsHostname, validate_hostname-IsHostname}
use hooshi_xagent.Records.Hostname.{validate_hostname}

before_and_after :
    (at not_before expires_at : ℕ)
    → (ltb at not_before || not (ltb at expires_at)) ≡ false
    → (not_before ≤ at) × (at < expires_at)
before_and_after at not_before expires_at e = ground arith

enabled_of : (b : Bool) → not b ≡ false → b ≡ true
enabled_of true e = refl
enabled_of false e = cc

ordered :
    (issued_at not_before expires_at : ℕ)
    → (ltb not_before issued_at || not (ltb not_before expires_at)) ≡ false
    → (issued_at ≤ not_before) × (not_before < expires_at)
ordered issued_at not_before expires_at e = ground arith

module _ (std : Std) (codec : Codec) (panel : Panel) where
  -- The instant is in the interval that the two texts name.
  abbrev pub IsActive : List ℕ → List ℕ → ℕ → Type 0
  IsActive not_before_text expires_at_text at =
      (not_before : ℕ) × (expires_at : ℕ) × (parse_utc_time std not_before_text ≡ ok not_before)
      × (parse_utc_time std expires_at_text ≡ ok expires_at)
      × (not_before ≤ at)
      × (at < expires_at)

  check_active-IsActive :
      (not_before_text expires_at_text : List ℕ) (at : ℕ)
      → check_active std codec panel not_before_text expires_at_text at ≡ ok tt
      → IsActive not_before_text expires_at_text at
  unfolding check_active time_of
  check_active-IsActive not_before_text expires_at_text at e =
      let (not_before, p, f) = >>=-eq-ok (time_of std codec panel not_before_text) _ e in
      let (expires_at, q, g) = >>=-eq-ok (time_of std codec panel expires_at_text) _ f in
      let over = ltb at not_before || not (ltb at expires_at) in
      let (low, high) =
        before_and_after at not_before expires_at
          ((reject_if_iff over ControlError.inactive).0 g) in
      (
        not_before,
        expires_at,
        (with_fault_iff ControlError.contract (parse_utc_time std not_before_text) not_before).0 p,
        (with_fault_iff ControlError.contract (parse_utc_time std expires_at_text) expires_at).0 q,
        low,
        high,
      )

  -- A record that was parsed is what the payload carries, and its times are in order.
  authorization_record :
      (payload : List ℕ) (r : DeviceSessionAuthorization)
      → parse_device_session_authorization_record std codec panel payload ≡ ok r
      → (panel.authorization payload ≡ some r) × (check_authorization std codec panel r ≡ ok tt)
  unfolding parse_device_session_authorization_record
  authorization_record payload r e =
      let (u, p, f) = >>=-eq-ok (validate_strict_json_object codec payload) _ e in
      let (v, q, g) = >>=-eq-ok (check_no_nulls codec payload) _ f in
      let (w, s, h) = >>=-eq-ok (check_present codec payload (codes "disabled" ∷ [])) _ g in
      let (found, t, i) = >>=-eq-ok (decode_strict codec (panel.authorization) payload) _ h in
      let (x, checked, same) = >>=-eq-ok (check_authorization std codec panel found) _ i in
      let eq : found ≡ r = ok-injective found r same in
      (decode_strict-eq-ok codec (panel.authorization) payload r (t ∙ ap ok eq), rw (← eq) checked)

  issued_first :
      (r : DeviceSessionAuthorization)
      → check_authorization std codec panel r ≡ ok tt
      → (issued_at : ℕ) × (not_before : ℕ) × (parse_utc_time std r.issued_at ≡ ok issued_at)
        × (parse_utc_time std r.not_before ≡ ok not_before)
        × (issued_at ≤ not_before)
  unfolding check_authorization time_of
  issued_first r e =
      let (u, p, f) = >>=-eq-ok (is_version std codec panel r.contract_version) _ e in
      let (v, q, g) =
        >>=-eq-ok (all_ids std codec panel (r.authorization_id ∷ r.device_id ∷ r.token_id ∷ [])) _
          f in
      let (w, s, h) =
        >>=-eq-ok
          (with_fault ControlError.contract (validate_raw_base64_length std r.device_public_key 32))
          _ g in
      let (x, t, i) = >>=-eq-ok (check_digest std codec panel r.token_sha256) _ h in
      let (issued_at, a, j) = >>=-eq-ok (time_of std codec panel r.issued_at) _ i in
      let (not_before, b, k) = >>=-eq-ok (time_of std codec panel r.not_before) _ j in
      let (expires_at, c, l) = >>=-eq-ok (time_of std codec panel r.expires_at) _ k in
      let bad = ltb not_before issued_at || not (ltb not_before expires_at) in
      let (first, second) =
        ordered issued_at not_before expires_at
          ((reject_if_iff bad ControlError.invalid_times).0 l) in
      (
        issued_at,
        not_before,
        (with_fault_iff ControlError.contract (parse_utc_time std r.issued_at) issued_at).0 a,
        (with_fault_iff ControlError.contract (parse_utc_time std r.not_before) not_before).0 b,
        first,
      )

  -- The authorization is not disabled, was issued by the instant, and the instant is in its interval.
  abbrev pub IsInForce : DeviceSessionAuthorization → ℕ → Type 0
  IsInForce r at =
      (r.disabled ≡ false)
      × ((issued_at : ℕ) × (parse_utc_time std r.issued_at ≡ ok issued_at) × (issued_at ≤ at))
      × IsActive r.not_before r.expires_at at

  authorization-IsInForce :
      (r : DeviceSessionAuthorization) (at : ℕ)
      → check_authorization std codec panel r ≡ ok tt
      → validate_device_session_authorization_at std codec panel r at ≡ ok tt
      → IsInForce r at
  unfolding validate_device_session_authorization_at
  authorization-IsInForce r at checked valid =
      let (issued_at, start, p, q, order) = issued_first r checked in
      let (enabled, active) = reject_if-eq-ok r.disabled ControlError.disabled _ valid in
      let (not_before, expires_at, s, t, low, high) =
        check_active-IsActive r.not_before r.expires_at at active in
      let same : start ≡ not_before = ok-injective start not_before (sym q ∙ s) in
      (enabled, (issued_at, p, omega arith), (not_before, expires_at, s, t, low, high))

  -- The authorization that is returned for an instant is the one that the payload carries, is not
  -- disabled, was issued by then, and is in force: the instant is not before `not_before` and is
  -- before `expires_at`.
  pub parse_device_session_authorization-IsInForce :
      (payload : List ℕ) (at : ℕ) (r : DeviceSessionAuthorization)
      → parse_device_session_authorization std codec panel payload at ≡ ok r
      → (panel.authorization payload ≡ some r) × IsInForce r at
  unfolding parse_device_session_authorization
  parse_device_session_authorization-IsInForce payload at r e =
      let parsed = parse_device_session_authorization_record std codec panel payload in
      let (found, p, f) = >>=-eq-ok parsed _ e in
      let valid = validate_device_session_authorization_at std codec panel found at in
      let (u, q, same) = >>=-eq-ok valid _ f in
      let eq : found ≡ r = ok-injective found r same in
      let (carried, checked) = authorization_record payload r (p ∙ ap ok eq) in
      (
        carried,
        authorization-IsInForce r at checked (
            subst (λ x. validate_device_session_authorization_at std codec panel x at ≡ ok tt) eq
              q),
      )

  checked_hostname :
      (r : EndpointRouteAssignment)
      → check_route std codec panel r ≡ ok tt
      → validate_hostname r.public_hostname ≡ ok tt
  unfolding check_route
  checked_hostname r e =
      let (u, p, f) = >>=-eq-ok (is_version std codec panel r.contract_version) _ e in
      let routed = r.assignment_id ∷ r.endpoint_id ∷ r.device_id ∷ r.local_endpoint_id ∷ [] in
      let (v, q, g) = >>=-eq-ok (all_ids std codec panel routed) _ f in
      let (w, s, h) = >>=-eq-ok (validate_hostname r.public_hostname) _ g in s

  route_record :
      (payload : List ℕ) (r : EndpointRouteAssignment)
      → parse_endpoint_route_assignment_record std codec panel payload ≡ ok r
      → (panel.route payload ≡ some r) × (validate_hostname r.public_hostname ≡ ok tt)
  unfolding parse_endpoint_route_assignment_record
  route_record payload r e =
      let (u, p, f) = >>=-eq-ok (validate_strict_json_object codec payload) _ e in
      let (v, q, g) = >>=-eq-ok (check_no_nulls codec payload) _ f in
      let (w, s, h) = >>=-eq-ok (check_present codec payload (codes "enabled" ∷ [])) _ g in
      let (found, t, i) = >>=-eq-ok (decode_strict codec (panel.route) payload) _ h in
      let (x, checked, same) = >>=-eq-ok (check_route std codec panel found) _ i in
      let eq : found ≡ r = ok-injective found r same in
      (
        decode_strict-eq-ok codec (panel.route) payload r (t ∙ ap ok eq),
        subst (λ y. validate_hostname y.public_hostname ≡ ok tt) eq
            (checked_hostname found checked),
      )

  -- The route that is returned for an instant is the one that the payload carries, is enabled, its
  -- hostname consists of two labels or more, of 253 bytes at most, each a label of letters, digits and
  -- hyphens with none at its ends, the last of letters only, and the instant is in its interval.
  pub parse_endpoint_route_assignment-IsActive :
      (payload : List ℕ) (at : ℕ) (r : EndpointRouteAssignment)
      → parse_endpoint_route_assignment std codec panel payload at ≡ ok r
      → (panel.route payload ≡ some r)
        × (r.enabled ≡ true)
        × IsHostname r.public_hostname
        × IsActive r.not_before r.expires_at at
  unfolding parse_endpoint_route_assignment validate_endpoint_route_assignment_at
  parse_endpoint_route_assignment-IsActive payload at r e =
      let parsed = parse_endpoint_route_assignment_record std codec panel payload in
      let (found, p, f) = >>=-eq-ok parsed _ e in
      let (u, q, same) =
        >>=-eq-ok (validate_endpoint_route_assignment_at std codec panel found at) _ f in
      let eq : found ≡ r = ok-injective found r same in
      let (carried, hostname) = route_record payload r (p ∙ ap ok eq) in
      let valid =
        subst (λ x. validate_endpoint_route_assignment_at std codec panel x at ≡ ok tt) eq q in
      let (off, active) = reject_if-eq-ok (not r.enabled) ControlError.disabled _ valid in
      (
        carried,
        enabled_of r.enabled off,
        validate_hostname-IsHostname r.public_hostname hostname,
        check_active-IsActive r.not_before r.expires_at at active,
      )
