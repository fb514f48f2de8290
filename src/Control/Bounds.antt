-- ===== src/Control/Bounds.antt =====
-- internal/contractv1/validation.go: the numbers in the control messages that are accepted.
use hooshi_xagent.Control.{
  unmarshal, Envelope, ControlError, Codec, decode_control_strict, decode_strict,
  validate_strict_json_object, check_present, check_envelope, trailing_value,
}
use hooshi_xagent.Control.Messages.{Decoders, SessionReady}
use hooshi_xagent.Control.Payload.{check_session_ready, check_ids, check_offered}
use hooshi_xagent.Control.Dispatch.{check_window_update}
use hooshi_xagent.Contract.{Std}
use hooshi_xagent.Base.{
  List, [], ◌∷◌, ℕ, Bool, true, false, not, ◌||◌, Option, some, none, ok, reject_if, ℤ, pos, codes,
  ltb, ◌≡◌, ◌≤◌, >>=-eq-ok, arith, below, double, outside, outside_iff, refl, reject_if-eq-ok,
  reject_if_iff, ◌+◌, ◌↔◌, ◌∙◌,
}

unmarshal-eq-ok : {X : Type 0} (found : Option X) (x : X) → unmarshal found ≡ ok x → found ≡ some x
unmarshal-eq-ok none x e = cc
unmarshal-eq-ok (some y) x e = cc

module _ (codec : Codec) where
  -- A value that was decoded is what the decoder makes of the payload.
  pub decode_strict-eq-ok :
      {X : Type 0} (decode : List ℕ → Option X) (payload : List ℕ) (message : X)
      → decode_strict codec decode payload ≡ ok message
      → decode payload ≡ some message
  unfolding decode_strict
  decode_strict-eq-ok decode payload message e =
      let (m, found, g) = >>=-eq-ok (unmarshal (decode payload)) _ e in
      let (ended, b, same) = >>=-eq-ok (reject_if (not (codec.ends payload)) trailing_value) _ g in
      unmarshal-eq-ok (decode payload) message (found ∙ same)

  decode_control_strict-eq-ok :
      {X : Type 0} (decode : List ℕ → Option X) (payload : List ℕ) (message : X)
      → decode_control_strict codec decode payload ≡ ok message
      → decode payload ≡ some message
  unfolding decode_control_strict
  decode_control_strict-eq-ok decode payload message e =
      let (u, a, f) = >>=-eq-ok (validate_strict_json_object codec payload) _ e in
      decode_strict-eq-ok decode payload message f

either_iff : (a b : Bool) → (a || b ≡ false) ↔ ((a ≡ false) × (b ≡ false))
either_iff true b = (λ e. cc, λ (e, f). cc)
either_iff false b = (λ e. (refl, e), λ (e, f). f)

credit_bounds :
    (credit : ℕ) → (ltb credit 1 || ltb 8388608 credit) ≡ false → (1 ≤ credit) × (credit ≤ 8388608)
credit_bounds credit e = ground arith

twice_bounds : (beat idle : ℕ) → below (pos idle) (double (pos beat)) ≡ false → beat + beat ≤ idle
twice_bounds beat idle e = ground arith

-- The two intervals, once their guards have passed.
abbrev pub AreIntervals : ℤ → ℤ → Type 0
AreIntervals heartbeat timeout =
    (beat : ℕ) × (idle : ℕ) × (heartbeat ≡ pos beat)
    × (timeout ≡ pos idle)
    × ((5 ≤ beat) × (beat ≤ 60))
    × ((15 ≤ idle) × (idle ≤ 300))
    × (beat + beat ≤ idle)

intervals :
    (heartbeat timeout : ℤ)
    → outside 5 60 heartbeat ≡ false
    → (outside 15 300 timeout || below timeout (double heartbeat)) ≡ false
    → AreIntervals heartbeat timeout
intervals heartbeat timeout e f =
    let (wide, late) =
      (either_iff (outside 15 300 timeout) (below timeout (double heartbeat))).0 f in
    let (beat, p, beat_low, beat_high) = (outside_iff 5 60 heartbeat).0 e in
    let (idle, q, idle_low, idle_high) = (outside_iff 15 300 timeout).0 wide in
    (
      beat,
      idle,
      p,
      q,
      (beat_low, beat_high),
      (idle_low, idle_high),
      twice_bounds beat idle (rw (p, q) at late),
    )

module _ (std : Std) (codec : Codec) (decoders : Decoders) where
  -- A credit that passes is of at least one byte and at most `MaxWindowCreditBytes`, 8 MiB.
  pub check_window_update-bounds :
      (payload : List ℕ)
      → check_window_update std codec decoders payload ≡ ok tt
      → (envelope : Envelope) × (credit : ℕ) × (decoders.window_update payload
          ≡ some (envelope, credit))
        × (1 ≤ credit)
        × (credit ≤ 8388608)
  unfolding check_window_update
  check_window_update-bounds payload e =
      let (u, a, f) = >>=-eq-ok (check_present codec payload (codes "credit_bytes" ∷ [])) _ e in
      let ((envelope, credit), found, g) =
        >>=-eq-ok (decode_control_strict codec (decoders.window_update) payload) _ f in
      let (v, b, h) = >>=-eq-ok (check_envelope (codes "stream_window_update") envelope) _ g in
      let (low, high) =
        credit_bounds credit
          ((reject_if_iff (ltb credit 1 || ltb 8388608 credit) ControlError.out_of_bounds).0 h) in
      (
        envelope,
        credit,
        decode_control_strict-eq-ok codec (decoders.window_update) payload (envelope, credit) found,
        low,
        high,
      )

  -- The intervals of an accepted `session_ready`: a heartbeat from 5 to 60 seconds, and an idle
  -- timeout from 15 to 300 in which two heartbeats fit.
  pub check_session_ready-bounds :
      (payload : List ℕ)
      → check_session_ready std codec decoders payload ≡ ok tt
      → (envelope : Envelope) × (ready : SessionReady) × (decoders.ready payload
          ≡ some (envelope, ready))
        × AreIntervals ready.heartbeat_interval_seconds ready.idle_timeout_seconds
  unfolding check_session_ready
  check_session_ready-bounds payload e =
      let (u, a, f) =
        >>=-eq-ok
          (check_present codec payload
            (codes "heartbeat_interval_seconds" ∷ codes "idle_timeout_seconds" ∷ []))
          _ e in
      let ((envelope, ready), found, g) =
        >>=-eq-ok (decode_control_strict codec (decoders.ready) payload) _ f in
      let (v, b, h) = >>=-eq-ok (check_envelope (codes "session_ready") envelope) _ g in
      let (w, c, i) = >>=-eq-ok (check_ids std codec decoders (ready.session_id ∷ [])) _ h in
      let (names, d, j) = >>=-eq-ok (unmarshal (codec.member_names payload)) _ i in
      let (x, k, l) =
        >>=-eq-ok (check_offered std codec decoders names ready.resume_challenge) _ j in
      let (first, last) =
        reject_if-eq-ok (outside 5 60 ready.heartbeat_interval_seconds) ControlError.out_of_bounds _
          l in
      let late = below ready.idle_timeout_seconds (double ready.heartbeat_interval_seconds) in
      let wide = outside 15 300 ready.idle_timeout_seconds in
      let second = (reject_if_iff (wide || late) ControlError.out_of_bounds).0 last in
      (
        envelope,
        ready,
        decode_control_strict-eq-ok codec (decoders.ready) payload (envelope, ready) found,
        intervals ready.heartbeat_interval_seconds ready.idle_timeout_seconds first second,
      )
