-- ===== src/Control/Messages.antt =====
-- internal/contractv1/validation.go: the control messages, without the two fields of the envelope.
use hooshi_xagent.Control.{Envelope}
use hooshi_xagent.Contract.Transcript.{ClientHello, ServerChallenge, ClientAuth, ResumeSession}
use hooshi_xagent.Base.{List, ℕ, ℤ, Bool, Option}

pub record SessionReady : Type 0 where
  pub session_id : List ℕ
  pub heartbeat_interval_seconds : ℤ
  pub idle_timeout_seconds : ℤ
  pub resume_challenge : List ℕ

pub record Heartbeat : Type 0 where
  pub ping_id : List ℕ
  pub sent_at : List ℕ
  pub received_at : List ℕ

pub record HealthReport : Type 0 where
  pub report_id : List ℕ
  pub generated_at : List ℕ
  pub active_streams : ℤ
  pub queued_frames : ℤ
  pub reconnect_count : ℤ
  pub last_reconnect_at : List ℕ
  pub agent_version : List ℕ

pub record StreamOpen : Type 0 where
  pub endpoint_id : List ℕ
  pub assignment_id : List ℕ
  pub local_endpoint_id : List ℕ
  pub request_id : List ℕ
  pub mode : List ℕ

pub record StreamError : Type 0 where
  pub code : List ℕ
  pub message : List ℕ
  pub retryable : Bool

pub record SessionRevoked : Type 0 where
  pub authorization_id : List ℕ
  pub reason_code : List ℕ

pub record SessionResumed : Type 0 where
  pub session_id : List ℕ
  pub next_sequence : ℕ
  pub resumed_at : List ℕ
  pub resume_challenge : List ℕ

-- `Decode` of a payload into each type of message, with unknown members refused. A half-close has the
-- envelope only, a window update its `credit_bytes` (`uint32`), a close its `reason_code`.
pub record Decoders : Type 0 where
  pub hello : List ℕ → Option (Envelope × ClientHello)
  pub challenge : List ℕ → Option (Envelope × ServerChallenge)
  pub auth : List ℕ → Option (Envelope × ClientAuth)
  pub ready : List ℕ → Option (Envelope × SessionReady)
  pub heartbeat : List ℕ → Option (Envelope × Heartbeat)
  pub report : List ℕ → Option (Envelope × HealthReport)
  pub opening : List ℕ → Option (Envelope × StreamOpen)
  pub half_close : List ℕ → Option Envelope
  pub window_update : List ℕ → Option (Envelope × ℕ)
  pub closing : List ℕ → Option (Envelope × List ℕ)
  pub failure : List ℕ → Option (Envelope × StreamError)
  pub revoked : List ℕ → Option (Envelope × SessionRevoked)
  pub resume : List ℕ → Option (Envelope × ResumeSession)
  pub resumed : List ℕ → Option (Envelope × SessionResumed)
