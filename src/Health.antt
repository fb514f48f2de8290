-- ===== src/Health.antt =====
-- internal/agent/tunnelstates/machine.go: the connection health state machine.
pub mod Diagram
pub mod Aggregate
pub mod Examples
use hooshi_xagent.Base.{
  ==_iff, >>=-eq-ok, All, All-append, All-drop, All-take, Bool, Bool-cases, List, Option,
  Option-cases, Result, [], ap, arith, bytes_eq, bytes_eq_sound, bytes_eq_refl, drop, drop-drop,
  err, false, if◌then◌else◌, inl, inr, leb, leb→le, length, length-append, length-drop,
  length-take_of_le, ltb, ltb→lt, lt→ltb, map, negsuc, none, not, ok, pos, refl, reject_if,
  reject_if-eq-ok, some, subst, suc, sym, take, take-append-drop, take-drop-append, true, zero, ℕ,
  ℤ, ◌%◌, ◌&&◌, ◌*◌, ◌++◌, ◌+◌, ◌-◌, ◌/◌, ◌<◌, ◌==◌, ◌>>=◌, ◌>>◌, ◌^◌, ◌||◌, ◌↔◌, ◌∙◌, ◌∷◌, ◌≡◌,
  ◌≢◌, ◌≤◌, ◌⊎◌,
}

-- The seven declared states. A `State` outside them is not made anywhere.
pub data State : Type 0 where
  init connecting connected degraded reconnecting revoked shutdown : State

pub State-discrete : Discrete State
State-discrete = hlevel

abbrev pub state_eq : State → State → Bool
state_eq init init = true
state_eq connecting connecting = true
state_eq connected connected = true
state_eq degraded degraded = true
state_eq reconnecting reconnecting = true
state_eq revoked revoked = true
state_eq shutdown shutdown = true
state_eq _ _ = false

pub terminal : State → Bool
terminal revoked = true
terminal shutdown = true
terminal _ = false

legal_transitions : State → List State
legal_transitions init = connecting ∷ shutdown ∷ []
legal_transitions connecting = connected ∷ reconnecting ∷ revoked ∷ shutdown ∷ []
legal_transitions connected = degraded ∷ reconnecting ∷ revoked ∷ shutdown ∷ []
legal_transitions degraded = connected ∷ reconnecting ∷ revoked ∷ shutdown ∷ []
legal_transitions reconnecting = connecting ∷ connected ∷ revoked ∷ shutdown ∷ []
legal_transitions revoked = []
legal_transitions shutdown = []

contains : List State → State → Bool
contains [] to = false
contains (candidate ∷ rest) to = if state_eq candidate to then true else contains rest to

can_transition : State → State → Bool
unfolding legal_transitions contains
can_transition from to = contains (legal_transitions from) to

-- `machine.Transition`: the new state, and whether the call returned `nil`.
pub transition : State → State → State × Bool
unfolding terminal can_transition
transition state to =
    if terminal state
    then (state, false)
    else if state_eq state to
    then (state, true)
    else if not (can_transition state to)
    then (state, false)
    else (to, true)

-- A lifetime of calls, each made whatever the last one returned.
pub run : State → List State → State
run state [] = state
run state (to ∷ rest) = run (transition state to).0 rest
