-- ===== src/Registry.antt =====
-- internal/gateway/gateway.go: the registry of the Agents' tunnel sessions. Every operation holds
-- the gateway's mutex, so it is one step. A session is a pointer, a number; the fields of the
-- session behind it that the registry reads are functions of the pointer. Identifiers are compared
-- for equality only, and are numbers. The two nested maps of `tunnels` are one list, in which a
-- session stands under its own device and session identifiers (the only keys that the code uses).
-- Go iterates over a map in any order: the order of the list, which is arbitrary, stands for it.
pub mod Lists
pub mod Invariant
pub mod Standby
pub mod Admit
pub mod Register
pub mod Unregister
pub mod Routing
pub mod Examples
use Lists.{keep, find}
use hooshi_xagent.Base.{
  ==_iff, >>=-eq-ok, All, All-append, All-drop, All-take, Bool, Bool-cases, List, Option,
  Option-cases, Result, [], ap, arith, bytes_eq, bytes_eq_refl, bytes_eq_sound, drop, drop-drop,
  err, false, if_cases, if◌then◌else◌, inl, inr, leb, leb→le, length, length-append, length-drop,
  length-take_of_le, ltb, ltb→lt, lt→ltb, map, negsuc, none, not, ok, pos, refl, reject_if,
  reject_if-eq-ok, some, subst, suc, sym, take, take-append-drop, take-drop-append, true, zero, ℕ,
  ℤ, ◌%◌, ◌&&◌, ◌*◌, ◌++◌, ◌+◌, ◌-◌, ◌/◌, ◌<◌, ◌==◌, ◌>>=◌, ◌>>◌, ◌^◌, ◌||◌, ◌↔◌, ◌∙◌, ◌∷◌, ◌≡◌,
  ◌≢◌, ◌≤◌, ◌⊎◌,
}
use hooshi_xagent.Registry.Lists.{keep-IsAmong}

-- What the registry reads of the sessions during a call. A zero expiry time is `none`.
pub record Heap : Type 0 where
  pub device_id : ℕ → ℕ
  pub session_id : ℕ → ℕ
  pub last_seen : ℕ → ℕ
  pub authorized : ℕ → Bool
  pub authorization_expires_at : ℕ → Option ℕ

pub record Gateway : Type 0 where
  pub max_agent_sessions : ℕ
  pub max_tunnels_per_device : ℕ
  pub draining : Bool
  pub tunnels : List ℕ
  pub primaries : ℕ → Option ℕ
  pub session_rejects : ℕ
  pub reconnects : ℕ

pub is_ref : Option ℕ → ℕ → Bool
is_ref none sess = false
is_ref (some other) sess = other == sess

pub device_tunnels : Heap → ℕ → List ℕ → List ℕ
device_tunnels heap device tunnels = keep (λ sess. heap.device_id sess == device) tunnels

pub same_key : Heap → ℕ → ℕ → Bool
same_key heap sess other =
    heap.device_id other == heap.device_id sess && heap.session_id other == heap.session_id sess

-- `delete(deviceTunnels, sess.sessionID)`
pub delete : Heap → ℕ → List ℕ → List ℕ
delete heap sess tunnels = keep (λ other. not (same_key heap sess other)) tunnels

-- `deviceTunnels[sess.sessionID] = sess`
pub insert : Heap → ℕ → List ℕ → List ℕ
unfolding delete
insert heap sess tunnels = sess ∷ delete heap sess tunnels

pub set_primary : (ℕ → Option ℕ) → ℕ → Option ℕ → ℕ → Option ℕ
set_primary primaries device primary x = if x == device then primary else primaries x

-- A loop over sessions that keeps the first one that no later one is better than.
pub pick : (ℕ → ℕ → Bool) → Option ℕ → List ℕ → Option ℕ
pick better best [] = best
pick better none (candidate ∷ rest) = pick better (some candidate) rest
pick better (some best) (candidate ∷ rest) =
    pick better (some (if better candidate best then candidate else best)) rest

pub older : Heap → ℕ → ℕ → Bool
older heap candidate best = ltb (heap.last_seen candidate) (heap.last_seen best)

pub newer : Heap → ℕ → ℕ → Bool
newer heap candidate best = ltb (heap.last_seen best) (heap.last_seen candidate)

pub standbys : Option ℕ → List ℕ → List ℕ
standbys primary tunnels = keep (λ candidate. not (is_ref primary candidate)) tunnels

pub oldest_standby : Heap → List ℕ → Option ℕ → Option ℕ
oldest_standby heap tunnels primary = pick (older heap) none (standbys primary tunnels)

pub data RegisterError : Type 0 where
  gateway_draining session_capacity device_capacity : RegisterError

-- A registration: the registry, and the session that the caller has to fail and close, or the error.
abbrev pub Registered : Type 0
Registered = Gateway × Result RegisterError (Option ℕ)

pub count_reject : Gateway → Gateway
count_reject gateway = record gateway { session_rejects = (gateway.session_rejects + 1) % 2 ^ 64 }

-- The session takes its place, and routing where the device has no primary or `takes_over`.
pub place : Heap → Gateway → ℕ → Bool → Gateway
place heap gateway sess takes_over = record gateway {
  tunnels = insert heap sess gateway.tunnels;
  primaries =
      if takes_over
      then set_primary gateway.primaries (heap.device_id sess) (some sess)
      else gateway.primaries;
}

pub is_none : Option ℕ → Bool
is_none none = true
is_none (some x) = false

-- The session identifier is known: `isReconnect` unless the session is registered again.
pub replace : Heap → Gateway → ℕ → ℕ → Registered
unfolding place is_none is_ref
replace heap gateway sess replaced =
    let primary = gateway.primaries (heap.device_id sess) in
    if replaced == sess
    then (place heap gateway sess (is_none primary), ok none)
    else let placed = place heap gateway sess (is_none primary || is_ref primary replaced) in
      (record placed { reconnects = (gateway.reconnects + 1) % 2 ^ 64 }, ok (some replaced))

-- The device has no room: its oldest standby makes way.
pub recycle : Heap → Gateway → ℕ → Option ℕ → Registered
unfolding place is_none count_reject
recycle heap gateway sess none = (count_reject gateway, err device_capacity)
recycle heap gateway sess (some victim) =
    let evicted = record gateway { tunnels = delete heap victim gateway.tunnels } in
    (place heap evicted sess (is_none (gateway.primaries (heap.device_id sess))), ok (some victim))

pub admit : Heap → Gateway → ℕ → Registered
unfolding count_reject recycle place is_none oldest_standby device_tunnels
admit heap gateway sess =
    let mine = device_tunnels heap (heap.device_id sess) gateway.tunnels in
    let primary = gateway.primaries (heap.device_id sess) in
    if leb gateway.max_agent_sessions (length gateway.tunnels)
    then (count_reject gateway, err session_capacity)
    else if leb gateway.max_tunnels_per_device (length mine)
    then recycle heap gateway sess (oldest_standby heap mine primary)
    else (place heap gateway sess (is_none primary), ok none)

pub register_known : Heap → Gateway → ℕ → Option ℕ → Registered
unfolding admit replace
register_known heap gateway sess none = admit heap gateway sess
register_known heap gateway sess (some replaced) = replace heap gateway sess replaced

pub register_session : Heap → Gateway → ℕ → Registered
unfolding register_known same_key
register_session heap gateway sess =
    if gateway.draining
    then (gateway, err gateway_draining)
    else register_known heap gateway sess (find (same_key heap sess) gateway.tunnels)

-- The primary's transport is gone: the oldest survivor is promoted.
pub promote : Heap → Gateway → ℕ → List ℕ → Gateway
unfolding set_primary pick older device_tunnels
promote heap gateway sess tunnels =
    let device = heap.device_id sess in
    let survivor = pick (older heap) none (device_tunnels heap device tunnels) in
    record gateway { tunnels = tunnels; primaries = set_primary gateway.primaries device survivor }

pub unregister_session : Heap → Gateway → ℕ → Gateway
unfolding same_key is_ref delete promote
unregister_session heap gateway sess =
    if not (is_ref (find (same_key heap sess) gateway.tunnels) sess)
    then gateway
    else let tunnels = delete heap sess gateway.tunnels in
      if is_ref (gateway.primaries (heap.device_id sess)) sess
      then promote heap gateway sess tunnels
      else record gateway { tunnels = tunnels }

pub unexpired : Option ℕ → ℕ → Bool
unexpired none now = true
unexpired (some expires_at) now = ltb now expires_at

-- `now` is the time at which the call looks at the clock.
pub routable_session : Heap → ℕ → Option ℕ → Bool
unfolding unexpired
routable_session heap now none = false
routable_session heap now (some sess) =
    heap.authorized sess && unexpired (heap.authorization_expires_at sess) now

pub session_for_device : Heap → Gateway → ℕ → ℕ → Option ℕ
unfolding routable_session device_tunnels standbys newer
session_for_device heap gateway now device =
    let primary = gateway.primaries device in
    let standby =
      pick (newer heap) none (standbys primary (device_tunnels heap device gateway.tunnels)) in
    if routable_session heap now primary
    then primary
    else if routable_session heap now standby
    then standby
    else none
