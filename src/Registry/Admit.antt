-- ===== src/Registry/Admit.antt =====
-- internal/gateway/gateway.go: what `registerSession` does once it is decided where the session goes.
use hooshi_xagent.Registry.Standby.{
  standby-IsAmong, is_none-true, is_none-false, evict-IsWellFormed,
}
use hooshi_xagent.Registry.{
  set_primary, Heap, Gateway, Registered, RegisterError, device_capacity, device_tunnels, same_key,
  delete, place, older, oldest_standby, is_none, recycle, count_reject,
}
use hooshi_xagent.Registry.Lists.{IsAmong}
use hooshi_xagent.Registry.Invariant.{
  insert_keeps, set_primary_cases, IsWellFormed, HasRoom, RoutesWell, place-IsWellFormed,
  length-delete, delete_shrinks, deleted-IsAmong, same_key_iff,
}
use hooshi_xagent.Base.{
  ℕ, Bool, true, false, Option, some, none, ◌≡◌, ◌<◌, inl, inr, length, arith, refl, ok, err,
  if◌then◌else◌, subst, sym, ◌∙◌,
}
use mathlib.Core.Bool.{true≢false}

-- The arrival has its tunnel, and a routing primary keeps routing and its tunnel unless the arrival
-- has the primary's own session identifier.
abbrev pub Accepted : Heap → Gateway → ℕ → Gateway → Type 0
Accepted heap gateway sess gateway' =
    IsAmong sess gateway'.tunnels
    × ((device p : ℕ)
        → gateway.primaries device ≡ some p
        → same_key heap sess p ≡ false
        → (gateway'.primaries device ≡ some p) × IsAmong p gateway'.tunnels)

abbrev pub Registers : Heap → Gateway → ℕ → Registered → Type 0
Registers heap gateway sess (gateway', ok closed) =
    IsWellFormed heap gateway' × Accepted heap gateway sess gateway'
Registers heap gateway sess (gateway', err e) =
    IsWellFormed heap gateway'
    × (gateway'.tunnels ≡ gateway.tunnels)
    × (gateway'.primaries ≡ gateway.primaries)

place-Accepted :
    (heap : Heap) (gateway : Gateway) (s : ℕ) (takes_over : Bool)
    → IsWellFormed heap gateway
    → (takes_over ≡ true
        → (p : ℕ) → gateway.primaries (heap.device_id s) ≡ some p
        → same_key heap s p ≡ true)
    → Accepted heap gateway s (place heap gateway s takes_over)
unfolding place
place-Accepted heap gateway s takes_over w own = (
  insert_keeps heap s s gateway.tunnels (inl refl),
  λ device p h k. (
    routes takes_over own device p h k,
    insert_keeps heap s p gateway.tunnels (inr ((w.primary_known device p h).0, k)),
  ),
)
  where
    routes :
        (b : Bool)
        → (b ≡ true
            → (p : ℕ) → gateway.primaries (heap.device_id s) ≡ some p
            → same_key heap s p ≡ true)
        → (device p : ℕ) → gateway.primaries device ≡ some p
        → same_key heap s p ≡ false
        → (if b
              then set_primary gateway.primaries (heap.device_id s) (some s)
              else gateway.primaries)
            device
          ≡ some p
    routes false own device p h k = h
    routes true own device p h k =
        elim (set_primary_cases gateway.primaries (heap.device_id s) device (some s)) [
          | inl (e, f) ↦
              absurd
                (true≢false (sym (own refl p (subst (λ d. gateway.primaries d ≡ some p) e h)) ∙ k))
          | inr (n, f) ↦ f ∙ h
        ]

pub place_lem :
    (heap : Heap) (gateway : Gateway) (s : ℕ) (takes_over : Bool) (closed : Option ℕ)
    → IsWellFormed heap gateway
    → HasRoom heap gateway s
    → RoutesWell heap gateway s takes_over
    → (takes_over ≡ true
        → (p : ℕ) → gateway.primaries (heap.device_id s) ≡ some p
        → same_key heap s p ≡ true)
    → Registers heap gateway s (place heap gateway s takes_over, ok closed)
place_lem heap gateway s takes_over closed w room r own = (
  place-IsWellFormed heap gateway s takes_over w room r,
  place-Accepted heap gateway s takes_over w own,
)

recycled_room :
    (heap : Heap) (gateway : Gateway) (s victim : ℕ)
    → IsWellFormed heap gateway
    → IsAmong victim gateway.tunnels
    → heap.device_id victim ≡ heap.device_id s
    → HasRoom heap (record gateway { tunnels = delete heap victim gateway.tunnels }) s
recycled_room heap gateway s victim w a b =
    let own =
      delete_shrinks heap victim victim gateway.tunnels a
        ((same_key_iff heap victim victim).1 (refl, refl)) in
    let rest = length-delete heap s (heap.device_id victim) (delete heap victim gateway.tunnels) in
    (
      omega (arith, w.total, own.0, rest.0),
      subst
          (λ d.
            length (device_tunnels heap d (delete heap s (delete heap victim gateway.tunnels)))
            < gateway.max_tunnels_per_device)
          b (omega (arith, w.per_device (heap.device_id victim), own.1, rest.1)),
    )

-- A new session identifier, with room for it.
pub fresh_lem :
    (heap : Heap) (gateway : Gateway) (s : ℕ) (closed : Option ℕ)
    → IsWellFormed heap gateway
    → ((t : ℕ) → IsAmong t gateway.tunnels → same_key heap s t ≡ false)
    → HasRoom heap gateway s
    → Registers heap gateway s
        (place heap gateway s (is_none (gateway.primaries (heap.device_id s))), ok closed)
fresh_lem heap gateway s closed w new room =
    place_lem heap gateway s _ closed w room
      (λ e. (is_none-false _ e, λ p h. inr (new p (w.primary_known (heap.device_id s) p h).0)))
      (λ e p h. absurd (is_none-true _ p e h))

count_reject-IsWellFormed :
    (heap : Heap) (gateway : Gateway)
    → IsWellFormed heap gateway
    → IsWellFormed heap (count_reject gateway)
unfolding count_reject
count_reject-IsWellFormed heap gateway w = record {
  total = w.total;
  per_device = w.per_device;
  unique = w.unique;
  primary_known = w.primary_known;
  routed = w.routed;
}

pub reject_lem :
    (heap : Heap) (gateway : Gateway) (s : ℕ) (e : RegisterError)
    → IsWellFormed heap gateway
    → Registers heap gateway s (count_reject gateway, err e)
unfolding count_reject
reject_lem heap gateway s e w = (count_reject-IsWellFormed heap gateway w, refl, refl)

pub recycle_lem :
    (heap : Heap) (gateway : Gateway) (s : ℕ)
    → IsWellFormed heap gateway
    → ((t : ℕ) → IsAmong t gateway.tunnels → same_key heap s t ≡ false)
    → (victim : Option ℕ)
    → oldest_standby heap
        (device_tunnels heap (heap.device_id s) gateway.tunnels)
        (gateway.primaries (heap.device_id s))
      ≡ victim
    → Registers heap gateway s (recycle heap gateway s victim)
unfolding recycle oldest_standby
recycle_lem heap gateway s w new none h = reject_lem heap gateway s device_capacity w
recycle_lem heap gateway s w new (some victim) h =
    let (a, b, c) = standby-IsAmong heap (older heap) gateway (heap.device_id s) _ victim h in
    let w' = evict-IsWellFormed heap gateway victim w a (rw b c) in
    fresh_lem heap (record gateway { tunnels = delete heap victim gateway.tunnels }) s (some victim)
      w' (λ t m. new t (deleted-IsAmong heap victim t gateway.tunnels m).0)
      (recycled_room heap gateway s victim w a b)
