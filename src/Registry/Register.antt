-- ===== src/Registry/Register.antt =====
-- internal/gateway/gateway.go: `registerSession` keeps the registry right, on every branch.
use hooshi_xagent.Registry.Standby.{is_none-true, is_none-false, is_ref_iff}
use hooshi_xagent.Registry.Admit.{Registers, place_lem, fresh_lem, reject_lem, recycle_lem}
use hooshi_xagent.Registry.{
  Heap, Gateway, device_tunnels, same_key, delete, is_ref, is_none, replace, admit, register_known,
  register_session, session_capacity,
}
use hooshi_xagent.Registry.Lists.{IsAmong, find, find-none, find-some}
use hooshi_xagent.Registry.Invariant.{
  same_key_both, IsWellFormed, HasRoom, length-delete, delete_shrinks, same_key_iff,
}
use hooshi_xagent.Base.{
  ℕ, true, false, Option, some, none, ◌≡◌, ◌<◌, ◌⊎◌, inl, inr, length, arith, refl, ok, Bool-cases,
  subst, ◌∙◌, ==_iff, ap, if_cases, leb, ◌==◌, ◌||◌,
}
use mathlib.Core.Option.{some-injective, none-ne-some, some-ne-none}
use mathlib.Core.Bool.{true≢false}

known_room :
    (heap : Heap) (gateway : Gateway) (s old : ℕ)
    → IsWellFormed heap gateway
    → IsAmong old gateway.tunnels
    → same_key heap s old ≡ true
    → HasRoom heap gateway s
known_room heap gateway s old w m k =
    let (a, b) = delete_shrinks heap s old gateway.tunnels m k in
    let (device, _) = (same_key_iff heap s old).0 k in
    (
      omega (arith, w.total, a),
      subst
          (λ d.
            length (device_tunnels heap d (delete heap s gateway.tunnels))
            < gateway.max_tunnels_per_device)
          device (omega (arith, w.per_device (heap.device_id old), b)),
    )

-- The primary of a known session identifier: it is the session that holds it, or has another one.
own_primary :
    (heap : Heap) (gateway : Gateway) (s old p : ℕ)
    → IsWellFormed heap gateway
    → IsAmong old gateway.tunnels
    → same_key heap s old ≡ true
    → gateway.primaries (heap.device_id s) ≡ some p
    → (p ≡ old) ⊎ (same_key heap s p ≡ false)
own_primary heap gateway s old p w m k h =
    let (a, b) = w.primary_known (heap.device_id s) p h in
    elim (Bool-cases (same_key heap s p)) [
      | inl e ↦ inl (w.unique p old a m (same_key_both heap s p old e k))
      | inr n ↦ inr n
    ]

takes_over_cases :
    (primary : Option ℕ) (old : ℕ)
    → ((is_none primary || is_ref primary old) ≡ false
        → ¬ (primary ≡ none) × ¬ (primary ≡ some old))
      × ((is_none primary || is_ref primary old) ≡ true → (p : ℕ) → primary ≡ some p → p ≡ old)
unfolding is_none is_ref
takes_over_cases none old = (λ h. absurd (true≢false h), λ h p e. absurd (none-ne-some p e))
takes_over_cases (some x) old = (
  λ h. (some-ne-none x, λ e. is_ref_iff (some x) old h e),
  λ h p e. let i = some-injective x p e in ground arith,
)

-- The counter of reconnects is all that differs.
reconnected :
    (heap : Heap) (gateway : Gateway) (s : ℕ) (placed : Gateway) (closed : Option ℕ) {count : ℕ}
    → Registers heap gateway s (placed, ok closed)
    → Registers heap gateway s (record placed { reconnects = count }, ok closed)
reconnected heap gateway s placed closed (w, a) = (
  record {
    total = w.total;
    per_device = w.per_device;
    unique = w.unique;
    primary_known = w.primary_known;
    routed = w.routed;
  },
  a,
)

replace_lem :
    (heap : Heap) (gateway : Gateway) (s old : ℕ)
    → IsWellFormed heap gateway
    → IsAmong old gateway.tunnels
    → same_key heap s old ≡ true
    → Registers heap gateway s (replace heap gateway s old)
unfolding replace
replace_lem heap gateway s old w m k =
    if_cases (Registers heap gateway s) (old == s)
      (λ e.
        let same : old ≡ s = (==_iff old s).0 e in
        place_lem heap gateway s _ none w (known_room heap gateway s old w m k)
          (λ e. (
            is_none-false _ e,
            λ p h. elim (own_primary heap gateway s old p w m k h) [
              | inl i ↦ inl (i ∙ same)
              | inr j ↦ inr j
            ],
          ))
          (λ e p h. absurd (is_none-true _ p e h)))
      (λ _.
        let (keeps, takes) = takes_over_cases (gateway.primaries (heap.device_id s)) old in
        reconnected heap gateway s _ (some old) (
          place_lem heap gateway s _ (some old) w (known_room heap gateway s old w m k)
            (λ e. (
              (keeps e).0,
              λ p h. elim (own_primary heap gateway s old p w m k h) [
                | inl i ↦ absurd ((keeps e).1 (h ∙ ap some i))
                | inr j ↦ inr j
              ],
            ))
            (λ e p h. rw (takes e p h) k)))

leb-false : (a b : ℕ) → leb a b ≡ false → b < a
leb-false a b h = ground arith

admit_lem :
    (heap : Heap) (gateway : Gateway) (s : ℕ)
    → IsWellFormed heap gateway
    → ((t : ℕ) → IsAmong t gateway.tunnels → same_key heap s t ≡ false)
    → Registers heap gateway s (admit heap gateway s)
unfolding admit
admit_lem heap gateway s w new =
    if_cases (Registers heap gateway s) _ (λ _. reject_lem heap gateway s session_capacity w)
      (λ a.
        if_cases (Registers heap gateway s) _ (λ _. recycle_lem heap gateway s w new _ refl)
          (λ b. fresh_lem heap gateway s none w new (
            omega (
              arith,
              leb-false gateway.max_agent_sessions (length gateway.tunnels) a,
              (length-delete heap s 0 gateway.tunnels).0,
            ),
            omega (
              arith,
              leb-false gateway.max_tunnels_per_device
                  (length (device_tunnels heap (heap.device_id s) gateway.tunnels)) b,
              (length-delete heap s (heap.device_id s) gateway.tunnels).1,
            ),
          )))

known_lem :
    (heap : Heap) (gateway : Gateway) (s : ℕ) (found : Option ℕ)
    → find (same_key heap s) gateway.tunnels ≡ found
    → IsWellFormed heap gateway
    → Registers heap gateway s (register_known heap gateway s found)
unfolding register_known
known_lem heap gateway s none h w =
    admit_lem heap gateway s w (λ t. find-none (same_key heap s) t gateway.tunnels h)
known_lem heap gateway s (some old) h w =
    let (a, b) = find-some (same_key heap s) old gateway.tunnels h in
    replace_lem heap gateway s old w a b

-- A registration keeps the registry well formed: the bounds on the tunnels of the gateway and of
-- the device hold, and the routing primary of each device is one of its tunnels. A session that is
-- accepted has its tunnel; every routing primary keeps routing and its tunnel, unless the arrival
-- is the same device's with the same session identifier. A refusal changes no tunnel and no routing.
pub register_session_lem :
    (heap : Heap) (gateway : Gateway) (sess : ℕ)
    → IsWellFormed heap gateway
    → Registers heap gateway sess (register_session heap gateway sess)
unfolding register_session
register_session_lem heap gateway sess w =
    if_cases (Registers heap gateway sess) gateway.draining (λ _. (w, refl, refl))
      (λ _. known_lem heap gateway sess _ refl w)
