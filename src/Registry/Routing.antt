-- ===== src/Registry/Routing.antt =====
-- internal/gateway/gateway.go: which tunnel `sessionForDevice` hands to an ingress request.
use hooshi_xagent.Registry.{
  Heap, Gateway, device_tunnels, standbys, pick, newer, is_ref, routable_session,
  session_for_device,
}
use hooshi_xagent.Registry.Lists.{IsAmong, IsAmong-keep}
use hooshi_xagent.Registry.Invariant.{IsWellFormed, IsAmong-tunnels}
use hooshi_xagent.Registry.Standby.{standby-IsAmong}
use hooshi_xagent.Registry.Unregister.{pick-none}
use mathlib.Core.Option.{some-injective}
use native.Mathlib.Decide.{ℕ_discrete}
use mathlib.Core.Bool.{true≢false}
use hooshi_xagent.Base.{
  List, [], ◌∷◌, ℕ, Bool, true, false, not, Option, some, none, ◌≡◌, ◌≤◌, ◌⊎◌, inl, inr, arith,
  refl, ap, if_cases, subst, sym, ◌∙◌,
}

pick_step :
    (better : ℕ → ℕ → Bool) (b x : ℕ) (xs : List ℕ) (s : ℕ)
    → pick better (some b) (x ∷ xs) ≡ some s
    → ((better x b ≡ true) × (pick better (some x) xs ≡ some s))
      ⊎ ((better x b ≡ false) × (pick better (some b) xs ≡ some s))
unfolding pick
pick_step better b x xs s =
    if_cases
      (λ c.
        pick better (some c) xs ≡ some s
        → ((better x b ≡ true) × (pick better (some x) xs ≡ some s))
          ⊎ ((better x b ≡ false) × (pick better (some b) xs ≡ some s)))
      (better x b) (λ e h. inl (e, h)) (λ e h. inr (e, h))

newer_cases :
    (heap : Heap) (x b : ℕ)
    → (newer heap x b ≡ true → heap.last_seen b ≤ heap.last_seen x)
      × (newer heap x b ≡ false → heap.last_seen x ≤ heap.last_seen b)
unfolding newer
newer_cases heap x b = (ground arith, ground arith)

picked_last :
    (heap : Heap) (b s : ℕ)
    → pick (newer heap) (some b) [] ≡ some s
    → heap.last_seen b ≤ heap.last_seen s
unfolding pick
picked_last heap b s h = let i = some-injective b s h in rw i (omega arith)

-- The loop ends with a session that none of the others was seen after.
pick_newest :
    (heap : Heap) (best : ℕ) (xs : List ℕ) (s : ℕ)
    → pick (newer heap) (some best) xs ≡ some s
    → (heap.last_seen best ≤ heap.last_seen s)
      × ((t : ℕ) → IsAmong t xs → heap.last_seen t ≤ heap.last_seen s)
unfolding IsAmong
pick_newest heap best [] s h = (picked_last heap best s h, λ t m. absurd m)
pick_newest heap best (x ∷ xs) s h = elim (pick_step (newer heap) best x xs s h) [
  | inl (e, r) ↦
      let (a, b) = pick_newest heap x xs s r in
      (
        omega (arith, (newer_cases heap x best).0 e),
        λ t m. elim m [ inl i ↦ rw i a | inr n ↦ b t n ],
      )
  | inr (e, r) ↦
      let (a, b) = pick_newest heap best xs s r in
      (
        a,
        λ t m. elim m [
          | inl i ↦ rw i (omega (arith, (newer_cases heap x best).1 e))
          | inr n ↦ b t n
        ],
      )
]

newest_lem :
    (heap : Heap) (xs : List ℕ) (s t : ℕ)
    → pick (newer heap) none xs ≡ some s
    → IsAmong t xs
    → heap.last_seen t ≤ heap.last_seen s
unfolding pick IsAmong
newest_lem heap [] s t h m = absurd m
newest_lem heap (x ∷ xs) s t h m =
    let (a, b) = pick_newest heap x xs s h in elim m [ inl i ↦ rw i a | inr n ↦ b t n ]

abbrev standby : Heap → Gateway → ℕ → Option ℕ
standby heap gateway device =
    pick (newer heap) none
      (standbys (gateway.primaries device) (device_tunnels heap device gateway.tunnels))

-- The session is the routing primary; or the primary is not routable, and no tunnel of the device
-- that is not the primary was seen after it.
abbrev pub IsPreferred : Heap → Gateway → ℕ → ℕ → ℕ → Type 0
IsPreferred heap gateway now device s =
    (gateway.primaries device ≡ some s)
    ⊎ ((routable_session heap now (gateway.primaries device) ≡ false)
        × ((t : ℕ)
            → IsAmong t gateway.tunnels
            → heap.device_id t ≡ device
            → ¬ (gateway.primaries device ≡ some t)
            → heap.last_seen t ≤ heap.last_seen s))

-- What a request for a device gets: a routable tunnel of the device, the preferred one; or none, and then the primary
-- is not routable, and neither is the standby seen last, whatever the older standbys are.
abbrev pub Routes : Heap → Gateway → ℕ → ℕ → Option ℕ → Type 0
Routes heap gateway now device (some s) =
    IsAmong s gateway.tunnels
    × (heap.device_id s ≡ device)
    × (routable_session heap now (some s) ≡ true)
    × IsPreferred heap gateway now device s
Routes heap gateway now device none =
    (t : ℕ)
    → IsAmong t gateway.tunnels
    → heap.device_id t ≡ device
    → routable_session heap now (some t) ≡ true
    → ¬ (gateway.primaries device ≡ some t)
      × ((u : ℕ) × IsAmong u gateway.tunnels
          × (heap.device_id u ≡ device)
          × (routable_session heap now (some u) ≡ false)
          × (heap.last_seen t ≤ heap.last_seen u))

not_ref : (x : Option ℕ) (s : ℕ) → ¬ (x ≡ some s) → not (is_ref x s) ≡ true
unfolding is_ref
not_ref none s n = refl
not_ref (some x) s n = elim (ℕ_discrete x s) [
  | yes e ↦ absurd (n (ap some e))
  | no m ↦ ground (arith, m)
]

not_routable : (heap : Heap) (now : ℕ) → ¬ (routable_session heap now none ≡ true)
unfolding routable_session
not_routable heap now h = true≢false (sym h)

is_standby :
    (heap : Heap) (gateway : Gateway) (device t : ℕ)
    → IsAmong t gateway.tunnels
    → heap.device_id t ≡ device
    → ¬ (gateway.primaries device ≡ some t)
    → IsAmong t (standbys (gateway.primaries device) (device_tunnels heap device gateway.tunnels))
unfolding standbys
is_standby heap gateway device t m e n =
    IsAmong-keep _ t _
      (subst (λ d. IsAmong t (device_tunnels heap d gateway.tunnels)) e
        (IsAmong-tunnels heap t gateway.tunnels m))
      (not_ref _ t n)

none_routable :
    (heap : Heap) (gateway : Gateway) (now device : ℕ)
    → routable_session heap now (gateway.primaries device) ≡ false
    → (found : Option ℕ) → standby heap gateway device ≡ found
    → routable_session heap now found ≡ false
    → Routes heap gateway now device none
none_routable heap gateway now device p none e f t m d r =
    let other : ¬ (gateway.primaries device ≡ some t) =
      λ i. true≢false (sym r ∙ (ap (routable_session heap now) (sym i) ∙ p)) in
    absurd (pick-none (newer heap) _ t e (is_standby heap gateway device t m d other))
none_routable heap gateway now device p (some u) e f t m d r =
    let other : ¬ (gateway.primaries device ≡ some t) =
      λ i. true≢false (sym r ∙ (ap (routable_session heap now) (sym i) ∙ p)) in
    let (a, b, _) = standby-IsAmong heap (newer heap) gateway device _ u e in
    (other, (u, a, b, f, newest_lem heap _ u t e (is_standby heap gateway device t m d other)))

some_routable :
    (heap : Heap) (gateway : Gateway) (now device : ℕ) (found : Option ℕ)
    → ((s : ℕ)
        → found ≡ some s
        → IsAmong s gateway.tunnels
          × (heap.device_id s ≡ device)
          × IsPreferred heap gateway now device s)
    → routable_session heap now found ≡ true
    → Routes heap gateway now device found
some_routable heap gateway now device none known r = absurd (not_routable heap now r)
some_routable heap gateway now device (some s) known r =
    let (a, b, c) = known s refl in (a, b, r, c)

-- In a well formed registry, what an ingress request for a device gets is a routable tunnel of the
-- device: its primary, or, where the primary is not routable, a tunnel that no other but the primary
-- was seen after. If it gets none, each routable tunnel of the device is a standby that an
-- unroutable standby was seen after (or with).
pub session_for_device_lem :
    (heap : Heap) (gateway : Gateway) (now device : ℕ)
    → IsWellFormed heap gateway
    → Routes heap gateway now device (session_for_device heap gateway now device)
unfolding session_for_device
session_for_device_lem heap gateway now device w =
    if_cases (Routes heap gateway now device) (routable_session heap now (gateway.primaries device))
      (λ e.
        some_routable heap gateway now device _
          (λ s h. let (a, b) = w.primary_known device s h in (a, b, inl h)) e)
      (λ p.
        if_cases (Routes heap gateway now device)
          (routable_session heap now (standby heap gateway device))
          (λ e.
            some_routable heap gateway now device _
              (λ s h.
                let (a, b, _) = standby-IsAmong heap (newer heap) gateway device _ s h in
                (
                  a,
                  b,
                  inr (
                    p,
                    λ t m d n. newest_lem heap _ s t h (is_standby heap gateway device t m d n),
                  ),
                ))
              e)
          (λ e. none_routable heap gateway now device p _ refl e))
