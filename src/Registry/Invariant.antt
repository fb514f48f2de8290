-- ===== src/Registry/Invariant.antt =====
-- internal/gateway/gateway.go: what the registry of tunnel sessions keeps true, and how taking a
-- session out and putting one in changes the counts.
use hooshi_xagent.Registry.{
  Heap, Gateway, device_tunnels, same_key, delete, insert, set_primary, place,
}
use hooshi_xagent.Registry.Lists.{
  IsAmong, keep, IsAmong-keep, keep-IsAmong, length-keep, keep_shrinks, keep_comm,
}
use mathlib.Core.Option.{some-injective, none-ne-some}
use native.Mathlib.Decide.{ℕ_discrete}
use mathlib.Core.Bool.{true≢false}
use hooshi_xagent.Base.{
  List, ℕ, Bool, true, false, not, Option, some, none, ◌≡◌, ◌≤◌, ◌<◌, ◌⊎◌, inl, inr, length, arith,
  refl, ap, subst, suc, sym, ◌==◌, ◌↔◌, ◌∙◌,
}

-- The bounds on the tunnels, of the gateway and of each device, hold; a session identifier of a
-- device names one tunnel; the routing primary of a device is one of its tunnels; and a device
-- that has tunnels has a primary.
pub record IsWellFormed (heap : Heap) (gateway : Gateway) : Type 0 where
  pub total : length gateway.tunnels ≤ gateway.max_agent_sessions
  pub per_device :
      (device : ℕ)
      → length (device_tunnels heap device gateway.tunnels) ≤ gateway.max_tunnels_per_device
  pub unique :
      (s t : ℕ)
      → IsAmong s gateway.tunnels
      → IsAmong t gateway.tunnels
      → same_key heap s t ≡ true
      → s ≡ t
  pub primary_known :
      (device primary : ℕ)
      → gateway.primaries device ≡ some primary
      → IsAmong primary gateway.tunnels × (heap.device_id primary ≡ device)
  pub routed : (s : ℕ) → IsAmong s gateway.tunnels → ¬ (gateway.primaries (heap.device_id s) ≡ none)

pub same_key_iff :
    (heap : Heap) (s t : ℕ)
    → (same_key heap s t ≡ true)
      ↔ ((heap.device_id t ≡ heap.device_id s) × (heap.session_id t ≡ heap.session_id s))
unfolding same_key
same_key_iff heap s t = (λ h. (ground arith, ground arith), λ h. ground (arith, h.0, h.1))

pub same_key_sym : (heap : Heap) (s t : ℕ) → same_key heap s t ≡ true → same_key heap t s ≡ true
unfolding same_key
same_key_sym heap s t h = ground arith

pub same_key_both :
    (heap : Heap) (s t u : ℕ)
    → same_key heap s t ≡ true
    → same_key heap s u ≡ true
    → same_key heap t u ≡ true
unfolding same_key
same_key_both heap s t u h k = ground arith

pub delete_keeps :
    (heap : Heap) (s t : ℕ) (xs : List ℕ)
    → IsAmong t xs
    → same_key heap s t ≡ false
    → IsAmong t (delete heap s xs)
unfolding delete
delete_keeps heap s t xs m h = IsAmong-keep _ t xs m (rw h refl)

pub deleted-IsAmong :
    (heap : Heap) (s t : ℕ) (xs : List ℕ)
    → IsAmong t (delete heap s xs)
    → IsAmong t xs × (same_key heap s t ≡ false)
unfolding delete
deleted-IsAmong heap s t xs m =
    let (a, b) = keep-IsAmong (λ other. not (same_key heap s other)) t xs m in
    (a, ground (arith, b))

pub tunnels-IsAmong :
    (heap : Heap) (device s : ℕ) (xs : List ℕ)
    → IsAmong s (device_tunnels heap device xs)
    → IsAmong s xs × (heap.device_id s ≡ device)
unfolding device_tunnels
tunnels-IsAmong heap device s xs m =
    let (a, b) = keep-IsAmong (λ sess. heap.device_id sess == device) s xs m in
    (a, ground (arith, b))

pub IsAmong-tunnels :
    (heap : Heap) (s : ℕ) (xs : List ℕ)
    → IsAmong s xs
    → IsAmong s (device_tunnels heap (heap.device_id s) xs)
unfolding device_tunnels
IsAmong-tunnels heap s xs m = IsAmong-keep _ s xs m (ground arith)

pub length-delete :
    (heap : Heap) (s device : ℕ) (xs : List ℕ)
    → (length (delete heap s xs) ≤ length xs)
      × (length (device_tunnels heap device (delete heap s xs))
          ≤ length (device_tunnels heap device xs))
unfolding delete device_tunnels
length-delete heap s device xs = (
  length-keep _ xs,
  rw (keep_comm (λ sess. heap.device_id sess == device) (λ other. not (same_key heap s other)) xs)
      (length-keep _ (device_tunnels heap device xs)),
)

pub delete_shrinks :
    (heap : Heap) (s t : ℕ) (xs : List ℕ)
    → IsAmong t xs
    → same_key heap s t ≡ true
    → (length (delete heap s xs) < length xs)
      × (length (device_tunnels heap (heap.device_id t) (delete heap s xs))
          < length (device_tunnels heap (heap.device_id t) xs))
unfolding delete device_tunnels
delete_shrinks heap s t xs m h = (
  keep_shrinks _ t xs m (rw h refl),
  rw
      (keep_comm (λ sess. heap.device_id sess == heap.device_id t)
        (λ other. not (same_key heap s other)) xs)
      (keep_shrinks _ t (keep (λ sess. heap.device_id sess == heap.device_id t) xs)
        (IsAmong-tunnels heap t xs m) (rw h refl)),
)

length-insert :
    (heap : Heap) (s device : ℕ) (xs : List ℕ)
    → length (device_tunnels heap device (delete heap s xs))
      ≤ length (device_tunnels heap device xs)
    → (length (device_tunnels heap device (insert heap s xs))
        ≤ suc (length (device_tunnels heap device (delete heap s xs))))
      × (¬ (heap.device_id s ≡ device)
          → length (device_tunnels heap device (insert heap s xs))
            ≤ length (device_tunnels heap device xs))
unfolding insert device_tunnels keep
length-insert heap s device xs h = (ground arith, λ n. ground (arith, n))

pub set_primary_cases :
    (primaries : ℕ → Option ℕ) (d x : ℕ) (v : Option ℕ)
    → ((x ≡ d) × (set_primary primaries d v x ≡ v))
      ⊎ (¬ (x ≡ d) × (set_primary primaries d v x ≡ primaries x))
unfolding set_primary
set_primary_cases primaries d x v = ground arith

-- A session that is put in is among the tunnels, and nothing else comes in with it.
pub inserted-IsAmong :
    (heap : Heap) (s t : ℕ) (xs : List ℕ)
    → IsAmong t (insert heap s xs)
    → (t ≡ s) ⊎ (IsAmong t xs × (same_key heap s t ≡ false))
unfolding insert IsAmong
inserted-IsAmong heap s t xs (inl e) = inl e
inserted-IsAmong heap s t xs (inr m) = inr (deleted-IsAmong heap s t xs m)

pub insert_keeps :
    (heap : Heap) (s t : ℕ) (xs : List ℕ)
    → (t ≡ s) ⊎ (IsAmong t xs × (same_key heap s t ≡ false))
    → IsAmong t (insert heap s xs)
unfolding insert IsAmong
insert_keeps heap s t xs (inl e) = inl e
insert_keeps heap s t xs (inr (m, h)) = inr (delete_keeps heap s t xs m h)

-- There is room for a session once the one with its key is out.
abbrev pub HasRoom : Heap → Gateway → ℕ → Type 0
HasRoom heap gateway s =
    (length (delete heap s gateway.tunnels) < gateway.max_agent_sessions)
    × (length (device_tunnels heap (heap.device_id s) (delete heap s gateway.tunnels))
        < gateway.max_tunnels_per_device)

-- Routing stays right: the session takes over, or the device has a primary that stays.
abbrev pub RoutesWell : Heap → Gateway → ℕ → Bool → Type 0
RoutesWell heap gateway s takes_over =
    takes_over ≡ false
    → ¬ (gateway.primaries (heap.device_id s) ≡ none)
      × ((p : ℕ)
          → gateway.primaries (heap.device_id s) ≡ some p
          → (p ≡ s) ⊎ (same_key heap s p ≡ false))

unique_insert :
    (heap : Heap) (gateway : Gateway) (s t u : ℕ)
    → IsWellFormed heap gateway
    → IsAmong t (insert heap s gateway.tunnels)
    → IsAmong u (insert heap s gateway.tunnels)
    → same_key heap t u ≡ true
    → t ≡ u
unique_insert heap gateway s t u w m n h = elim (inserted-IsAmong heap s t gateway.tunnels m) [
  | inl a ↦ elim (inserted-IsAmong heap s u gateway.tunnels n) [
    | inl b ↦ a ∙ sym b
    | inr (b, c) ↦ absurd (true≢false (sym h ∙ (rw a c)))
  ]
  | inr (a, d) ↦ elim (inserted-IsAmong heap s u gateway.tunnels n) [
    | inl b ↦ absurd (true≢false (sym (same_key_sym heap t s (rw (sym b) h)) ∙ d))
    | inr (b, c) ↦ w.unique t u a b h
  ]
]

per_device_insert :
    (heap : Heap) (gateway : Gateway) (s device : ℕ)
    → IsWellFormed heap gateway
    → HasRoom heap gateway s
    → length (device_tunnels heap device (insert heap s gateway.tunnels))
      ≤ gateway.max_tunnels_per_device
per_device_insert heap gateway s device w (room, own) =
    let (a, b) =
      length-insert heap s device gateway.tunnels (length-delete heap s device gateway.tunnels).1 in
    elim (ℕ_discrete (heap.device_id s) device) [
      | yes e ↦ omega (
        arith,
        a,
        subst
            (λ d.
              length (device_tunnels heap d (delete heap s gateway.tunnels))
              < gateway.max_tunnels_per_device)
            e own,
      )
      | no n ↦ omega (arith, b n, w.per_device device)
    ]

pub other_device :
    (heap : Heap) (s t : ℕ) → ¬ (heap.device_id t ≡ heap.device_id s) → same_key heap s t ≡ false
unfolding same_key
other_device heap s t n = ground (arith, n)

kept_known :
    (heap : Heap) (gateway : Gateway) (s device p : ℕ)
    → IsWellFormed heap gateway
    → ¬ (device ≡ heap.device_id s)
    → gateway.primaries device ≡ some p
    → IsAmong p (insert heap s gateway.tunnels) × (heap.device_id p ≡ device)
kept_known heap gateway s device p w n h =
    let (a, b) = w.primary_known device p h in
    (insert_keeps heap s p gateway.tunnels (inr (a, other_device heap s p (λ e. n (sym b ∙ e)))), b)

placed_known :
    (heap : Heap) (gateway : Gateway) (s : ℕ) (takes_over : Bool) (device p : ℕ)
    → IsWellFormed heap gateway
    → RoutesWell heap gateway s takes_over
    → (place heap gateway s takes_over).primaries device ≡ some p
    → IsAmong p (insert heap s gateway.tunnels) × (heap.device_id p ≡ device)
unfolding place
placed_known heap gateway s true device p w r h =
    elim (set_primary_cases gateway.primaries (heap.device_id s) device (some s)) [
      | inl (e, f) ↦
          let i = some-injective s p (sym f ∙ h) in
          (insert_keeps heap s p gateway.tunnels (inl (sym i)), rw (sym i) (sym e))
      | inr (n, f) ↦ kept_known heap gateway s device p w n (sym f ∙ h)
    ]
placed_known heap gateway s false device p w r h = elim (ℕ_discrete device (heap.device_id s)) [
  | yes e ↦
      let (a, b) = w.primary_known device p h in
      let own = (r refl).1 p (subst (λ d. gateway.primaries d ≡ some p) e h) in
      (insert_keeps heap s p gateway.tunnels (elim own [ inl i ↦ inl i | inr j ↦ inr (a, j) ]), b)
  | no n ↦ kept_known heap gateway s device p w n h
]

placed_routed :
    (heap : Heap) (gateway : Gateway) (s : ℕ) (takes_over : Bool) (t : ℕ)
    → IsWellFormed heap gateway
    → RoutesWell heap gateway s takes_over
    → IsAmong t (insert heap s gateway.tunnels)
    → ¬ ((place heap gateway s takes_over).primaries (heap.device_id t) ≡ none)
unfolding place
placed_routed heap gateway s true t w r m h =
    elim (set_primary_cases gateway.primaries (heap.device_id s) (heap.device_id t) (some s)) [
      | inl (e, f) ↦ none-ne-some s (sym h ∙ f)
      | inr (n, f) ↦ elim (inserted-IsAmong heap s t gateway.tunnels m) [
        | inl i ↦ n (ap heap.device_id i)
        | inr (a, j) ↦ w.routed t a (sym f ∙ h)
      ]
    ]
placed_routed heap gateway s false t w r m h = elim (inserted-IsAmong heap s t gateway.tunnels m) [
  | inl i ↦ (r refl).0 (subst (λ x. gateway.primaries (heap.device_id x) ≡ none) i h)
  | inr (a, j) ↦ w.routed t a h
]

total_insert :
    (heap : Heap) (gateway : Gateway) (s : ℕ)
    → length (delete heap s gateway.tunnels) < gateway.max_agent_sessions
    → length (insert heap s gateway.tunnels) ≤ gateway.max_agent_sessions
unfolding insert
total_insert heap gateway s h = omega arith

pub place-IsWellFormed :
    (heap : Heap) (gateway : Gateway) (s : ℕ) (takes_over : Bool)
    → IsWellFormed heap gateway
    → HasRoom heap gateway s
    → RoutesWell heap gateway s takes_over
    → IsWellFormed heap (place heap gateway s takes_over)
unfolding place
place-IsWellFormed heap gateway s takes_over w room r = record {
  total = total_insert heap gateway s room.0;
  per_device = λ device. per_device_insert heap gateway s device w room;
  unique = λ t u m n h. unique_insert heap gateway s t u w m n h;
  primary_known = λ device p h. placed_known heap gateway s takes_over device p w r h;
  routed = λ t m. placed_routed heap gateway s takes_over t w r m;
}
