-- ===== src/Registry/Standby.antt =====
-- internal/gateway/gateway.go: the loops that pick a standby, and taking one out of the registry.
use hooshi_xagent.Registry.{
  Heap, Gateway, device_tunnels, same_key, delete, pick, standbys, is_ref, is_none,
}
use hooshi_xagent.Registry.Lists.{IsAmong, keep-IsAmong}
use hooshi_xagent.Registry.Invariant.{
  IsWellFormed, length-delete, delete_keeps, deleted-IsAmong, tunnels-IsAmong,
}
use hooshi_xagent.Base.{
  List, [], ◌∷◌, ℕ, Bool, true, false, not, Option, some, none, ◌≡◌, ◌⊎◌, inl, inr, arith,
  Bool-cases, if◌then◌else◌, sym,
}
use mathlib.Core.Option.{some-injective, none-ne-some}
use mathlib.Core.Bool.{true≢false}

pub pick-IsAmong :
    (better : ℕ → ℕ → Bool) (best : Option ℕ) (xs : List ℕ) (s : ℕ)
    → pick better best xs ≡ some s
    → (best ≡ some s) ⊎ IsAmong s xs
unfolding pick IsAmong
pick-IsAmong better best [] s h = inl h
pick-IsAmong better none (x ∷ xs) s h = elim (pick-IsAmong better (some x) xs s h) [
  | inl e ↦ inr (inl (sym (some-injective x s e)))
  | inr m ↦ inr (inr m)
]
pick-IsAmong better (some b) (x ∷ xs) s h =
    elim (pick-IsAmong better (some (if better x b then x else b)) xs s h) [
      | inl e ↦ picked (better x b) e
      | inr m ↦ inr (inr m)
    ]
  where
    picked :
        (c : Bool)
        → some (if c then x else b) ≡ some s
        → (some b ≡ some s) ⊎ ((s ≡ x) ⊎ IsAmong s xs)
    picked true e = inr (inl (sym (some-injective x s e)))
    picked false e = inl e

pub standby-IsAmong :
    (heap : Heap) (better : ℕ → ℕ → Bool) (gateway : Gateway) (device : ℕ) (primary : Option ℕ)
    (s : ℕ)
    → pick better none (standbys primary (device_tunnels heap device gateway.tunnels)) ≡ some s
    → IsAmong s gateway.tunnels × (heap.device_id s ≡ device) × (is_ref primary s ≡ false)
unfolding standbys
standby-IsAmong heap better gateway device primary s h = elim (pick-IsAmong better none _ s h) [
  | inl e ↦ absurd (none-ne-some s e)
  | inr m ↦
      let (a, b) = keep-IsAmong (λ candidate. not (is_ref primary candidate)) s _ m in
      let (c, d) = tunnels-IsAmong heap device s gateway.tunnels a in (c, d, ground (arith, b))
]

pub is_none-true : (x : Option ℕ) (p : ℕ) → is_none x ≡ true → ¬ (x ≡ some p)
unfolding is_none
is_none-true none p h e = none-ne-some p e
is_none-true (some x) p h e = true≢false (sym h)

pub is_none-false : (x : Option ℕ) → is_none x ≡ false → ¬ (x ≡ none)
unfolding is_none
is_none-false none h e = true≢false h
is_none-false (some x) h e = none-ne-some x (sym e)

pub is_ref_iff : (x : Option ℕ) (s : ℕ) → is_ref x s ≡ false → ¬ (x ≡ some s)
unfolding is_ref
is_ref_iff none s h e = none-ne-some s e
is_ref_iff (some x) s h e = let i = some-injective x s e in ground arith

pub evict-IsWellFormed :
    (heap : Heap) (gateway : Gateway) (victim : ℕ)
    → IsWellFormed heap gateway
    → IsAmong victim gateway.tunnels
    → is_ref (gateway.primaries (heap.device_id victim)) victim ≡ false
    → IsWellFormed heap (record gateway { tunnels = delete heap victim gateway.tunnels })
evict-IsWellFormed heap gateway victim w m h = record {
  total = omega (arith, w.total, (length-delete heap victim 0 gateway.tunnels).0);
  per_device = λ device.
      omega (arith, w.per_device device, (length-delete heap victim device gateway.tunnels).1);
  unique = λ s t a b e.
      w.unique s t (deleted-IsAmong heap victim s gateway.tunnels a).0
        (deleted-IsAmong heap victim t gateway.tunnels b).0 e;
  primary_known = known;
  routed = λ s a. w.routed s (deleted-IsAmong heap victim s gateway.tunnels a).0;
}
  where
    known :
        (device p : ℕ)
        → gateway.primaries device ≡ some p
        → IsAmong p (delete heap victim gateway.tunnels) × (heap.device_id p ≡ device)
    known device p e =
        let (a, b) = w.primary_known device p e in
        elim (Bool-cases (same_key heap victim p)) [
          | inl k ↦ let i = w.unique victim p m a k in absurd (is_ref_iff _ _ h (rw (i, b) e))
          | inr k ↦ (delete_keeps heap victim p gateway.tunnels a k, b)
        ]
