-- ===== src/Registry/Unregister.antt =====
-- internal/gateway/gateway.go: `unregisterSession` keeps the registry right and the device routed.
use hooshi_xagent.Registry.{
  Heap, Gateway, device_tunnels, same_key, delete, pick, older, is_ref, promote, unregister_session,
}
use hooshi_xagent.Registry.Lists.{IsAmong, find, find-some, find-none}
use hooshi_xagent.Registry.Invariant.{
  IsWellFormed, length-delete, delete_keeps, deleted-IsAmong, same_key_iff, other_device,
  tunnels-IsAmong, IsAmong-tunnels, set_primary_cases,
}
use hooshi_xagent.Registry.Standby.{pick-IsAmong, evict-IsWellFormed, is_ref_iff}
use mathlib.Core.Option.{some-injective, none-ne-some, some-ne-none}
use mathlib.Core.Bool.{true≢false}
use hooshi_xagent.Base.{
  List, [], ◌∷◌, ℕ, Bool, true, false, Option, some, none, ◌≡◌, inl, inr, arith, refl, ==_iff,
  Bool-cases, Option-cases, ap, subst, sym, ◌∙◌,
}

pick-some : (better : ℕ → ℕ → Bool) (b : ℕ) (xs : List ℕ) → ¬ (pick better (some b) xs ≡ none)
unfolding pick
pick-some better b [] h = some-ne-none b h
pick-some better b (x ∷ xs) h = pick-some better _ xs h

pub pick-none :
    (better : ℕ → ℕ → Bool) (xs : List ℕ) (s : ℕ) → pick better none xs ≡ none → ¬ IsAmong s xs
unfolding pick IsAmong
pick-none better [] s h m = absurd m
pick-none better (x ∷ xs) s h m = pick-some better x xs h

self_key : (heap : Heap) (s : ℕ) → same_key heap s s ≡ true
self_key heap s = (same_key_iff heap s s).1 (refl, refl)

-- The tunnel that `promote` makes the primary.
abbrev survivor : Heap → Gateway → ℕ → Option ℕ
survivor heap gateway s =
    pick (older heap) none (device_tunnels heap (heap.device_id s) (delete heap s gateway.tunnels))

promote-IsWellFormed :
    (heap : Heap) (gateway : Gateway) (s : ℕ)
    → IsWellFormed heap gateway
    → IsWellFormed heap (promote heap gateway s (delete heap s gateway.tunnels))
unfolding promote
promote-IsWellFormed heap gateway s w = record {
  total = omega (arith, w.total, (length-delete heap s 0 gateway.tunnels).0);
  per_device =
      λ device. omega (arith, w.per_device device, (length-delete heap s device gateway.tunnels).1);
  unique = λ t u a b e.
      w.unique t u (deleted-IsAmong heap s t gateway.tunnels a).0
        (deleted-IsAmong heap s u gateway.tunnels b).0 e;
  primary_known = λ device p h.
      elim (set_primary_cases gateway.primaries (heap.device_id s) device
        (survivor heap gateway s)) [
          | inl (e, f) ↦ elim (pick-IsAmong (older heap) none _ p (sym f ∙ h)) [
            | inl n ↦ absurd (none-ne-some p n)
            | inr m ↦
                let (a, b) =
                  tunnels-IsAmong heap (heap.device_id s) p (delete heap s gateway.tunnels) m in
                (a, b ∙ sym e)
          ]
          | inr (n, f) ↦
              let (a, b) = w.primary_known device p (sym f ∙ h) in
              (
                delete_keeps heap s p gateway.tunnels a
                    (other_device heap s p (λ e. n (sym b ∙ e))),
                b,
              )
        ];
  routed = λ t m h.
      elim (set_primary_cases gateway.primaries (heap.device_id s) (heap.device_id t)
        (survivor heap gateway s)) [
          | inl (e, f) ↦ pick-none (older heap) _ t (sym f ∙ h) (
              subst (λ d. IsAmong t (device_tunnels heap d (delete heap s gateway.tunnels))) e
                (IsAmong-tunnels heap t (delete heap s gateway.tunnels) m))
          | inr (n, f) ↦ w.routed t (deleted-IsAmong heap s t gateway.tunnels m).0 (sym f ∙ h)
        ];
}

-- What the end of a session does to the registry.
abbrev pub Unregisters : Heap → Gateway → ℕ → Gateway → Type 0
Unregisters heap gateway sess gateway' =
    IsWellFormed heap gateway'
    × ¬ IsAmong sess gateway'.tunnels
    × ((t : ℕ) → IsAmong t gateway.tunnels → ¬ (t ≡ sess) → IsAmong t gateway'.tunnels)
    × ((device p : ℕ)
        → gateway.primaries device ≡ some p
        → ¬ (p ≡ sess)
        → gateway'.primaries device ≡ some p)

survives :
    (heap : Heap) (gateway : Gateway) (s t : ℕ)
    → IsWellFormed heap gateway
    → IsAmong s gateway.tunnels
    → IsAmong t gateway.tunnels
    → ¬ (t ≡ s)
    → IsAmong t (delete heap s gateway.tunnels)
survives heap gateway s t w m n d = elim (Bool-cases (same_key heap s t)) [
  | inl e ↦ absurd (d (sym (w.unique s t m n e)))
  | inr e ↦ delete_keeps heap s t gateway.tunnels n e
]

gone : (heap : Heap) (s : ℕ) (xs : List ℕ) → ¬ IsAmong s (delete heap s xs)
gone heap s xs m = true≢false (sym (self_key heap s) ∙ (deleted-IsAmong heap s s xs m).1)

unknown :
    (heap : Heap) (gateway : Gateway) (s : ℕ)
    → IsWellFormed heap gateway
    → is_ref (find (same_key heap s) gateway.tunnels) s ≡ false
    → ¬ IsAmong s gateway.tunnels
unknown heap gateway s w h m = elim (Option-cases (find (same_key heap s) gateway.tunnels)) [
  | inl e ↦ true≢false (sym (self_key heap s) ∙ find-none (same_key heap s) s gateway.tunnels e m)
  | inr (old, e) ↦
      let (a, b) = find-some (same_key heap s) old gateway.tunnels e in
      is_ref_iff _ s h (e ∙ ap some (sym (w.unique s old m a b)))
]

is_ref-true : (x : Option ℕ) (s : ℕ) → is_ref x s ≡ true → x ≡ some s
unfolding is_ref
is_ref-true none s h = absurd (true≢false (sym h))
is_ref-true (some x) s h = ap some ((==_iff x s).0 h)

promote_gone :
    (heap : Heap) (gateway : Gateway) (s : ℕ)
    → ¬ IsAmong s (promote heap gateway s (delete heap s gateway.tunnels)).tunnels
unfolding promote
promote_gone heap gateway s = gone heap s gateway.tunnels

promote_keeps :
    (heap : Heap) (gateway : Gateway) (s t : ℕ)
    → IsAmong t (delete heap s gateway.tunnels)
    → IsAmong t (promote heap gateway s (delete heap s gateway.tunnels)).tunnels
unfolding promote
promote_keeps heap gateway s t m = m

promote_routes :
    (heap : Heap) (gateway : Gateway) (s device p : ℕ)
    → gateway.primaries (heap.device_id s) ≡ some s
    → gateway.primaries device ≡ some p
    → ¬ (p ≡ s)
    → (promote heap gateway s (delete heap s gateway.tunnels)).primaries device ≡ some p
unfolding promote
promote_routes heap gateway s device p h e d =
    elim (set_primary_cases gateway.primaries (heap.device_id s) device (survivor heap gateway s)) [
      | inl (i, f) ↦ absurd (d (some-injective p s (sym e ∙ ap gateway.primaries i ∙ h)))
      | inr (n, f) ↦ f ∙ e
    ]

promoted_lem :
    (heap : Heap) (gateway : Gateway) (s : ℕ)
    → IsWellFormed heap gateway
    → IsAmong s gateway.tunnels
    → gateway.primaries (heap.device_id s) ≡ some s
    → Unregisters heap gateway s (promote heap gateway s (delete heap s gateway.tunnels))
promoted_lem heap gateway s w m h = (
  promote-IsWellFormed heap gateway s w,
  promote_gone heap gateway s,
  λ t n d. promote_keeps heap gateway s t (survives heap gateway s t w m n d),
  λ device p e d. promote_routes heap gateway s device p h e d,
)

-- The end of a session keeps the registry well formed, so a device that still has tunnels still has
-- a routing primary among them. It takes out that session and no other one, and only its own
-- routing changes.
pub unregister_session_lem :
    (heap : Heap) (gateway : Gateway) (sess : ℕ)
    → IsWellFormed heap gateway
    → Unregisters heap gateway sess (unregister_session heap gateway sess)
unfolding unregister_session
unregister_session_lem heap gateway sess w =
    elim (Bool-cases (is_ref (find (same_key heap sess) gateway.tunnels) sess)) [
      | inr h ↦ rw h (w, unknown heap gateway sess w h, λ t m d. m, λ device p e d. e)
      | inl h ↦
          let m = (find-some (same_key heap sess) sess gateway.tunnels (is_ref-true _ sess h)).0 in
          elim (Bool-cases (is_ref (gateway.primaries (heap.device_id sess)) sess)) [
            | inl i ↦ rw (h, i) (promoted_lem heap gateway sess w m (is_ref-true _ sess i))
            | inr i ↦
                rw (h, i)
                  (
                    evict-IsWellFormed heap gateway sess w m i,
                    gone heap sess gateway.tunnels,
                    λ t n d. survives heap gateway sess t w m n d,
                    λ device p e d. e,
                  )
          ]
    ]
