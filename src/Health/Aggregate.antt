-- ===== src/Health/Aggregate.antt =====
-- internal/agent/tunnelstates/aggregate.go: the combined health of several tunnels.
use hooshi_xagent.Health.{
  State, init, connecting, connected, degraded, reconnecting, revoked, shutdown,
}
use hooshi_xagent.Base.{
  All, Bool, List, [], arith, false, if◌then◌else◌, inl, inr, refl, subst, sym, true, ℕ, ◌↔◌, ◌∙◌,
  ◌∷◌, ◌≡◌, ◌≤◌, ◌⊎◌,
}
use mathlib.Core.Bool.{false≢true}

-- The six flags of `Aggregate.State`.
record Seen : Type 0 where
  saw_connecting : Bool
  saw_connected : Bool
  saw_degraded : Bool
  saw_reconnecting : Bool
  saw_revoked : Bool
  saw_init : Bool

abbrev unseen : Seen
unseen = record {
  saw_connecting = false;
  saw_connected = false;
  saw_degraded = false;
  saw_reconnecting = false;
  saw_revoked = false;
  saw_init = false;
}

-- The first `switch`, on one machine's state.
see : Seen → State → Seen
see seen connected = record seen { saw_connected = true }
see seen degraded = record seen { saw_degraded = true }
see seen connecting = record seen { saw_connecting = true }
see seen reconnecting = record seen { saw_reconnecting = true }
see seen revoked = record seen { saw_revoked = true }
see seen shutdown = seen
see seen init = record seen { saw_init = true }

see_all : Seen → List State → Seen
see_all seen [] = seen
see_all seen (state ∷ states) = see_all (see seen state) states

-- The second `switch`.
verdict : Seen → State
verdict seen =
    if seen.saw_connected
    then connected
    else if seen.saw_degraded
    then degraded
    else if seen.saw_connecting
    then connecting
    else if seen.saw_reconnecting
    then reconnecting
    else if seen.saw_revoked
    then revoked
    else if seen.saw_init
    then init
    else shutdown

-- `Aggregate.State`, over the current states of the attached machines.
unfoldable pub aggregate_state : List State → State
unfolding see see_all verdict
aggregate_state [] = init
aggregate_state (state ∷ states) = verdict (see_all unseen (state ∷ states))

-- The `switch` of `Aggregate.Healthy`.
serving : State → Bool
serving connected = true
serving degraded = true
serving _ = false

unfoldable pub healthy : List State → Bool
unfolding aggregate_state serving
healthy states = serving (aggregate_state states)

-- How good a state is for the user, best last: the priority that the combined view follows.
unfoldable pub rank : State → ℕ
rank shutdown = 0
rank init = 1
rank revoked = 2
rank reconnecting = 3
rank connecting = 4
rank degraded = 5
rank connected = 6

abbrev pub IsAmong : State → List State → Type 0
IsAmong s [] = ⊥
IsAmong s (x ∷ xs) = (s ≡ x) ⊎ IsAmong s xs

see_best :
    (seen : Seen) (s : State)
    → (rank s ≤ rank (verdict (see seen s)))
      × (rank (verdict seen) ≤ rank (verdict (see seen s)))
      × ((verdict (see seen s) ≡ verdict seen) ⊎ (verdict (see seen s) ≡ s))
unfolding see verdict rank
see_best seen connected = (ground arith, ground arith, ground arith)
see_best seen degraded = (ground arith, ground arith, ground arith)
see_best seen connecting = (ground arith, ground arith, ground arith)
see_best seen reconnecting = (ground arith, ground arith, ground arith)
see_best seen revoked = (ground arith, ground arith, ground arith)
see_best seen shutdown = (ground arith, ground arith, ground arith)
see_best seen init = (ground arith, ground arith, ground arith)

attained :
    {v w u x : State} {P : Type 0} → (w ≡ u) ⊎ (w ≡ x) → (v ≡ w) ⊎ P → (v ≡ u) ⊎ ((v ≡ x) ⊎ P)
attained (inl p) (inl q) = inl (q ∙ p)
attained (inr p) (inl q) = inr (inl (q ∙ p))
attained c (inr m) = inr (inr m)

see_all_best :
    (seen : Seen) (xs : List State)
    → All (λ x. rank x ≤ rank (verdict (see_all seen xs))) xs
      × (rank (verdict seen) ≤ rank (verdict (see_all seen xs)))
      × ((verdict (see_all seen xs) ≡ verdict seen) ⊎ IsAmong (verdict (see_all seen xs)) xs)
unfolding see_all
see_all_best seen [] = (tt, omega arith, inl refl)
see_all_best seen (x ∷ xs) =
    let (a, b, c) = see_best seen x in
    let (d, e, f) = see_all_best (see seen x) xs in ((omega arith, d), omega arith, attained c f)

lowest_rank : rank shutdown ≡ 0
unfolding rank
lowest_rank = refl

lowest : (x : State) → rank x ≤ 0 → shutdown ≡ x
unfolding rank
lowest x h = ground arith

-- The combined view of one machine or more is the state of one of them, and no machine's state
-- ranks above it, in the order shutdown, init, revoked, reconnecting, connecting, degraded,
-- connected.
pub aggregate_best :
    (x : State) (xs : List State)
    → IsAmong (aggregate_state (x ∷ xs)) (x ∷ xs)
      × All (λ y. rank y ≤ rank (aggregate_state (x ∷ xs))) (x ∷ xs)
unfolding aggregate_state
aggregate_best x xs = (found source, bounds)
  where
    bounds : All (λ y. rank y ≤ rank (verdict (see_all unseen (x ∷ xs)))) (x ∷ xs)
    bounds = (see_all_best unseen (x ∷ xs)).0

    source :
        (verdict (see_all unseen (x ∷ xs)) ≡ shutdown)
        ⊎ IsAmong (verdict (see_all unseen (x ∷ xs))) (x ∷ xs)
    source = (see_all_best unseen (x ∷ xs)).2

    found :
        (verdict (see_all unseen (x ∷ xs)) ≡ shutdown)
          ⊎ IsAmong (verdict (see_all unseen (x ∷ xs))) (x ∷ xs)
        → IsAmong (verdict (see_all unseen (x ∷ xs))) (x ∷ xs)
    found (inr among) = among
    found (inl e) =
        let low : rank (verdict (see_all unseen (x ∷ xs))) ≡ 0 = rw e (lowest_rank) in
        inl (e ∙ lowest x (omega (arith, bounds.0)))

All-IsAmong : (P : State → Type 0) {s : State} (xs : List State) → All P xs → IsAmong s xs → P s
All-IsAmong P [] h m = absurd m
All-IsAmong P (x ∷ xs) h (inl e) = subst P (sym e) h.0
All-IsAmong P (x ∷ xs) h (inr m) = All-IsAmong P xs h.1 m

rank_injective : (s t : State) → rank s ≡ rank t → s ≡ t
unfolding rank
rank_injective s t h = ground arith

-- A state that is among the machines and that none ranks above is the combined view.
pub aggregate_unique :
    (s : State) (xs : List State)
    → IsAmong s xs
    → All (λ y. rank y ≤ rank s) xs
    → aggregate_state xs ≡ s
aggregate_unique s [] m h = absurd m
aggregate_unique s (x ∷ xs) m h =
    let (among, bounds) = aggregate_best x xs in
    rank_injective (aggregate_state (x ∷ xs)) s (
      omega (
        arith,
        All-IsAmong (λ y. rank y ≤ rank s) (x ∷ xs) h among,
        All-IsAmong (λ y. rank y ≤ rank (aggregate_state (x ∷ xs))) (x ∷ xs) bounds m,
      ))

below_revoked : (y : State) → (y ≡ revoked) ⊎ ((y ≡ shutdown) ⊎ (y ≡ init)) → rank y ≤ rank revoked
unfolding rank
below_revoked y h = ground arith

-- Among machines that are all revoked, stopped or not yet dialled, one revoked machine makes the
-- combined view `revoked`, also where others have not dialled yet.
pub aggregate_revoked :
    (xs : List State)
    → IsAmong revoked xs
    → All (λ y. (y ≡ revoked) ⊎ ((y ≡ shutdown) ⊎ (y ≡ init))) xs
    → aggregate_state xs ≡ revoked
aggregate_revoked xs m h = aggregate_unique revoked xs m (below xs h)
  where
    below :
        (xs : List State)
        → All (λ y. (y ≡ revoked) ⊎ ((y ≡ shutdown) ⊎ (y ≡ init))) xs
        → All (λ y. rank y ≤ rank revoked) xs
    below [] h = tt
    below (y ∷ ys) h = (below_revoked y h.0, below ys h.1)

serving_iff : (s : State) → (serving s ≡ true) ↔ (5 ≤ rank s)
unfolding serving rank
serving_iff s = (ground arith, ground arith)

serving_cases : (s : State) → serving s ≡ true → (s ≡ connected) ⊎ (s ≡ degraded)
unfolding serving
serving_cases s h = ground arith

serving_ranks : (5 ≤ rank connected) × (5 ≤ rank degraded)
unfolding rank
serving_ranks = (omega arith, omega arith)

-- The Agent counts as healthy exactly when one of its tunnels is connected or degraded.
pub healthy_iff :
    (xs : List State) → (healthy xs ≡ true) ↔ (IsAmong connected xs ⊎ IsAmong degraded xs)
unfolding healthy
healthy_iff xs = (found xs, shown xs)
  where
    named :
        (s : State) (ys : List State)
        → IsAmong s ys
        → (s ≡ connected) ⊎ (s ≡ degraded)
        → IsAmong connected ys ⊎ IsAmong degraded ys
    named s ys m (inl e) = inl (subst (λ t. IsAmong t ys) e m)
    named s ys m (inr e) = inr (subst (λ t. IsAmong t ys) e m)

    found :
        (ys : List State)
        → serving (aggregate_state ys) ≡ true
        → IsAmong connected ys ⊎ IsAmong degraded ys
    found [] h = absurd (false≢true h)
    found (y ∷ ys) h = named _ (y ∷ ys) (aggregate_best y ys).0 (serving_cases _ h)

    shown :
        (ys : List State)
        → IsAmong connected ys ⊎ IsAmong degraded ys
        → serving (aggregate_state ys) ≡ true
    shown [] (inl m) = absurd m
    shown [] (inr m) = absurd m
    shown (y ∷ ys) (inl m) = (serving_iff _).1 (
        omega (
          arith,
          serving_ranks.0,
          All-IsAmong (λ z. rank z ≤ rank (aggregate_state (y ∷ ys))) (y ∷ ys)
              (aggregate_best y ys).1 m,
        ))
    shown (y ∷ ys) (inr m) = (serving_iff _).1 (
        omega (
          arith,
          serving_ranks.1,
          All-IsAmong (λ z. rank z ≤ rank (aggregate_state (y ∷ ys))) (y ∷ ys)
              (aggregate_best y ys).1 m,
        ))
