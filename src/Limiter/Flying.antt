-- ===== src/Limiter/Flying.antt =====
-- internal/gateway/gatewayresources/resources.go: what storing, sweeping and observing do to the
-- work of the keys that is in flight.
use hooshi_xagent.Limiter.{
  Limiter, KeyedState, RejectReason, accepted, fairness_share, set_state, is_idle, swept, track,
  count_reject, flying, in_flight, observe_key,
}
use native.Mathlib.Decide.{ℕ_discrete}
use hooshi_xagent.Base.{
  ℕ, false, ◌≡◌, ◌≤◌, ◌<◌, arith, refl, ◌+◌, if◌then◌else◌, Option, some, none, ◌==◌, ◌⊎◌, inl, inr,
  ap, if_cases, leb, sym, ◌∙◌,
}

-- The share of a key under contention is never more than the whole, and is less and not nothing
-- where the whole is more than one.
pub fairness_share_lem :
    (global : ℕ)
    → (fairness_share global ≤ global)
      × (1 < global → (1 ≤ fairness_share global) × (fairness_share global < global))
unfolding fairness_share
fairness_share_lem global = (ground arith, λ h. (ground arith, ground arith))

-- One more for the key that is let in, and the same for every other key.
abbrev pub gained : RejectReason → ℕ → ℕ → ℕ
gained accepted key k = if k == key then 1 else 0
gained _ key k = 0

pub gained_cases :
    (key k : ℕ) → (k ≡ key → gained accepted key k ≡ 1) × (¬ (k ≡ key) → gained accepted key k ≡ 0)
gained_cases key k = (λ h. ground arith, λ n. ground (arith, n))

pub below : (m n : ℕ) → leb m n ≡ false → n < m
below m n h = ground arith

-- The limit under contention is within the limit, and no key has more in flight than the limit.
pub record IsBounded {W : Type 0} (limiter : Limiter W) : Type 0 where
  pub fair : limiter.fair_max_in_flight ≤ limiter.max_in_flight
  pub bounded : (key : ℕ) → in_flight limiter key ≤ limiter.max_in_flight

module _ {W : Type 0} where
  abbrev pub Acquires : Limiter W → ℕ → Limiter W × RejectReason → Type 0
  Acquires limiter key (limiter', reason) =
      IsBounded limiter'
      × ((k : ℕ) → in_flight limiter' k ≡ in_flight limiter k + gained reason key k)

  pub set_state_cases :
      (states : ℕ → Option (KeyedState W)) (key k : ℕ) (state : KeyedState W)
      → ((k ≡ key) × (set_state states key state k ≡ some state))
        ⊎ (¬ (k ≡ key) × (set_state states key state k ≡ states k))
  unfolding set_state
  set_state_cases states key k state = ground arith

  dropped_flying :
      (key k : ℕ) (state : Option (KeyedState W))
      → flying (if is_idle key k state then none else state) ≡ flying state
  unfolding is_idle flying
  dropped_flying key k none = refl
  dropped_flying key k (some state) = ground arith

  flying-swept :
      (states : ℕ → Option (KeyedState W)) (key k : ℕ)
      → flying (swept states key k) ≡ flying (states k)
  unfolding swept
  flying-swept states key k = dropped_flying key k (states k)

  swept_own :
      (states : ℕ → Option (KeyedState W)) (key : ℕ) (state : KeyedState W)
      → states key ≡ some state
      → swept states key key ≡ some state
  unfolding swept is_idle
  swept_own states key state h = rw h (ground arith)

  set_state_own :
      (states : ℕ → Option (KeyedState W)) (key : ℕ) (state : KeyedState W)
      → set_state states key state key ≡ some state
  unfolding set_state
  set_state_own states key state = ground arith

  -- The limiter with other states: what is in flight and the limits are as before.
  abbrev pub Keeps : Limiter W → Limiter W → Type 0
  Keeps limiter limiter' =
      ((k : ℕ) → in_flight limiter' k ≡ in_flight limiter k)
      × (limiter'.max_in_flight ≡ limiter.max_in_flight)
      × (limiter'.fair_max_in_flight ≡ limiter.fair_max_in_flight)

  pub Keeps-IsBounded : (l l' : Limiter W) → Keeps l l' → IsBounded l → IsBounded l'
  Keeps-IsBounded l l' (a, b, c) w = record {
    fair = omega (arith, b, c, w.fair);
    bounded = λ k. omega (arith, a k, b, w.bounded k);
  }

  pub flying-some : (state : KeyedState W) → flying (some state) ≡ state.in_flight
  unfolding flying
  flying-some state = refl

  pub flying-none : (found : Option (KeyedState W)) → found ≡ none → flying found ≡ 0
  unfolding flying
  flying-none none h = refl
  flying-none (some state) h = cc

  pub track_lem :
      (l : Limiter W) (key : ℕ) (state : KeyedState W)
      → l.states key ≡ none
      → state.in_flight ≡ 0
      → Keeps l (track l key state) × ((track l key state).states key ≡ some state)
  unfolding track in_flight
  track_lem l key state h z =
      if_cases (λ (l' : Limiter W). Keeps l l' × (l'.states key ≡ some state)) _
        (λ _. (
          (λ k. flying-swept (set_state l.states key state) key k ∙ added k, refl, refl),
          swept_own (set_state l.states key state) key state (set_state_own l.states key state),
        ))
        (λ _. ((added, refl, refl), set_state_own l.states key state))
    where
      added : (k : ℕ) → flying (set_state l.states key state k) ≡ flying (l.states k)
      added k = elim (set_state_cases l.states key k state) [
        | inl (e, f) ↦
            ap flying f ∙ (flying-some state ∙ (z ∙ sym (flying-none _ (ap l.states e ∙ h))))
        | inr (n, f) ↦ ap flying f
      ]

  -- The key's state with some more in flight.
  set_flying :
      (l : Limiter W) (key k : ℕ) (state state' : KeyedState W) (more : ℕ)
      → l.states key ≡ some state
      → state'.in_flight ≡ state.in_flight + more
      → (k ≡ key → flying (set_state l.states key state' k) ≡ flying (l.states k) + more)
        × (¬ (k ≡ key) → flying (set_state l.states key state' k) ≡ flying (l.states k))
  set_flying l key k state state' more h e = elim (set_state_cases l.states key k state') [
    | inl (i, f) ↦
        let own : flying (l.states k) ≡ state.in_flight =
          ap flying (ap l.states i ∙ h) ∙ flying-some state in
        let new : flying (set_state l.states key state' k) ≡ state'.in_flight =
          ap flying f ∙ flying-some state' in
        (λ _. omega (arith, own, new), λ n. absurd (n i))
    | inr (n, f) ↦ (λ i. absurd (n i), λ _. ap flying f)
  ]

  pub unchanged :
      (l l' : Limiter W) (key : ℕ) (reason : RejectReason)
      → ((k : ℕ) → gained reason key k ≡ 0)
      → Keeps l l'
      → IsBounded l
      → Acquires l key (l', reason)
  unchanged l l' key reason g (a, b, c) w =
      (Keeps-IsBounded l l' (a, b, c) w, λ k. omega (arith, a k, g k))

  pub rejected_lem : (l : Limiter W) → Keeps l (count_reject l)
  unfolding count_reject in_flight
  rejected_lem l = (λ k. refl, refl, refl)

  stored_lem :
      (l : Limiter W) (key k : ℕ) (state state' : KeyedState W)
      → l.states key ≡ some state
      → state'.in_flight ≡ state.in_flight
      → in_flight (count_reject (record l { states = set_state l.states key state' })) k
        ≡ in_flight l k
  unfolding count_reject in_flight
  stored_lem l key k state state' h e =
      let (a, b) = set_flying l key k state state' 0 h (omega (arith, e)) in
      elim (ℕ_discrete k key) [ yes i ↦ omega (arith, a i) | no n ↦ b n ]

  kept_max :
      (l : Limiter W) (states : ℕ → Option (KeyedState W))
      → (count_reject (record l { states = states })).max_in_flight ≡ l.max_in_flight
  unfolding count_reject
  kept_max l states = refl

  kept_fair :
      (l : Limiter W) (states : ℕ → Option (KeyedState W))
      → (count_reject (record l { states = states })).fair_max_in_flight ≡ l.fair_max_in_flight
  unfolding count_reject
  kept_fair l states = refl

  pub stored-Keeps :
      (l : Limiter W) (key : ℕ) (state state' : KeyedState W)
      → l.states key ≡ some state
      → state'.in_flight ≡ state.in_flight
      → Keeps l (count_reject (record l { states = set_state l.states key state' }))
  stored-Keeps l key state state' h e =
      (λ k. stored_lem l key k state state' h e, kept_max l _, kept_fair l _)

  pub one_more :
      (l : Limiter W) (key : ℕ) (state state' : KeyedState W)
      → l.states key ≡ some state
      → state'.in_flight ≡ state.in_flight + 1
      → state.in_flight < l.max_in_flight
      → IsBounded l
      → Acquires l key (record l { states = set_state l.states key state' }, accepted)
  unfolding in_flight
  one_more l key state state' h e n w = (
    record {
      fair = w.fair;
      bounded = λ k. elim (ℕ_discrete k key) [
        | yes i ↦ omega (arith, (set_flying l key k state state' 1 h e).0 i, own k i)
        | no m ↦ omega (arith, (set_flying l key k state state' 1 h e).1 m, w.bounded k)
      ];
    },
    λ k. elim (ℕ_discrete k key) [
      | yes i ↦ omega (arith, (set_flying l key k state state' 1 h e).0 i, (gained_cases key k).0 i)
      | no m ↦ omega (arith, (set_flying l key k state state' 1 h e).1 m, (gained_cases key k).1 m)
    ],
  )
    where
      own : (k : ℕ) → k ≡ key → flying (l.states k) ≡ state.in_flight
      own k i = ap flying (ap l.states i ∙ h) ∙ flying-some state

  pub observed_lem : (l : Limiter W) (key now : ℕ) → Keeps l (observe_key l key now)
  unfolding observe_key in_flight
  observed_lem l key now =
      if_cases (Keeps l) (l.recent_key == key) (λ _. (λ k. refl, refl, refl))
        (λ _. (λ k. refl, refl, refl))

  pub through :
      (l l' : Limiter W) (key : ℕ) (result : Limiter W × RejectReason)
      → Keeps l l'
      → Acquires l' key result
      → Acquires l key result
  through l l' key (l'', reason) (a, b, c) (w, g) = (w, λ k. omega (arith, a k, g k))
