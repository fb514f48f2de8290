-- ===== src/Limiter/InFlight.antt =====
-- internal/gateway/gatewayresources/resources.go: the bound on the work of a key that is in flight.
use hooshi_xagent.Float.{Float64, of_int, minus, lt}
use hooshi_xagent.Budget.{Panic}
use hooshi_xagent.Limiter.{
  settle, Limiter, KeyedState, accepted, rejected_rate, rejected_concurrency, set_state, track,
  decide, decide_fairly, acquire_found, try_acquire, release_found, release, flying, in_flight,
  observe_key,
}
use hooshi_xagent.Base.{
  ℕ, Bool, true, false, ◌≡◌, ◌≤◌, ◌<◌, arith, refl, ◌+◌, ◌-◌, Option, some, none, ok, err, Result,
  ◌==◌, inl, inr, ==_iff, ap, if_cases, leb, ◌∙◌,
}
use hooshi_xagent.Limiter.Flying.{
  gained, gained_cases, below, IsBounded, Acquires, set_state_cases, Keeps-IsBounded, flying-some,
  flying-none, track_lem, unchanged, rejected_lem, stored-Keeps, one_more, observed_lem, through,
}

module _ {W : Type 0} ⦃f : Float64 W⦄ where
  settle_lem :
      (l : Limiter W) (key : ℕ) (state : KeyedState W) (now : ℕ) (tokens : W)
      → l.states key ≡ some state
      → state.in_flight < l.max_in_flight
      → IsBounded l
      → Acquires l key (settle l key state now tokens)
  unfolding settle
  settle_lem l key state now tokens h n w =
      if_cases (Acquires l key) (lt tokens (of_int 1))
        (λ _.
          unchanged l _ key rejected_rate (λ k. refl)
            (stored-Keeps l key state (record state { tokens = tokens; last = now }) h refl) w)
        (λ _.
          one_more l key state
            (record state {
              in_flight = state.in_flight + 1;
              tokens = minus tokens (of_int 1);
              last = now;
            })
            h refl n w)

  decide_lem :
      (l : Limiter W) (key : ℕ) (state : KeyedState W) (now m : ℕ) (rate burst : W)
      → l.states key ≡ some state
      → m ≤ l.max_in_flight
      → IsBounded l
      → Acquires l key (decide l key state now m rate burst)
  unfolding decide
  decide_lem l key state now m rate burst h n w =
      if_cases (Acquires l key) (leb m state.in_flight)
        (λ _. unchanged l _ key rejected_concurrency (λ k. refl) (rejected_lem l) w)
        (λ e. settle_lem l key state _ _ h (omega (arith, below m state.in_flight e, n)) w)

  decide_fairly_lem :
      (contended : Bool) (l : Limiter W) (key : ℕ) (state : KeyedState W) (now : ℕ)
      → l.states key ≡ some state
      → IsBounded l
      → Acquires l key (decide_fairly contended l key state now)
  unfolding decide_fairly
  decide_fairly_lem true l key state now h w =
      decide_lem l key state now l.fair_max_in_flight l.fair_rate l.fair_burst h w.fair w
  decide_fairly_lem false l key state now h w =
      decide_lem l key state now l.max_in_flight l.rate l.burst h (omega arith) w

  acquire_found_lem :
      (contended : Bool) (l : Limiter W) (key now : ℕ) (found : Option (KeyedState W))
      → l.states key ≡ found
      → IsBounded l
      → Acquires l key (acquire_found contended l key now found)
  unfolding acquire_found
  acquire_found_lem contended l key now (some state) h w =
      decide_fairly_lem contended l key state now h w
  acquire_found_lem contended l key now none h w =
      let state : KeyedState W = record { in_flight = 0; tokens = l.burst; last = now } in
      let (keeps, own) = track_lem l key state h refl in
      through l (track l key state) key _ keeps (
        decide_fairly_lem contended (track l key state) key state now own
          (Keeps-IsBounded l _ keeps w))

  -- Where the limit under contention is within the limit and no key has more in flight than the
  -- limit, both still hold after a request. A request that is accepted puts exactly one more in flight
  -- for its key and none for another; one that is refused changes nothing that is in flight. So the
  -- sweep of the map never forgets work in flight.
  pub try_acquire_lem :
      (l : Limiter W) (key now : ℕ) → IsBounded l → Acquires l key (try_acquire l key now)
  unfolding try_acquire
  try_acquire_lem l key now w = through l (observe_key l key now) key _ (observed_lem l key now) (
      acquire_found_lem _ (observe_key l key now) key now _ refl
        (Keeps-IsBounded l _ (observed_lem l key now) w))

module _ {W : Type 0} where
  abbrev pub Releases : Limiter W → ℕ → Result Panic (Limiter W) → Type 0
  Releases l key (ok l') =
      IsBounded l' × ((k : ℕ) → in_flight l k ≡ in_flight l' k + gained accepted key k)
  Releases l key (err e) = in_flight l key ≡ 0

  one_less :
      (l : Limiter W) (key : ℕ) (state state' : KeyedState W)
      → l.states key ≡ some state
      → state'.in_flight + 1 ≡ state.in_flight
      → (k : ℕ)
      → in_flight l k
        ≡ in_flight (record l { states = set_state l.states key state' }) k + gained accepted key k
  unfolding in_flight
  one_less l key state state' h e k = elim (set_state_cases l.states key k state') [
    | inl (i, f) ↦
        let own : flying (l.states k) ≡ state.in_flight =
          ap flying (ap l.states i ∙ h) ∙ flying-some state in
        let new : flying (set_state l.states key state' k) ≡ state'.in_flight =
          ap flying f ∙ flying-some state' in
        omega (arith, own, new, (gained_cases key k).0 i)
    | inr (n, f) ↦ omega (arith, ap flying f, (gained_cases key k).1 n)
  ]

  idle_flying :
      (l : Limiter W) (key : ℕ) (found : Option (KeyedState W))
      → l.states key ≡ found
      → flying found ≡ 0
      → in_flight l key ≡ 0
  unfolding in_flight
  idle_flying l key found h e = ap flying h ∙ e

  release_found_lem :
      (l : Limiter W) (key : ℕ) (found : Option (KeyedState W))
      → l.states key ≡ found
      → IsBounded l
      → Releases l key (release_found l key found)
  unfolding release_found
  release_found_lem l key none h w = idle_flying l key none h (flying-none none refl)
  release_found_lem l key (some state) h w =
      if_cases (Releases l key) (state.in_flight == 0)
        (λ e. idle_flying l key (some state) h (flying-some state ∙ (==_iff state.in_flight 0).0 e))
        (λ e.
          let less =
            one_less l key state (record state { in_flight = state.in_flight - 1 }) h
              (ground arith) in
          (record { fair = w.fair; bounded = λ k. omega (arith, less k, w.bounded k) }, less))

  -- A release takes exactly one of the key's requests out of what is in flight, and none of another
  -- key's; the bounds stay. It panics only where the key has none in flight.
  pub release_lem : (l : Limiter W) (key : ℕ) → IsBounded l → Releases l key (release l key)
  unfolding release
  release_lem l key w = release_found_lem l key _ refl w
