-- ===== src/Limiter.antt =====
-- internal/gateway/gatewayresources/resources.go: the rate and admission limiters. A time is a
-- number of nanoseconds; allowances and rates are numbers `W` of `float64`, whose operations are an
-- instance. A key is a number, the empty key zero; a map is the list of its keys with the function
-- that looks one up.
pub mod Bucket
pub mod Flying
pub mod InFlight
pub mod Keyed
pub mod Examples
use hooshi_xagent.Budget.{Panic, underflow}
use hooshi_xagent.Float.{Float64, of_int, seconds, plus_product, minus, lt}
use hooshi_xagent.Base.{
  List, [], ◌∷◌, ℕ, Bool, true, false, not, Option, some, none, Result, ok, err, ltb, leb, ◌==◌,
  length, if◌then◌else◌, ◌&&◌, ◌||◌, ◌+◌, ◌-◌, ◌*◌, ◌/◌, ◌%◌, ◌^◌,
}

pub record TokenBucket (W : Type 0) : Type 0 where
  pub rate : W
  pub burst : W
  pub tokens : W
  pub last : ℕ
  pub rejected : ℕ

-- An observation that is out of order does not turn the clock back.
pub not_before : ℕ → ℕ → ℕ
not_before now last = if ltb now last then last else now

-- `FairnessShare`, for an allowance that is not negative.
pub fairness_share : ℕ → ℕ
fairness_share global =
    if leb global 1
    then global
    else let share = (global * 3) / 4 in
      let share = if leb global share then global - 1 else share in if ltb share 1 then 1 else share

pub data RejectReason : Type 0 where
  accepted rejected_rate rejected_concurrency : RejectReason

seen_other : ℕ → ℕ → ℕ → ℕ → ℕ → Bool
seen_other window key now other at =
    not (other == 0) && (not (other == key) && leb now (at + window))

pub record KeyedState (W : Type 0) : Type 0 where
  pub in_flight : ℕ
  pub tokens : W
  pub last : ℕ

pub record Limiter (W : Type 0) : Type 0 where
  pub max_in_flight : ℕ
  pub fair_max_in_flight : ℕ
  pub rate : W
  pub fair_rate : W
  pub burst : W
  pub fair_burst : W
  pub contention_window : ℕ
  pub always_fair : Bool
  pub keys : List ℕ
  pub states : ℕ → Option (KeyedState W)
  pub max_tracked_keys : ℕ
  pub recent_key : ℕ
  pub recent_at : ℕ
  pub previous_key : ℕ
  pub previous_at : ℕ
  pub rejected : ℕ

module _ {W : Type 0} where
  pub other_key_recently_seen : Limiter W → ℕ → ℕ → Bool
  unfolding seen_other
  other_key_recently_seen limiter key now =
      seen_other limiter.contention_window key now limiter.recent_key limiter.recent_at
      || seen_other limiter.contention_window key now limiter.previous_key limiter.previous_at

  pub observe_key : Limiter W → ℕ → ℕ → Limiter W
  observe_key limiter key now =
      if limiter.recent_key == key then record limiter { recent_at = now } else record limiter {
        previous_key = limiter.recent_key;
        previous_at = limiter.recent_at;
        recent_key = key;
        recent_at = now;
      }

  pub set_state : (ℕ → Option (KeyedState W)) → ℕ → KeyedState W → ℕ → Option (KeyedState W)
  set_state states key state k = if k == key then some state else states k

  -- What the sweep drops: the state of another key with no work in flight.
  pub is_idle : ℕ → ℕ → Option (KeyedState W) → Bool
  is_idle key k none = true
  is_idle key k (some state) = state.in_flight == 0 && not (k == key)

  pub swept : (ℕ → Option (KeyedState W)) → ℕ → ℕ → Option (KeyedState W)
  unfolding is_idle
  swept states key k = if is_idle key k (states k) then none else states k

  pub kept_keys : (ℕ → Option (KeyedState W)) → ℕ → List ℕ → List ℕ
  unfolding is_idle
  kept_keys states key [] = []
  kept_keys states key (k ∷ ks) =
      let rest = kept_keys states key ks in if is_idle key k (states k) then rest else k ∷ rest

  -- A key that has no state yet gets one, and the map is swept if it is too large then.
  pub track : Limiter W → ℕ → KeyedState W → Limiter W
  unfolding set_state swept kept_keys
  track limiter key state =
      let states = set_state limiter.states key state in
      let keys = key ∷ limiter.keys in
      if ltb limiter.max_tracked_keys (length keys)
      then record limiter { states = swept states key; keys = kept_keys states key keys }
      else record limiter { states = states; keys = keys }

  pub count_reject : Limiter W → Limiter W
  count_reject limiter = record limiter { rejected = (limiter.rejected + 1) % 2 ^ 64 }

  release_found : Limiter W → ℕ → Option (KeyedState W) → Result Panic (Limiter W)
  unfolding set_state
  release_found limiter key none = err underflow
  release_found limiter key (some state) =
      if state.in_flight == 0
      then err underflow
      else ok (record limiter {
        states = set_state limiter.states key (record state { in_flight = state.in_flight - 1 });
      })

  pub release : Limiter W → ℕ → Result Panic (Limiter W)
  unfolding release_found
  release limiter key = release_found limiter key (limiter.states key)

  unfoldable pub flying : Option (KeyedState W) → ℕ
  flying none = 0
  flying (some state) = state.in_flight

  -- `InFlight`
  unfoldable pub in_flight : Limiter W → ℕ → ℕ
  unfolding flying
  in_flight limiter key = flying (limiter.states key)

module _ {W : Type 0} ⦃f : Float64 W⦄ where
  pub new_token_bucket : ℕ → ℕ → ℕ → TokenBucket W
  new_token_bucket now rate burst = record {
    rate = of_int rate;
    burst = of_int burst;
    tokens = of_int burst;
    last = now;
    rejected = 0;
  }

  pub refill : W → ℕ → W → W → W
  refill tokens elapsed rate burst =
      let filled = plus_product tokens (seconds elapsed) rate in
      if lt burst filled then burst else filled

  pub spend : TokenBucket W → ℕ → W → TokenBucket W × Bool
  spend bucket now tokens =
      if lt tokens (of_int 1)
      then (
        record bucket { tokens = tokens; last = now; rejected = (bucket.rejected + 1) % 2 ^ 64 },
        false,
      )
      else (record bucket { tokens = minus tokens (of_int 1); last = now }, true)

  unfoldable pub allow : TokenBucket W → ℕ → TokenBucket W × Bool
  unfolding not_before refill spend
  allow bucket now =
      let now = not_before now bucket.last in
      spend bucket now (refill bucket.tokens (now - bucket.last) bucket.rate bucket.burst)

  unfoldable pub new_limiter : Bool → ℕ → ℕ → ℕ → Limiter W
  unfolding fairness_share
  new_limiter always_fair max_in_flight rate burst = record {
    max_in_flight = max_in_flight;
    fair_max_in_flight = fairness_share max_in_flight;
    rate = of_int rate;
    fair_rate = of_int (fairness_share rate);
    burst = of_int burst;
    fair_burst = of_int (fairness_share burst);
    contention_window = 2 * 10 ^ 9;
    always_fair = always_fair;
    keys = [];
    states = λ key. none;
    max_tracked_keys = 65536;
    recent_key = 0;
    recent_at = 0;
    previous_key = 0;
    previous_at = 0;
    rejected = 0;
  }

  -- The end of the decision, with the allowance of the key brought up to date.
  pub settle : Limiter W → ℕ → KeyedState W → ℕ → W → Limiter W × RejectReason
  unfolding set_state count_reject
  settle limiter key state now tokens =
      if lt tokens (of_int 1)
      then (
        count_reject (record limiter {
          states = set_state limiter.states key (record state { tokens = tokens; last = now });
        }),
        rejected_rate,
      )
      else (
        record limiter {
          states = set_state limiter.states key (record state {
            in_flight = state.in_flight + 1;
            tokens = minus tokens (of_int 1);
            last = now;
          });
        },
        accepted,
      )

  -- The decision on the state of the key, with the allowances that apply.
  pub decide : Limiter W → ℕ → KeyedState W → ℕ → ℕ → W → W → Limiter W × RejectReason
  unfolding settle not_before refill count_reject
  decide limiter key state now max_in_flight rate burst =
      if leb max_in_flight state.in_flight
      then (count_reject limiter, rejected_concurrency)
      else let now = not_before now state.last in
        settle limiter key state now (refill state.tokens (now - state.last) rate burst)

  pub decide_fairly : Bool → Limiter W → ℕ → KeyedState W → ℕ → Limiter W × RejectReason
  unfolding decide
  decide_fairly true l key state now =
      decide l key state now l.fair_max_in_flight l.fair_rate l.fair_burst
  decide_fairly false l key state now = decide l key state now l.max_in_flight l.rate l.burst

  -- With the state that the key has, or a new one.
  pub acquire_found : Bool → Limiter W → ℕ → ℕ → Option (KeyedState W) → Limiter W × RejectReason
  unfolding decide_fairly track
  acquire_found contended limiter key now (some state) =
      decide_fairly contended limiter key state now
  acquire_found contended limiter key now none =
      let state : KeyedState W = record { in_flight = 0; tokens = limiter.burst; last = now } in
      decide_fairly contended (track limiter key state) key state now

  pub try_acquire : Limiter W → ℕ → ℕ → Limiter W × RejectReason
  unfolding acquire_found observe_key other_key_recently_seen
  try_acquire limiter key now =
      let contended = limiter.always_fair || other_key_recently_seen limiter key now in
      let observed = observe_key limiter key now in
      acquire_found contended observed key now (observed.states key)
