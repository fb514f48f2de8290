-- ===== src/Limiter/Keyed.antt =====
-- internal/gateway/gatewayresources/resources.go: `KeyedTokenBuckets`, a bucket for each key.
use hooshi_xagent.Float.{Float64, of_int, minus, lt}
use hooshi_xagent.Limiter.{not_before, refill}
use hooshi_xagent.Base.{
  List, [], ◌∷◌, ℕ, Bool, true, false, not, Option, some, none, ltb, ◌==◌, length, if◌then◌else◌,
  ◌&&◌, ◌+◌, ◌-◌, ◌*◌, ◌%◌, ◌^◌, ◌≡◌, ◌<◌, ◌⊎◌, inl, inr, arith, refl, if_cases, subst, sym, ◌∙◌,
}
use mathlib.Core.Option.{some-injective}

pub record KeyedBucketState (W : Type 0) : Type 0 where
  pub tokens : W
  pub last : ℕ

pub record KeyedTokenBuckets (W : Type 0) : Type 0 where
  pub rate : W
  pub burst : W
  pub keys : List ℕ
  pub states : ℕ → Option (KeyedBucketState W)
  pub max_tracked_keys : ℕ
  pub idle_after : ℕ
  pub rejected : ℕ

-- Rate and burst that are not positive are one.
at_least_one : ℕ → ℕ
at_least_one n = if ltb n 1 then 1 else n

fresh_keys : (ℕ → Bool) → List ℕ → List ℕ
fresh_keys stale [] = []
fresh_keys stale (k ∷ ks) = let rest = fresh_keys stale ks in if stale k then rest else k ∷ rest

module _ {W : Type 0} ⦃f : Float64 W⦄ where
  unfoldable pub new_keyed_token_buckets : ℕ → ℕ → KeyedTokenBuckets W
  unfolding at_least_one
  new_keyed_token_buckets rate burst = record {
    rate = of_int (at_least_one rate);
    burst = of_int (at_least_one burst);
    keys = [];
    states = λ key. none;
    max_tracked_keys = 65536;
    idle_after = 60 * 10 ^ 9;
    rejected = 0;
  }

  -- What the sweep drops: the state of another key that was last used before the cutoff.
  is_stale : ℕ → ℕ → ℕ → ℕ → Option (KeyedBucketState W) → Bool
  is_stale idle_after now key k none = true
  is_stale idle_after now key k (some state) = not (k == key) && ltb (state.last + idle_after) now

  put_bucket :
      (ℕ → Option (KeyedBucketState W)) → ℕ → KeyedBucketState W → ℕ → Option (KeyedBucketState W)
  put_bucket states key state k = if k == key then some state else states k

  pub track_bucket : KeyedTokenBuckets W → ℕ → ℕ → KeyedBucketState W → KeyedTokenBuckets W
  unfolding is_stale put_bucket fresh_keys
  track_bucket buckets key now state =
      let states = put_bucket buckets.states key state in
      let keys = key ∷ buckets.keys in
      if ltb buckets.max_tracked_keys (length keys)
      then record buckets {
        states = λ k. if is_stale buckets.idle_after now key k (states k) then none else states k;
        keys = fresh_keys (λ k. is_stale buckets.idle_after now key k (states k)) keys;
      }
      else record buckets { states = states; keys = keys }

  spend_bucket : KeyedTokenBuckets W → ℕ → ℕ → W → KeyedTokenBuckets W × Bool
  unfolding put_bucket
  spend_bucket buckets key now tokens =
      if lt tokens (of_int 1)
      then (
        record buckets {
          states = put_bucket buckets.states key (record { tokens = tokens; last = now });
          rejected = (buckets.rejected + 1) % 2 ^ 64;
        },
        false,
      )
      else (
        record buckets {
          states =
              put_bucket buckets.states key
                (record { tokens = minus tokens (of_int 1); last = now });
        },
        true,
      )

  use_bucket : KeyedTokenBuckets W → ℕ → ℕ → KeyedBucketState W → KeyedTokenBuckets W × Bool
  unfolding spend_bucket not_before refill
  use_bucket buckets key now state =
      let now = not_before now state.last in
      spend_bucket buckets key now
        (refill state.tokens (now - state.last) buckets.rate buckets.burst)

  allow_found :
      KeyedTokenBuckets W → ℕ → ℕ → Option (KeyedBucketState W) → KeyedTokenBuckets W × Bool
  unfolding use_bucket track_bucket
  allow_found buckets key now (some state) = use_bucket buckets key now state
  allow_found buckets key now none =
      let state : KeyedBucketState W = record { tokens = buckets.burst; last = now } in
      use_bucket (track_bucket buckets key now state) key now state

  pub allow_key : KeyedTokenBuckets W → ℕ → ℕ → KeyedTokenBuckets W × Bool
  unfolding allow_found
  allow_key buckets key now = allow_found buckets key now (buckets.states key)

  -- What a request of another key leaves of the state of a key.
  abbrev pub Spares : KeyedTokenBuckets W → ℕ → ℕ → KeyedTokenBuckets W → Type 0
  Spares buckets now k buckets' =
      (buckets'.states k ≡ buckets.states k)
      ⊎ ((buckets'.states k ≡ none)
          × ((state : KeyedBucketState W)
              → buckets.states k ≡ some state
              → state.last + buckets.idle_after < now))

  put_other :
      (states : ℕ → Option (KeyedBucketState W)) (key k : ℕ) (state : KeyedBucketState W)
      → ¬ (k ≡ key)
      → put_bucket states key state k ≡ states k
  unfolding put_bucket
  put_other states key k state n = ground (arith, n)

  spend_other :
      (buckets : KeyedTokenBuckets W) (key now k : ℕ) (tokens : W)
      → ¬ (k ≡ key)
      → (spend_bucket buckets key now tokens).0.states k ≡ buckets.states k
  unfolding spend_bucket
  spend_other buckets key now k tokens n =
      if_cases (λ (r : KeyedTokenBuckets W × Bool). r.0.states k ≡ buckets.states k)
        (lt tokens (of_int 1))
        (λ _. put_other buckets.states key k (record { tokens = tokens; last = now }) n)
        (λ _.
          put_other buckets.states key k (record { tokens = minus tokens (of_int 1); last = now })
            n)

  use_other :
      (buckets : KeyedTokenBuckets W) (key now k : ℕ) (state : KeyedBucketState W)
      → ¬ (k ≡ key)
      → (use_bucket buckets key now state).0.states k ≡ buckets.states k
  unfolding use_bucket
  use_other buckets key now k state n = spend_other buckets key _ k _ n

  stale_spares :
      (idle_after now key k : ℕ) (found : Option (KeyedBucketState W))
      → ((if is_stale idle_after now key k found then none else found) ≡ found)
        ⊎ (((if is_stale idle_after now key k found then none else found) ≡ none)
            × ((state : KeyedBucketState W) → found ≡ some state → state.last + idle_after < now))
  unfolding is_stale
  stale_spares idle_after now key k none = inl refl
  stale_spares idle_after now key k (some state) =
      if_cases
        (λ r.
          (r ≡ some state)
          ⊎ ((r ≡ none)
              × ((other : KeyedBucketState W)
                  → some state ≡ some other
                  → other.last + idle_after < now)))
        (not (k == key) && ltb (state.last + idle_after) now)
        (λ e. inr (
          refl,
          λ other i.
              subst (λ (s : KeyedBucketState W). s.last + idle_after < now)
                (some-injective state other i) (ground arith),
        ))
        (λ _. inl refl)

  -- The map of buckets after the sweep, at another key.
  track-Spares :
      (buckets : KeyedTokenBuckets W) (key now k : ℕ) (state : KeyedBucketState W)
      → ¬ (k ≡ key)
      → Spares buckets now k (track_bucket buckets key now state)
  unfolding track_bucket
  track-Spares buckets key now k state n =
      if_cases (Spares buckets now k) (ltb buckets.max_tracked_keys (length (key ∷ buckets.keys)))
        (λ _.
          subst
            (λ found.
              ((if is_stale buckets.idle_after now key k found then none else found)
                ≡ buckets.states k)
              ⊎ (((if is_stale buckets.idle_after now key k found then none else found) ≡ none)
                  × ((s : KeyedBucketState W)
                      → buckets.states k ≡ some s
                      → s.last + buckets.idle_after < now)))
            (sym (put_other buckets.states key k state n))
            (stale_spares buckets.idle_after now key k (buckets.states k)))
        (λ _. inl (put_other buckets.states key k state n))

  Spares-on :
      (buckets b b' : KeyedTokenBuckets W) (now k : ℕ)
      → Spares buckets now k b
      → b'.states k ≡ b.states k
      → Spares buckets now k b'
  Spares-on buckets b b' now k (inl e) h = inl (h ∙ e)
  Spares-on buckets b b' now k (inr (e, f)) h = inr (h ∙ e, f)

  allow_found-Spares :
      (buckets : KeyedTokenBuckets W) (key now k : ℕ) (found : Option (KeyedBucketState W))
      → ¬ (k ≡ key)
      → Spares buckets now k (allow_found buckets key now found).0
  unfolding allow_found
  allow_found-Spares buckets key now k (some state) n = inl (use_other buckets key now k state n)
  allow_found-Spares buckets key now k none n =
      let state : KeyedBucketState W = record { tokens = buckets.burst; last = now } in
      Spares-on buckets (track_bucket buckets key now state)
        (use_bucket (track_bucket buckets key now state) key now state).0 now k
        (track-Spares buckets key now k state n)
        (use_other (track_bucket buckets key now state) key now k state n)

  -- A request of one peer never costs another peer: the bucket of another key is as it was, or it was
  -- swept because it had not been used for longer than the idle time.
  pub allow_key-Spares :
      (buckets : KeyedTokenBuckets W) (key now k : ℕ)
      → ¬ (k ≡ key)
      → Spares buckets now k (allow_key buckets key now).0
  unfolding allow_key
  allow_key-Spares buckets key now k n = allow_found-Spares buckets key now k _ n
