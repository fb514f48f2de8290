-- ===== src/Limiter/Bucket.antt =====
-- internal/gateway/gatewayresources/resources.go: how much a token bucket lets through.
use hooshi_xagent.Float.{Float64, IsRounded, of_int, lt, seconds, plus_product}
use hooshi_xagent.Limiter.{spend, TokenBucket, allow, not_before, refill}
use hooshi_xagent.Base.{
  List, [], ◌∷◌, ℕ, Bool, true, false, ◌≡◌, ◌≤◌, arith, ◌+◌, ◌-◌, ◌*◌, ◌^◌, length, ap, if_cases,
  refl, subst, sym, ◌∙◌,
}
use native.Mathlib.Nat.{add-mul}
use native.Mathlib.Decide.{dec_le, dec_lt}
use mathlib.Core.Bool.{true≢false}

not_before_lem : (now last : ℕ) → last ≤ not_before now last
unfolding not_before
not_before_lem now last = ground arith

span_lem : (a b c r : ℕ) → a ≤ b → b ≤ c → (b - a) * r + (c - b) * r ≡ (c - a) * r
span_lem a b c r h k =
    let whole : c - a ≡ (b - a) + (c - b) = omega arith in
    rw whole (sym (add-mul (b - a) (c - b) r))

-- One rounded refill that is cut at the burst is wrong by at most one part in 2 ^ 50 of the burst.
capped_lem :
    (start filled earned burst : ℕ)
    → 2 ^ 50 * (10 ^ 9 * filled) ≤ (2 ^ 50 + 1) * (10 ^ 9 * start + earned)
    → (level : ℕ) → level ≤ filled
    → level ≤ burst
    → 2 ^ 50 * (10 ^ 9 * level) ≤ 2 ^ 50 * (10 ^ 9 * start + earned) + 10 ^ 9 * burst
capped_lem start filled earned burst h level i j =
    elim (dec_le (10 ^ 9 * start + earned) (10 ^ 9 * burst)) [
      | yes p ↦ omega arith
      | no n ↦ omega arith
    ]

-- What observations let through, with what they leave: `passed` of them, from the allowance `start`
-- to `left`, in a span that earned `earned`, with an error of `slack`.
Covers : ℕ → ℕ → ℕ → ℕ → ℕ → ℕ → Type 0
Covers one passed left start earned slack =
    2 ^ 50 * (10 ^ 9 * (passed * one + left)) ≤ 2 ^ 50 * (10 ^ 9 * start + earned) + slack

Covers-+ :
    (one p n left middle start e e' slack slack' : ℕ)
    → Covers one p middle start e slack
    → Covers one n left middle e' slack'
    → Covers one (p + n) left start (e + e') (slack + slack')
unfolding Covers
Covers-+ one p n left middle start e e' slack slack' f g = omega (arith, add-mul p n one)

-- Whether an observation lets a request through.
passed : {A : Type 0} → A × Bool → ℕ
passed (bucket, true) = 1
passed (bucket, false) = 0

module _ {W : Type 0} ⦃f : Float64 W⦄ where
  -- A history of observations.
  pub observe : TokenBucket W → List ℕ → TokenBucket W
  observe bucket [] = bucket
  observe bucket (now ∷ times) = observe (allow bucket now).0 times

  -- The observations that are let through.
  unfoldable pub admitted : TokenBucket W → List ℕ → ℕ
  unfolding passed
  admitted bucket [] = 0
  admitted bucket (now ∷ times) = passed (allow bucket now) + admitted (allow bucket now).0 times

module _ {W : Type 0} ⦃f : Float64 W⦄ (value : W → ℕ) (one : ℕ)
    (rounded : IsRounded W value one) where
  not_lt : (x y : W) → lt x y ≡ false → value y ≤ value x
  not_lt x y h = elim (dec_lt (value x) (value y)) [
    | yes p ↦ absurd (true≢false (sym ((rounded.lt_iff x y).1 p) ∙ h))
    | no n ↦ omega arith
  ]

  refill_lem :
      (tokens : W) (elapsed : ℕ) (rate burst : W)
      → (value (refill tokens elapsed rate burst) ≤ value burst)
        × (2 ^ 50 * (10 ^ 9 * value (refill tokens elapsed rate burst))
            ≤ 2 ^ 50 * (10 ^ 9 * value tokens + elapsed * value rate) + 10 ^ 9 * value burst)
  unfolding refill
  refill_lem tokens elapsed rate burst =
      let filled = plus_product tokens (seconds elapsed) rate in
      let near =
        capped_lem (value tokens) (value filled) (elapsed * value rate) (value burst)
          (rounded.plus_product_rounded tokens rate elapsed) in
      if_cases
        (λ (level : W).
          (value level ≤ value burst)
          × (2 ^ 50 * (10 ^ 9 * value level)
              ≤ 2 ^ 50 * (10 ^ 9 * value tokens + elapsed * value rate) + 10 ^ 9 * value burst))
        (lt burst filled)
        (λ e.
          let above = (rounded.lt_iff burst filled).0 e in
          (omega arith, near (value burst) (omega (arith, above)) (omega arith)))
        (λ e.
          let within = not_lt burst filled e in (within, near (value filled) (omega arith) within))

  spend_lem :
      (bucket : TokenBucket W) (now : ℕ) (tokens : W)
      → value tokens ≤ 2 ^ 53 * one
      → (passed (spend bucket now tokens) * one + value (spend bucket now tokens).0.tokens
          ≡ value tokens)
        × ((spend bucket now tokens).0.last ≡ now)
        × ((spend bucket now tokens).0.rate ≡ bucket.rate)
        × ((spend bucket now tokens).0.burst ≡ bucket.burst)
  unfolding spend passed
  spend_lem bucket now tokens h =
      if_cases
        (λ (r : TokenBucket W × Bool).
          (passed r * one + value r.0.tokens ≡ value tokens)
          × (r.0.last ≡ now)
          × (r.0.rate ≡ bucket.rate)
          × (r.0.burst ≡ bucket.burst))
        (lt tokens (of_int 1)) (λ _. (omega arith, refl, refl, refl))
        (λ e.
          let enough = not_lt tokens (of_int 1) e in
          let exact = rounded.minus_exact tokens (omega (arith, enough, rounded.value-one)) h in
          (omega (arith, exact), refl, refl, refl))

  allow_lem :
      (bucket : TokenBucket W) (now : ℕ)
      → value bucket.burst ≤ 2 ^ 53 * one
      → Covers one
          (passed (allow bucket now))
          (value (allow bucket now).0.tokens)
          (value bucket.tokens)
          (((allow bucket now).0.last - bucket.last) * value bucket.rate)
          (10 ^ 9 * value bucket.burst)
        × (value (allow bucket now).0.tokens ≤ value bucket.burst)
        × (bucket.last ≤ (allow bucket now).0.last)
        × ((allow bucket now).0.rate ≡ bucket.rate)
        × ((allow bucket now).0.burst ≡ bucket.burst)
  unfolding allow Covers
  allow_lem bucket now h =
      let at = not_before now bucket.last in
      let tokens = refill bucket.tokens (at - bucket.last) bucket.rate bucket.burst in
      let (e, g) = refill_lem bucket.tokens (at - bucket.last) bucket.rate bucket.burst in
      let (a, b, c, d) = spend_lem bucket at tokens (omega (arith, e, h)) in
      let later = not_before_lem now bucket.last in
      (rw (a, b) g, omega (arith, a, e), rw b later, c, d)

  -- For a bucket whose burst is at most 2 ^ 53, and over any observations, in any order of their
  -- times: the requests let through and the allowance left amount to no more than the allowance at
  -- the start, the rate times the time that passed on the bucket's clock, and for the rounding one
  -- part in 2 ^ 50 of the burst for each observation; the clock never runs backwards; and the
  -- allowance stays within the burst, without any error.
  pub admitted_bounded :
      (bucket : TokenBucket W) (times : List ℕ)
      → value bucket.burst ≤ 2 ^ 53 * one
      → value bucket.tokens ≤ value bucket.burst
      → (2 ^ 50 * (10 ^ 9 * (admitted bucket times * one + value (observe bucket times).tokens))
          ≤ 2 ^ 50
              * (10 ^ 9 * value bucket.tokens
                  + ((observe bucket times).last - bucket.last) * value bucket.rate)
            + length times * (10 ^ 9 * value bucket.burst))
        × (value (observe bucket times).tokens ≤ value bucket.burst)
        × (bucket.last ≤ (observe bucket times).last)
  unfolding admitted observe Covers
  admitted_bounded bucket [] h i = (omega arith, i, omega arith)
  admitted_bounded bucket (now ∷ times) h i =
      let next = (allow bucket now).0 in
      let (a, b, c, d, e) = allow_lem bucket now h in
      let same : value next.burst ≡ value bucket.burst = ap value e in
      let (j, k, l) =
        admitted_bounded next times (omega (arith, h, same)) (omega (arith, b, same)) in
      let rest =
        subst
          (λ (rate : W).
            Covers one (admitted next times) (value (observe next times).tokens) (value next.tokens)
              (((observe next times).last - next.last) * value rate)
              (length times * (10 ^ 9 * value bucket.burst)))
          d
          (subst
            (λ (burst : W).
              Covers one (admitted next times) (value (observe next times).tokens)
                (value next.tokens) (((observe next times).last - next.last) * value next.rate)
                (length times * (10 ^ 9 * value burst)))
            e j) in
      let whole =
        Covers-+ one (passed (allow bucket now)) (admitted next times)
          (value (observe next times).tokens) (value next.tokens) (value bucket.tokens)
          ((next.last - bucket.last) * value bucket.rate)
          (((observe next times).last - next.last) * value bucket.rate)
          (10 ^ 9 * value bucket.burst) (length times * (10 ^ 9 * value bucket.burst)) a rest in
      let span = span_lem bucket.last next.last (observe next times).last (value bucket.rate) c l in
      (
        omega (arith, whole, span, add-mul 1 (length times) (10 ^ 9 * value bucket.burst)),
        omega (arith, k, same),
        omega (arith, c, l),
      )
