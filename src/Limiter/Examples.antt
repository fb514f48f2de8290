-- ===== src/Limiter/Examples.antt =====
-- The limiters on concrete input.
use hooshi_xagent.Float.{billionths, billionths-IsRounded}
use hooshi_xagent.Limiter.{
  TokenBucket, allow, Limiter, new_limiter, try_acquire, release, in_flight, flying,
}
use hooshi_xagent.Limiter.Bucket.{observe, admitted, admitted_bounded}
use hooshi_xagent.Limiter.Flying.{IsBounded, Acquires, fairness_share_lem}
use hooshi_xagent.Limiter.InFlight.{Releases, try_acquire_lem, release_lem}
use hooshi_xagent.Limiter.Keyed.{
  KeyedTokenBuckets, new_keyed_token_buckets, allow_key, Spares, allow_key-Spares,
}
use hooshi_xagent.Base.{List, [], ◌∷◌, ℕ, false, ◌≤◌, arith, ◌+◌, ◌-◌, ◌*◌, refl, ◌^◌, ◌≡◌}

-- Two tokens a second, three at once.
abbrev bucket : TokenBucket ℕ
bucket = record {
  rate = 2 * 10 ^ 9;
  burst = 3 * 10 ^ 9;
  tokens = 3 * 10 ^ 9;
  last = 0;
  rejected = 0;
}

abbrev times : List ℕ
times = 0 ∷ 0 ∷ 0 ∷ 0 ∷ 400000000 ∷ 700000000 ∷ 600000000 ∷ []

four_let_through : admitted bucket times ≡ 4
unfolding admitted allow
four_let_through = refl

admitted_bounded_example :
    (2 ^ 50 * (10 ^ 9 * (admitted bucket times * 10 ^ 9 + (observe bucket times).tokens))
      ≤ 2 ^ 50
          * (10 ^ 9 * bucket.tokens + ((observe bucket times).last - bucket.last) * bucket.rate)
        + 7 * (10 ^ 9 * bucket.burst))
    × ((observe bucket times).tokens ≤ bucket.burst)
    × (bucket.last ≤ (observe bucket times).last)
admitted_bounded_example =
    admitted_bounded (λ n. n) (10 ^ 9) billionths-IsRounded bucket times (omega arith) (omega arith)

limiter : Limiter ℕ
limiter = new_limiter false 32 256 512

limiter-IsBounded : IsBounded limiter
unfolding limiter new_limiter in_flight flying
limiter-IsBounded = record { fair = (fairness_share_lem 32).0; bounded = λ key. omega arith }

try_acquire_lem_example : Acquires limiter 5 (try_acquire limiter 5 1000)
try_acquire_lem_example = try_acquire_lem limiter 5 1000 limiter-IsBounded

release_lem_example :
    Releases (try_acquire limiter 5 1000).0 5 (release (try_acquire limiter 5 1000).0 5)
release_lem_example =
    release_lem (try_acquire limiter 5 1000).0 5
      (try_acquire_lem limiter 5 1000 limiter-IsBounded).0

buckets : KeyedTokenBuckets ℕ
buckets = new_keyed_token_buckets 2 4

allow_key-Spares_example : Spares buckets 9 3 (allow_key buckets 5 9).0
allow_key-Spares_example = allow_key-Spares buckets 5 9 3 (λ h. absurd (omega arith))
