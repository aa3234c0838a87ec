-- ===== src/Generators/RequeueAfter.antt =====
-- The requeue time that a generator's spec asks for, and the defaults (pkg/generators).
use applicationset.Prelude.{
  ◌-◌, suc, negsuc, ◌≤ℤ◌, ℕ, ℤ, pos, ◌*◌, ◌%◌, ◌^◌, ◌≤◌, ◌<◌, ◌≡◌, ◌↔◌, Option, none, some, times64,
  IsInt64, signed64, arith,
}
use applicationset.Generators.Interface.{Duration, second}

-- `time.Duration(*requeueAfterSeconds) * time.Second`, or the default
unfoldable pub requeue_after_or : Duration → Option ℤ → Duration
unfolding times64
requeue_after_or default none = default
requeue_after_or default (some seconds) = times64 seconds second

-- `DefaultSCMProviderRequeueAfterSeconds` and `DefaultPullRequestRequeueAfterSeconds`, 30 minutes
abbrev pub default_scm_provider_requeue_after_seconds : Duration
default_scm_provider_requeue_after_seconds = pos (1800 * second)

abbrev pub default_pull_request_requeue_after_seconds : Duration
default_pull_request_requeue_after_seconds = pos (1800 * second)

signed64-IsInt64 : (u : ℕ) → u < 2 ^ 64 → IsInt64 (signed64 u)
signed64-IsInt64 u h = ground arith

signed64_exact : (n : ℕ) → signed64 (n % 2 ^ 64) ≡ pos n → n < 2 ^ 63
signed64_exact n h = ground arith

signed64_small : (n : ℕ) → n < 2 ^ 63 → signed64 (n % 2 ^ 64) ≡ pos n
signed64_small n h = ground arith

negative-IsInt64 : (m : ℕ) → IsInt64 (signed64 ((2 ^ 64 - m % 2 ^ 64) % 2 ^ 64))
negative-IsInt64 m = signed64-IsInt64 _ (omega arith)

negative_exact :
    (m : ℕ) → 0 < m → signed64 ((2 ^ 64 - m % 2 ^ 64) % 2 ^ 64) ≡ negsuc (m - 1) → m ≤ 2 ^ 63
negative_exact m h e = ground arith

negative_small :
    (m : ℕ) → 0 < m → m ≤ 2 ^ 63 → signed64 ((2 ^ 64 - m % 2 ^ 64) % 2 ^ 64) ≡ negsuc (m - 1)
negative_small m h b = ground arith

-- The product of an integer and a positive constant, which does not wrap around.
abbrev pub exact_product : ℤ → ℕ → ℤ
exact_product (pos n) k = pos (n * k)
exact_product (negsuc n) k = negsuc (suc n * k - 1)

-- The time that a spec asks for is an `int64`, and it is the seconds asked for exactly if these are
-- from -9223372036 to 9223372036, about 292 years: the product of other seconds wraps around.
pub requeue_after_or_bounds :
    (default : Duration) (seconds : ℤ)
    → IsInt64 (requeue_after_or default (some seconds))
      × ((requeue_after_or default (some seconds) ≡ exact_product seconds second)
          ↔ ((negsuc 9_223_372_035 ≤ℤ seconds) × (seconds ≤ℤ pos 9_223_372_036)))
unfolding requeue_after_or times64
requeue_after_or_bounds default (pos n) = (
  signed64-IsInt64 (n * second % 2 ^ 64) (omega arith),
  (
    λ e. (omega arith, omega (arith, signed64_exact (n * second) e)),
    λ h. signed64_small (n * second) (omega (arith, h.1)),
  ),
)
requeue_after_or_bounds default (negsuc n) = (
  negative-IsInt64 (suc n * second),
  (
    λ e. (omega (arith, negative_exact (suc n * second) (omega arith) e), omega arith),
    λ h. negative_small (suc n * second) (omega arith) (omega (arith, h.0)),
  ),
)
