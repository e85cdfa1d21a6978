-- ===== src/Delivery/Backoff.antt =====
-- `backoff` of internal/delivery/processor.go. A `time.Duration` is a number of nanoseconds; none of
-- these passes 64 seconds, so int64 does not wrap.
use postie.Prelude.{ℕ, zero, suc, ◌+◌, ◌*◌, ◌/◌, ◌^◌, ◌≤◌, ◌<◌, ◌≡◌, refl, min, max, arith, ap}

abbrev pub second : ℕ
second = 1000000000

-- `time.Second << min(attempt, 6)`
unfoldable pub ceiling : ℕ → ℕ
ceiling attempt = second * 2 ^ min attempt 6

-- What `jitter` is called with; its answer must be below.
unfoldable pub jitter_bound : ℕ → ℕ
unfolding ceiling
jitter_bound attempt = ceiling attempt / 2 + 1

-- `jitter` here is the number that the call returned.
unfoldable pub backoff : ℕ → ℕ → ℕ
unfolding ceiling
backoff attempt jitter = min (max (ceiling attempt / 2 + jitter) second) (60 * second)

-- The ceiling as a table over the clamped attempt.
ceiling_at : ℕ → ℕ
ceiling_at k = second * 2 ^ k

abbrev IsScaled : ℕ → Type 0
IsScaled c = (second ≤ c) × (c ≤ 64 * second)

scaled : (k : ℕ) → k ≤ 6 → IsScaled (ceiling_at k)
unfolding ceiling_at
scaled zero h = omega arith
scaled (suc zero) h = omega arith
scaled (suc (suc zero)) h = omega arith
scaled (suc (suc (suc zero))) h = omega arith
scaled (suc (suc (suc (suc zero)))) h = omega arith
scaled (suc (suc (suc (suc (suc zero))))) h = omega arith
scaled (suc (suc (suc (suc (suc (suc zero)))))) h = omega arith
scaled (suc (suc (suc (suc (suc (suc (suc k))))))) h = absurd (omega arith)

pub ceiling-IsScaled : (attempt : ℕ) → IsScaled (ceiling attempt)
unfolding ceiling ceiling_at
ceiling-IsScaled attempt = scaled (min attempt 6) (omega arith)

-- The ceiling doubles with each attempt, from 1 s up to 64 s.
pub ceiling_step : (attempt : ℕ) → ceiling (attempt + 1) ≡ min (2 * ceiling attempt) (64 * second)
unfolding ceiling
ceiling_step zero = omega arith
ceiling_step (suc zero) = omega arith
ceiling_step (suc (suc zero)) = omega arith
ceiling_step (suc (suc (suc zero))) = omega arith
ceiling_step (suc (suc (suc (suc zero)))) = omega arith
ceiling_step (suc (suc (suc (suc (suc zero))))) = omega arith
ceiling_step (suc (suc (suc (suc (suc (suc k)))))) =
    let now : min (suc (suc (suc (suc (suc (suc k)))))) 6 ≡ 6 = omega arith in
    let next : min (suc (suc (suc (suc (suc (suc k))))) + 1) 6 ≡ 6 = omega arith in
    omega (arith, ap (λ (t : ℕ). second * 2 ^ t) now, ap (λ (t : ℕ). second * 2 ^ t) next)

-- A jitter in its range keeps the wait between half the ceiling and the ceiling, where these lie
-- between 1 s and 60 s, and always between 1 s and 60 s; the ceiling starts at 1 s, doubles with
-- each attempt and stays at 64 s.
pub backoff_bounds :
    (attempt jitter : ℕ)
    → jitter < jitter_bound attempt
    → (second ≤ backoff attempt jitter)
      × (backoff attempt jitter ≤ 60 * second)
      × (ceiling attempt / 2 ≤ backoff attempt jitter)
      × (backoff attempt jitter ≤ ceiling attempt)
      × (ceiling 0 ≡ second)
      × (ceiling (attempt + 1) ≡ min (2 * ceiling attempt) (64 * second))
unfolding backoff jitter_bound
backoff_bounds attempt jitter h =
    let scale = ceiling-IsScaled attempt in
    (
      omega arith,
      omega arith,
      omega arith,
      omega arith,
      unfold ceiling in refl,
      ceiling_step attempt,
    )
