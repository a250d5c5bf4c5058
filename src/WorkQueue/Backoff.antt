-- ===== src/WorkQueue/Backoff.antt =====
-- backend/server/services/work_queue/backoff_algorithms.go. The source computes with floats, which
-- are exact here for intervals below 2 ^ 53 nanoseconds: a product with a power of two is not rounded.
use buildbeaver.Base.{
  ltb, leb, if◌then◌else◌, ℕ, zero, suc, ◌+◌, ◌-◌, ◌*◌, ◌/◌, ◌^◌, Option, none, some,
}

-- `min(attemptsSoFar-1, 30)`, for an attempt that was made.
unfoldable pub doubling_count : ℕ → ℕ
doubling_count attempts = if ltb (attempts - 1) 30 then attempts - 1 else 30

-- The interval; without an attempt the multiple is one half.
unfoldable pub exponential_interval : ℕ → ℕ → ℕ → ℕ
exponential_interval zero initial max = if ltb initial (2 * max) then initial / 2 else max
exponential_interval (suc n) initial max =
    if ltb (initial * 2 ^ doubling_count (suc n)) max
    then initial * 2 ^ doubling_count (suc n)
    else max

-- The attempts so far and the time of the last one, to the time before which there is no other.
abbrev pub BackoffAlgorithm : Type 0
BackoffAlgorithm = ℕ → ℕ → Option ℕ

unfoldable pub exponential_backoff : ℕ → ℕ → ℕ → BackoffAlgorithm
exponential_backoff max_attempts initial max attempts last =
    if leb max_attempts attempts
    then none
    else some (last + exponential_interval attempts initial max)

unfoldable pub linear_backoff : ℕ → ℕ → BackoffAlgorithm
linear_backoff max_attempts interval attempts last =
    if leb max_attempts attempts then none else some (last + interval)

unfoldable pub retry_once : ℕ → BackoffAlgorithm
retry_once interval = linear_backoff 2 interval

unfoldable pub no_retry : BackoffAlgorithm
no_retry attempts last = none
