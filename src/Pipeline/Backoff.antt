-- ===== src/Pipeline/Backoff.antt =====
-- How long a failed job waits (services/api/internal/database/pipeline.go, redaction.go, erasure.go
-- and retention_expiry.go): the square of its attempts in seconds, in a `time.Duration`.
use data_trains.Base.{ℕ, ◌+◌, ◌*◌, ◌-◌, ◌%◌, ◌^◌, ◌≤◌, ◌≡◌, ltb, if◌then◌else◌, arith}
use data_trains.Domain.Model.{Time}

-- 1 second
abbrev pub second : ℕ
second = 1000000000

-- `time.Duration(attempt*attempt) * time.Second`: the nanoseconds in an `int64`, which wraps.
backoff_bits : ℕ → ℕ
backoff_bits attempt = attempt * attempt * second % 2 ^ 64

-- `now.Add` of that duration, which is negative from 2 ^ 63 on.
pub backoff : Time → ℕ → Time
unfolding backoff_bits
backoff now attempt =
    if ltb (backoff_bits attempt) (2 ^ 63)
    then now + backoff_bits attempt
    else now + backoff_bits attempt - 2 ^ 64

square_bound : (a : ℕ) → a ≤ 96038 → a * a ≤ 96038 * 96038
square_bound a h = grind arith

-- Up to 96,038 attempts the backoff is the square of the attempts in seconds after now.
pub backoff_lem :
    (now : Time) (attempt : ℕ)
    → attempt ≤ 96038
    → backoff now attempt ≡ now + attempt * attempt * second
unfolding backoff
backoff_lem now attempt h = ground (arith, square_bound attempt h)
