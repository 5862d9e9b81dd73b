-- ===== src/Ratelimit.antt =====
-- internal/ratelimit/ratelimit.go: the token bucket, a Lua script that Redis runs as one step.
-- Tokens are counted in millionths and times in microseconds, so that the script's arithmetic on
-- fractions is exact on integers. The script's doubles are taken as exact numbers: on doubles a
-- refill may come out a little lower, so that a request which comes exactly when the wait it was told
-- is over can be refused once more, for a millisecond.
pub mod Steps
pub mod Bound
mod Tests
use shortn.Prelude.{ℕ, ◌+◌, ◌-◌, ◌*◌, ◌/◌, Bool, Option, none, some, ◌==◌, leb, if◌then◌else◌}
use shortn.Prelude.Int.{ℤ, pos, pos_part, sub_ℕ, ◌+ℤ◌, ◌-ℤ◌, ltb_ℤ}
use shortn.Act.{Result, ok, err, Act, ◌>>=◌, pure}

abbrev pub million : ℕ
million = 1_000_000

-- math.ceil(a / b) for whole numbers.
unfoldable pub ceil_div : ℕ → ℕ → ℕ
ceil_div a b = (a + b - 1) / b

-- What HSET and PEXPIRE leave at the key: the fields, and the time at which Redis drops the key.
pub record Bucket : Type 0 where
  pub tokens : ℤ
  pub ts : ℕ
  pub expires : ℕ

pub record Reply : Type 0 where
  pub allowed : ℕ
  pub retry_ms : ℕ

-- HMGET: a key is there until it expires.
abbrev pub fetch : ℕ → Option Bucket → Option Bucket
fetch now none = none
fetch now (some b) = if leb b.expires now then none else some b

module _ (burst rps : ℕ) where
  abbrev pub capacity : ℤ
  capacity = pos (burst * million)

  -- Idle buckets are kept for as long as they need to fill up, and a second.
  abbrev pub idle_ms : ℕ
  idle_ms = ceil_div (burst * 1000) rps + 1000

  -- tokens and ts, a full bucket where there is none, then
  -- math.min(burst, tokens + (now - ts) * rps)
  unfoldable pub refill : ℕ → Option Bucket → ℤ
  refill now none = capacity
  refill now (some b) =
      let more = b.tokens +ℤ sub_ℕ (now * rps) (b.ts * rps) in
      if ltb_ℤ more capacity then more else capacity

  abbrev left : ℕ → ℤ → Bucket
  left now tokens = record { tokens = tokens; ts = now; expires = now + idle_ms * 1000 }

  -- The script at time `now`, from what the key holds to the reply and what it holds then.
  unfoldable pub bucket_script : ℕ → Option Bucket → Reply × Bucket
  unfolding refill
  bucket_script now held =
      let tokens = refill now held in
      if ltb_ℤ tokens (pos million)
      then (
        record { allowed = 0; retry_ms = ceil_div (pos_part (pos million -ℤ tokens)) (rps * 1000) },
        left now tokens,
      )
      else (record { allowed = 1; retry_ms = 0 }, left now (tokens -ℤ pos million))

-- Limiter.Allow: whether the request may pass, and the wait in milliseconds. `run` is
-- script.Run with the limiter's burst and rate at a key.
unfoldable pub allow : {W : Type 0} → Act W Reply → Act W (Bool × ℕ)
allow run = do reply ← run; pure (reply.allowed == 1, reply.retry_ms)
