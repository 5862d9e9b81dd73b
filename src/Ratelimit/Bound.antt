-- ===== src/Ratelimit/Bound.antt =====
-- How many requests of one client the limiter lets through in a span of time.
use shortn.Prelude.{ℕ, ◌+◌, ◌≤◌, Option, some, List, [], ◌∷◌}
use shortn.Ratelimit.{Bucket, Reply, fetch, bucket_script}

-- Request times in order, from one time to another.
abbrev pub InOrder : ℕ → ℕ → List ℕ → Type 0
InOrder from to [] = from ≤ to
InOrder from to (t ∷ ts) = (from ≤ t) × InOrder t to ts

module _ (burst rps : ℕ) where
  -- One request: the key is read (it may have expired) and written.
  abbrev pub request : ℕ → Option Bucket → Reply × Bucket
  request now held = bucket_script burst rps now (fetch now held)

  -- How many of the requests at these times pass.
  unfoldable pub passed : List ℕ → Option Bucket → ℕ
  passed [] held = 0
  passed (t ∷ ts) held = (request t held).0.allowed + passed ts (some (request t held).1)
