-- ===== src/Ratelimit/Tests.antt =====
-- A bucket of two tokens, refilled at one a second.
use shortn.Prelude.{◌≡◌, refl, none, some, [], ◌∷◌, arith}
use shortn.Prelude.Int.{pos, ◌-ℤ◌, ◌+ℤ◌}
use shortn.Ratelimit.{Bucket, ceil_div, fetch, refill, bucket_script}
use shortn.Ratelimit.Steps.{IsValid, bucket_script-expiry}
use shortn.Ratelimit.Bound.{request, passed}

-- A tenth of a token is left at time 0.
abbrev drained : Bucket
drained = record { tokens = pos 100_000; ts = 0; expires = 3_000_000 }

drained-IsValid : IsValid 2 1 drained
unfolding ceil_div
drained-IsValid = record { some_tokens = omega arith; bounded = omega arith; kept = refl }

denied_test : (request 2 1 0 (some drained)).0.allowed ≡ 0
unfolding bucket_script refill ◌-ℤ◌ ◌+ℤ◌ ceil_div
denied_test = refl

passed_test : passed 2 1 (0 ∷ 1 ∷ 2 ∷ 1_000_001 ∷ []) none ≡ 3
unfolding passed bucket_script refill ◌-ℤ◌ ◌+ℤ◌ ceil_div
passed_test = refl

bucket_script-expiry_example :
    bucket_script 2 1 5_000_000 (fetch 5_000_000 (some drained))
    ≡ bucket_script 2 1 5_000_000 (some drained)
bucket_script-expiry_example =
    bucket_script-expiry 2 1 5_000_000 drained (omega arith) drained-IsValid
