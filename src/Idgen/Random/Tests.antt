-- ===== src/Idgen/Random/Tests.antt =====
-- Codes from a source that counts.
use shortn.Prelude.{ℕ, ◌+◌, ◌<◌, ◌≡◌, refl, arith, ltb, if◌then◌else◌}
use shortn.Error.{message}
use shortn.Act.{ok, err, Act}
use shortn.Idgen.Random.{new_random_base62, fill, generate}
use shortn.Idgen.Random.Digits.{IsDrawn, generate-IsDrawn}

-- The world is the last number; it fails where that is out of range.
abbrev rand_int : ℕ → Act ℕ ℕ
rand_int limit w = if ltb w limit then (ok w, w + 25) else (err (message "unexpected EOF"), w)

codes_test :
    (generate rand_int (new_random_base62 2) 10 ≡ (ok "az", 60))
    × (generate rand_int (new_random_base62 3) 36 ≡ (err (message "unexpected EOF"), 86))
unfolding generate fill
codes_test = (refl, refl)

rand_int-lt : (limit n w u : ℕ) → rand_int limit w ≡ (ok n, u) → n < limit
rand_int-lt limit n w u e = ground arith

generate-IsDrawn_example : IsDrawn rand_int 2 10 (generate rand_int (new_random_base62 2) 10)
generate-IsDrawn_example = generate-IsDrawn rand_int rand_int-lt 2 10
