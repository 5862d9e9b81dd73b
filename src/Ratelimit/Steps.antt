-- ===== src/Ratelimit/Steps.antt =====
-- One request at a bucket.
use shortn.Prelude.{
  ℕ, ◌+◌, ◌-◌, ◌*◌, ◌≤◌, ◌<◌, ◌≡◌, ◌↔◌, ap, sym, if◌then◌else◌, arith, Bool-cases, ltb, leb, inl,
  inr, Option, none, some,
}
use shortn.Prelude.Int.{pos, pos_part, ◌≤ℤ◌, ◌+ℤ◌, ◌-ℤ◌}
use shortn.Ratelimit.{
  million, ceil_div, Bucket, Reply, fetch, capacity, idle_ms, left, refill, bucket_script,
}

pub ceil_div-ge : (a b : ℕ) → 0 < b → a ≤ ceil_div a b * b
unfolding ceil_div
ceil_div-ge a b h = grind arith

pub mul_mono : (a b c : ℕ) → a ≤ b → a * c ≤ b * c
mul_mono a b c h = grind arith

module _ (burst rps : ℕ) where
  -- Between no token and a full bucket, and kept until it is full again.
  pub record IsValid (b : Bucket) : Type 0 where
    pub some_tokens : pos 0 ≤ℤ b.tokens
    pub bounded : b.tokens ≤ℤ capacity burst rps
    pub kept : b.expires ≡ b.ts + idle_ms burst rps * 1000

  elapsed : (ts now : ℕ) → ts ≤ now → now * rps ≡ ts * rps + (now - ts) * rps
  elapsed ts now h =
      let split : now ≡ ts + (now - ts) = omega arith in
      omega (arith, ap (λ (t : ℕ). t * rps) split)

  -- The tokens at a later time: what was left and what has come since, up to a full bucket.
  pub refill-later :
      (now : ℕ) (b : Bucket)
      → IsValid b
      → b.ts ≤ now
      → let t = pos_part b.tokens + (now - b.ts) * rps in
        refill burst rps now (some b) ≡ pos (if ltb t (burst * million) then t else burst * million)
  unfolding refill ◌+ℤ◌
  refill-later now b v h = ground (arith, elapsed b.ts now h)

  idle_enough : 0 < rps → burst * million ≤ idle_ms burst rps * 1000 * rps
  idle_enough hr = omega (arith, ceil_div-ge (burst * 1000) rps hr)

  -- An expired bucket would be full.
  pub refill-expired :
      (now : ℕ) (b : Bucket)
      → 0 < rps
      → IsValid b
      → b.expires ≤ now
      → refill burst rps now (some b) ≡ capacity burst rps
  refill-expired now b hr v h =
      let long : idle_ms burst rps * 1000 ≤ now - b.ts = omega (arith, v.kept) in
      rw (refill-later now b v (omega (arith, v.kept)))
        (ground (arith, idle_enough hr, mul_mono (idle_ms burst rps * 1000) (now - b.ts) rps long))

  -- What the script does with the tokens that the refill finds.
  pub record IsTaken (now tokens : ℕ) (r : Reply) (b : Bucket) : Type 0 where
    pub valid : IsValid b
    pub now_at : b.ts ≡ now
    pub spent : r.allowed * million + pos_part b.tokens ≡ tokens
    pub granted : (million ≤ tokens) ↔ (r.allowed ≡ 1)
    pub single : r.allowed ≤ 1
    pub wait : r.allowed ≡ 0 → r.retry_ms ≡ ceil_div (million - tokens) (rps * 1000)

  module _ (now tokens : ℕ) (held : Option Bucket)
      (e : refill burst rps now held ≡ pos tokens) where
    pub bucket_script-denies :
        tokens < million
        → bucket_script burst rps now held ≡ (
          record { allowed = 0; retry_ms = ceil_div (million - tokens) (rps * 1000) },
          left burst rps now (pos tokens),
        )
    unfolding bucket_script ◌-ℤ◌
    bucket_script-denies h = rw e (ground arith)

    pub bucket_script-grants :
        million ≤ tokens
        → bucket_script burst rps now held
          ≡ (record { allowed = 1; retry_ms = 0 }, left burst rps now (pos (tokens - million)))
    unfolding bucket_script ◌-ℤ◌
    bucket_script-grants h = rw e (ground arith)

    pub bucket_script-IsTaken :
        tokens ≤ burst * million
        → IsTaken now tokens
            (bucket_script burst rps now held).0
            (bucket_script burst rps now held).1
    bucket_script-IsTaken h = elim (Bool-cases (ltb tokens million)) [
      | inl few ↦ rw (bucket_script-denies (ground arith)) (ground arith)
      | inr enough ↦ rw (bucket_script-grants (ground arith)) (ground arith)
    ]

  same_refill :
      (now : ℕ) (h k : Option Bucket)
      → refill burst rps now h ≡ refill burst rps now k
      → bucket_script burst rps now h ≡ bucket_script burst rps now k
  unfolding bucket_script
  same_refill now h k e = rw e

  -- With a positive rate and a bucket as the script leaves it, that Redis drops the bucket at
  -- its expiry never changes what the script answers or leaves.
  pub bucket_script-expiry :
      (now : ℕ) (b : Bucket)
      → 0 < rps
      → IsValid b
      → bucket_script burst rps now (fetch now (some b)) ≡ bucket_script burst rps now (some b)
  bucket_script-expiry now b hr v = elim (Bool-cases (leb b.expires now)) [
    | inl gone ↦ rw gone (
        same_refill now none (some b)
          (unfold refill in sym (refill-expired now b hr v (ground arith))))
    | inr there ↦ rw there
  ]

  -- The tokens that a request finds.
  abbrev pub found : ℕ → Bucket → ℕ
  found now b =
      let t = pos_part b.tokens + (now - b.ts) * rps in
      if ltb t (burst * million) then t else burst * million

  pub request-IsTaken :
      (now : ℕ) (b : Bucket)
      → 0 < rps
      → IsValid b
      → b.ts ≤ now
      → let held = fetch now (some b) in
        IsTaken now
          (found now b)
          (bucket_script burst rps now held).0
          (bucket_script burst rps now held).1
  request-IsTaken now b hr v h =
      rw (bucket_script-expiry now b hr v)
        (bucket_script-IsTaken now (found now b) (some b) (refill-later now b v h) (ground arith))
