-- ===== src/Idgen/Snowflake/Stall.antt =====
-- Generate when a millisecond's sequence is exhausted and the clock, read again after the sleep,
-- has not moved on. That second reading is not compared with `last_ms`.
use shortn.Prelude.{ℕ, zero, suc, ◌≤◌, String, ◌≡◌, ap, arith}
use shortn.Prelude.Int.{ℤ, ◌-ℤ◌, ◌<ℤ◌}
use shortn.Act.{Result}
use shortn.Idgen.Snowflake.{Generator, epoch, max_sequence, advance, pack, emit, generate}

module _ (encode : ℕ → Result String) where
  -- The generator after a number of calls that all read `t`.
  unfoldable pub after_calls : ℕ → ℤ → Generator → Generator
  after_calls zero t g = g
  after_calls (suc n) t g = (generate encode t t (after_calls n t g)).1

  abbrev at_sequence : ℕ → ℤ → Generator → Generator
  at_sequence k t g = record g { sequence = k; last_ms = t -ℤ epoch }

  generate_new :
      (t u : ℤ) (g : Generator)
      → g.last_ms <ℤ t -ℤ epoch
      → generate encode t u g ≡ (emit encode (pack (at_sequence 0 t g)), at_sequence 0 t g)
  unfolding generate advance
  generate_new t u g h = ground arith

  generate_next :
      (k : ℕ) (t : ℤ) (g : Generator)
      → suc k ≤ max_sequence
      → (generate encode t t (at_sequence k t g)).1 ≡ at_sequence (suc k) t g
  unfolding generate advance
  generate_next k t g h = ground arith

  generate_exhausted :
      (t u : ℤ) (g : Generator)
      → (generate encode t u (at_sequence max_sequence t g)).0
        ≡ emit encode (pack (at_sequence 0 u g))
  unfolding generate advance
  generate_exhausted t u g = ground arith

  after_calls-eq :
      (k : ℕ) (t : ℤ) (g : Generator)
      → g.last_ms <ℤ t -ℤ epoch
      → k ≤ max_sequence
      → after_calls (suc k) t g ≡ at_sequence k t g
  unfolding after_calls
  after_calls-eq zero t g h le = ap (λ (p : Result String × Generator). p.1) (generate_new t t g h)
  after_calls-eq (suc k) t g h le =
      rw (after_calls-eq k t g h (omega arith), after_calls) (generate_next k t g le)

  -- A generator that served 4096 calls in a new millisecond, and whose clock still reads that
  -- millisecond after the sleep of the next call, returns the result of the first of these calls
  -- again.
  pub generate-stalled_clock :
      (t : ℤ) (g : Generator)
      → g.last_ms <ℤ t -ℤ epoch
      → (generate encode t t (after_calls (suc max_sequence) t g)).0 ≡ (generate encode t t g).0
  generate-stalled_clock t g h =
      rw (after_calls-eq max_sequence t g h (omega arith), generate_new t t g h)
        (generate_exhausted t t g)
