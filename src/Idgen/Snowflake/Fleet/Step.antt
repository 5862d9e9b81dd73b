-- ===== src/Idgen/Snowflake/Fleet/Step.antt =====
-- One call of Generate: it keeps the generator valid, and a code that it returns encodes an
-- identifier above every earlier one of the same generator.
use shortn.Prelude.{
  ℕ, ◌+◌, ◌^◌, ◌<◌, ◌≤◌, String, ◌≡◌, refl, false, true, arith, Bool-cases, inl, inr,
}
use shortn.Prelude.Int.{ℤ, pos, ◌-ℤ◌, int_laws, ◌≤ℤ◌, ◌<ℤ◌, ltb_ℤ}
use shortn.Error.{sentinel, err_clock_regressed}
use shortn.Act.{Result, ok, err}
use shortn.Idgen.Snowflake.{Generator, epoch, advance, pack, emit, generate}
use shortn.Idgen.Snowflake.Layout.{IsValid, layout, pack-eq-layout}

-- The readings of a call, counted from the epoch.
pub record InWindow (now later : ℤ) : Type 0 where
  pub since : pos 0 ≤ℤ now
  pub grows : now <ℤ later
  pub until : later <ℤ pos (2 ^ 41)

module _ (now second : ℤ) (g : Generator) (v : IsValid g) (w : InWindow now (second -ℤ epoch))
    (ahead : g.last_ms ≤ℤ now) where
  advance-IsValid : IsValid (advance now second g)
  unfolding advance
  advance-IsValid = ground arith

  layout-lt-advance : layout g < layout (advance now second g)
  unfolding advance
  layout-lt-advance = ground arith

  worker_id-advance : (advance now second g).worker_id ≡ g.worker_id
  unfolding advance
  worker_id-advance = ground arith

pub sane_window :
    (first second : ℤ)
    → epoch ≤ℤ first
    → first <ℤ second
    → second <ℤ pos (954_028_800_000 + 2 ^ 41)
    → InWindow (first -ℤ epoch) (second -ℤ epoch)
sane_window first second a b c = record {
  since = omega int_laws;
  grows = omega int_laws;
  until = omega int_laws;
}

-- What a call leaves behind: a valid generator of the same instance, and, if it returned a code,
-- the encoding of an identifier above the last one.
pub record Stepped (encode : ℕ → Result String) (g : Generator) (r : Result String) (g' : Generator)
    : Type 0 where
  pub valid : IsValid g'
  pub worker : g'.worker_id ≡ g.worker_id
  pub grows : layout g ≤ layout g'
  pub issued :
      (code : String) → r ≡ ok code → (layout g < layout g') × (encode (layout g') ≡ ok code)

module _ (encode : ℕ → Result String) where
  emit-eq-ok : (id : ℕ) (code : String) → emit encode id ≡ ok code → encode id ≡ ok code
  unfolding emit
  emit-eq-ok id code h = ground arith

  generate_back :
      (first second : ℤ) (g : Generator)
      → ltb_ℤ (first -ℤ epoch) g.last_ms ≡ true
      → generate encode first second g ≡ (err (sentinel err_clock_regressed), g)
  unfolding generate
  generate_back first second g h = rw h

  pub generate_ahead :
      (first second : ℤ) (g : Generator)
      → ltb_ℤ (first -ℤ epoch) g.last_ms ≡ false
      → let g' = advance (first -ℤ epoch) second g in
        generate encode first second g ≡ (emit encode (pack g'), g')
  unfolding generate
  generate_ahead first second g h = rw h

  Stepped-advance :
      (now second : ℤ) (g : Generator)
      → IsValid g
      → InWindow now (second -ℤ epoch)
      → g.last_ms ≤ℤ now
      → let g' = advance now second g in Stepped encode g (emit encode (pack g')) g'
  Stepped-advance now second g v w ahead =
      let valid = advance-IsValid now second g v w ahead in
      let more = layout-lt-advance now second g v w ahead in
      record {
        valid = valid;
        worker = worker_id-advance now second g v w ahead;
        grows = omega arith;
        issued = λ code e. (
          more,
          rw (pack-eq-layout _ valid) at (emit-eq-ok (pack (advance now second g)) code e),
        );
      }

  -- On every branch of a call whose clock stays in its window, the generator stays within its
  -- bounds and keeps its worker id, and a code that is issued encodes an identifier later than
  -- all before it.
  pub generate-Stepped :
      (first second : ℤ) (g : Generator)
      → IsValid g
      → InWindow (first -ℤ epoch) (second -ℤ epoch)
      → Stepped encode g (generate encode first second g).0 (generate encode first second g).1
  generate-Stepped first second g v w = elim (Bool-cases (ltb_ℤ (first -ℤ epoch) g.last_ms)) [
    | inl back ↦
        rw (generate_back first second g back)
          (record { valid = v; worker = refl; grows = omega arith; issued = λ code e. cc })
    | inr ahead ↦
        rw (generate_ahead first second g ahead)
          (Stepped-advance (first -ℤ epoch) second g v w (ground arith))
  ]
