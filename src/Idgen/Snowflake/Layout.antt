-- ===== src/Idgen/Snowflake/Layout.antt =====
-- The packed identifier as three fields: its value, its bounds, and that it
-- determines each field.
use Prim.Native.Nat.{bit_or}
use shortn.Prelude.{ℕ, ◌+◌, ◌*◌, ◌/◌, ◌%◌, ◌^◌, ◌≤◌, ◌<◌, ◌≡◌, arith}
use shortn.Prelude.Int.{ℤ, pos, pos_part, ◌≤ℤ◌, ◌<ℤ◌, uint64}
use shortn.Prelude.Bits.{bit_or_disjoint}
use shortn.Idgen.Snowflake.{Generator, max_worker_id, max_sequence, pack}

-- What every generator that NewSnowflakeGenerator returned satisfies after any calls, while its
-- clock is between 2000-03-26 and 41 bits of milliseconds later.
pub record IsValid (g : Generator) : Type 0 where
  pub worker : g.worker_id ≤ max_worker_id
  pub sequence : g.sequence ≤ max_sequence
  pub since : pos 0 ≤ℤ g.last_ms
  pub until : g.last_ms <ℤ pos (2 ^ 41)

abbrev pub layout : Generator → ℕ
layout g = pos_part g.last_ms * 2 ^ 22 + g.worker_id * 2 ^ 12 + g.sequence

uint64_small : (t : ℤ) → pos 0 ≤ℤ t → t <ℤ pos (2 ^ 41) → uint64 t ≡ pos_part t
uint64_small t h k = ground arith

part_small : (t : ℤ) → pos 0 ≤ℤ t → t <ℤ pos (2 ^ 41) → pos_part t < 2 ^ 41
part_small t h k = ground arith

high_small : (t : ℕ) → t < 2 ^ 41 → t * 2 ^ 22 % 2 ^ 64 ≡ t * 2 ^ 22
high_small t h = omega arith

worker_small : (w : ℕ) → w ≤ 1023 → w * 2 ^ 12 % 2 ^ 64 ≡ w * 2 ^ 12
worker_small w h = omega arith

or_fields :
    (t w s : ℕ)
    → w ≤ 1023
    → s ≤ 4095
    → bit_or (bit_or (t * 2 ^ 22) (w * 2 ^ 12)) s ≡ t * 2 ^ 22 + w * 2 ^ 12 + s
or_fields t w s hw hs =
    let regroup : t * 2 ^ 22 + w * 2 ^ 12 ≡ (t * 2 ^ 10 + w) * 2 ^ 12 = omega arith in
    rw (bit_or_disjoint 22 t (w * 2 ^ 12) (omega arith), regroup)
      (bit_or_disjoint 12 (t * 2 ^ 10 + w) s (omega arith))

-- The fields do not overlap and nothing is shifted out: the packed id is the sum of the fields.
pub pack-eq-layout : (g : Generator) → IsValid g → pack g ≡ layout g
unfolding pack
pack-eq-layout g v =
    rw
      (
        uint64_small g.last_ms v.since v.until,
        high_small (pos_part g.last_ms) (part_small g.last_ms v.since v.until),
        worker_small g.worker_id v.worker,
      )
      (or_fields (pos_part g.last_ms) g.worker_id g.sequence v.worker v.sequence)

pub pack-lt : (g : Generator) → IsValid g → pack g < 2 ^ 63
pack-lt g v = rw (pack-eq-layout g v) (omega (arith, part_small g.last_ms v.since v.until))

-- From a generator within its bounds, an identifier fits in 63 bits, and its time stamp, worker
-- id and sequence can be read back from it.
pub pack-fields :
    (g : Generator)
    → IsValid g
    → (pack g < 2 ^ 63)
      × (pack g / 2 ^ 22 ≡ pos_part g.last_ms)
      × (pack g / 2 ^ 12 % 2 ^ 10 ≡ g.worker_id)
      × (pack g % 2 ^ 12 ≡ g.sequence)
pack-fields g v =
    rw (pack-eq-layout g v)
      (omega (arith, part_small g.last_ms v.since v.until), omega arith, omega arith, omega arith)

-- The worker's field of an identifier.
abbrev pub worker_of : ℕ → ℕ
worker_of id = id / 2 ^ 12 % 2 ^ 10

pub worker_of-layout : (g : Generator) → IsValid g → worker_of (layout g) ≡ g.worker_id
worker_of-layout g v = omega arith
