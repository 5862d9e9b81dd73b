-- ===== src/Idgen/Snowflake.antt =====
-- internal/idgen/snowflake.go: the Snowflake generator. Calls are serialised by the mutex, so a
-- call is one step on the state. `first` is the clock's reading (time.Now().UnixMilli()) at the
-- start of a call, `second` the reading after time.Sleep, which is used only when the sequence of
-- a millisecond is exhausted. The sqids encoder is the parameter `encode`.
pub mod Layout
pub mod Fleet
pub mod Stall
mod Tests
use Prim.Native.Nat.{bit_or}
use shortn.Prelude.{ℕ, ◌+◌, ◌-◌, ◌*◌, ◌%◌, ◌^◌, String, ltb, if◌then◌else◌}
use shortn.Prelude.Int.{ℤ, pos, ◌-ℤ◌, ltb_ℤ, eqb_ℤ, uint64}
use shortn.Error.{sentinel, err_clock_regressed, message, errorf}
use shortn.Act.{Result, ok, err}

abbrev pub epoch : ℤ
epoch = pos 954_028_800_000

abbrev pub worker_bits : ℕ
worker_bits = 10

abbrev pub sequence_bits : ℕ
sequence_bits = 12

abbrev pub max_worker_id : ℕ
max_worker_id = 2 ^ worker_bits - 1

abbrev pub max_sequence : ℕ
max_sequence = 2 ^ sequence_bits - 1

-- SnowflakeGenerator without the mutex and the encoder. `sequence` and `worker_id` are uint16.
pub record Generator : Type 0 where
  pub worker_id : ℕ
  pub sequence : ℕ
  pub last_ms : ℤ

-- NewSnowflakeGenerator
unfoldable pub new_generator : ℕ → Result Generator
new_generator worker_id =
    if ltb max_worker_id worker_id
    then err (message "workerID must be in range [0, 1023]")
    else ok (record { worker_id = worker_id; sequence = 0; last_ms = pos 0 })

-- The branch on the clock: the new sequence and the new time stamp.
unfoldable pub advance : ℤ → ℤ → Generator → Generator
advance now second g =
    let next = (g.sequence + 1) % 2 ^ 16 in
    if eqb_ℤ now g.last_ms
    then if ltb max_sequence next
      then record g { sequence = 0; last_ms = second -ℤ epoch }
      else record g { sequence = next }
    else record g { sequence = 0; last_ms = now }

-- [ timestamp ][ worker id: 10 bits ][ sequence: 12 bits ]. In every branch above the time stamp
-- that is packed (`now`) is the one that was stored in `last_ms`.
unfoldable pub pack : Generator → ℕ
pack g =
    bit_or
      (bit_or (uint64 g.last_ms * 2 ^ (worker_bits + sequence_bits) % 2 ^ 64)
        (g.worker_id * 2 ^ sequence_bits % 2 ^ 64))
      g.sequence

module _ (encode : ℕ → Result String) where
  -- g.sq.Encode, and the wrapping of its error
  pub emit : ℕ → Result String
  emit id = elim (encode id) [ ok code ↦ ok code | err e ↦ err (errorf "encode id" e) ]

  unfoldable pub generate : ℤ → ℤ → Generator → Result String × Generator
  unfolding emit
  generate first second g =
      let now = first -ℤ epoch in
      let g' = advance now second g in
      if ltb_ℤ now g.last_ms then (err (sentinel err_clock_regressed), g) else (emit (pack g'), g')
