-- ===== src/Idgen/Snowflake/Tests.antt =====
-- The generator at concrete readings of the clock.
use mathlib.Core.List.{Nodup}
use shortn.Prelude.{
  ℕ, ◌+◌, ◌*◌, ◌/◌, ◌%◌, ◌^◌, ◌<◌, String, ◌≡◌, ◌≢◌, eq_iff, refl, List, [], ◌∷◌, ◌==◌,
  if◌then◌else◌, arith,
}
use shortn.Prelude.Int.{ℤ, pos, ◌-ℤ◌}
use shortn.Error.{sentinel, err_clock_regressed, message}
use shortn.Act.{Result, ok, err}
use shortn.Idgen.Snowflake.{Generator, new_generator, advance, pack, generate}
use shortn.Idgen.Snowflake.Layout.{pack-fields}
use shortn.Idgen.Snowflake.Fleet.{Call, codes}
use shortn.Idgen.Snowflake.Fleet.Step.{Stepped, generate-Stepped}
use shortn.Idgen.Snowflake.Fleet.Unique.{IsEncoding, codes-Nodup}
use shortn.Idgen.Snowflake.Stall.{after_calls, generate-stalled_clock}

-- An encoder that knows three identifiers: of worker 3 in milliseconds 5 (twice) and 6.
abbrev encode_some : ℕ → Result String
encode_some id =
    if id == 5 * 2 ^ 22 + 3 * 2 ^ 12
    then ok "a"
    else if id == 5 * 2 ^ 22 + 3 * 2 ^ 12 + 1
    then ok "b"
    else if id == 6 * 2 ^ 22 + 3 * 2 ^ 12
    then ok "c"
    else err (message "unknown")

abbrev idle : ℕ → Generator
idle i = record { worker_id = i; sequence = 0; last_ms = pos 0 }

abbrev at : ℕ → Call
at ms = record {
  worker = 3;
  first = pos (954_028_800_000 + ms);
  second = pos (954_028_800_001 + ms);
}

-- The third call finds that the clock went back.
abbrev three_calls : List Call
three_calls = at 5 ∷ at 5 ∷ at 4 ∷ at 6 ∷ []

codes_test : codes encode_some idle three_calls ≡ "a" ∷ "b" ∷ "c" ∷ []
unfolding codes generate advance pack ◌-ℤ◌
codes_test = refl

regressed_test :
    generate encode_some (pos 954_028_800_001) (pos 0) (record (idle 3) { last_ms = pos 2 })
    ≡ (err (sentinel err_clock_regressed), record (idle 3) { last_ms = pos 2 })
unfolding generate advance pack ◌-ℤ◌
regressed_test = refl

new_generator_test :
    (new_generator 1023 ≡ ok (idle 1023))
    × (new_generator 1024 ≡ err (message "workerID must be in range [0, 1023]"))
unfolding new_generator
new_generator_test = (refl, refl)

a_ne_b : ◌≢◌ {A = String} "a" "b"
a_ne_b = ground (arith, eq_iff "a" "b")

a_ne_c : ◌≢◌ {A = String} "a" "c"
a_ne_c = ground (arith, eq_iff "a" "c")

b_ne_c : ◌≢◌ {A = String} "b" "c"
b_ne_c = ground (arith, eq_iff "b" "c")

encode_some-IsEncoding : IsEncoding encode_some
encode_some-IsEncoding a b code ha hb p q = ground (arith, a_ne_b, a_ne_c, b_ne_c)

codes-Nodup_example : Nodup (codes encode_some idle three_calls)
codes-Nodup_example =
    codes-Nodup encode_some idle three_calls encode_some-IsEncoding (λ i h. (omega arith, refl))
      (omega arith)

pack-fields_example :
    let g : Generator = record { worker_id = 3; sequence = 7; last_ms = pos 5 } in
    (pack g < 2 ^ 63)
    × (pack g / 2 ^ 22 ≡ 5)
    × (pack g / 2 ^ 12 % 2 ^ 10 ≡ 3)
    × (pack g % 2 ^ 12 ≡ 7)
pack-fields_example =
    pack-fields (record { worker_id = 3; sequence = 7; last_ms = pos 5 }) (omega arith)

abbrev five : ℤ
five = pos 954_028_800_005

generate-Stepped_example :
    Stepped encode_some
      (idle 3)
      (generate encode_some five (pos 954_028_800_006) (idle 3)).0
      (generate encode_some five (pos 954_028_800_006) (idle 3)).1
generate-Stepped_example =
    generate-Stepped encode_some five (pos 954_028_800_006) (idle 3) (omega arith)
      (unfold ◌-ℤ◌ in omega arith)

generate-stalled_clock_example :
    (generate encode_some five five (after_calls encode_some 4096 five (idle 3))).0
    ≡ (generate encode_some five five (idle 3)).0
generate-stalled_clock_example =
    generate-stalled_clock encode_some five (idle 3) (unfold ◌-ℤ◌ in omega arith)
