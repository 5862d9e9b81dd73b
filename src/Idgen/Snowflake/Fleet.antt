-- ===== src/Idgen/Snowflake/Fleet.antt =====
-- A fleet of API instances, each with a Snowflake generator of its own, and the codes that any
-- interleaving of their calls returns.
pub mod Step
pub mod Unique
use shortn.Prelude.{ℕ, ◌+◌, ◌^◌, String, List, [], ◌∷◌, ◌==◌, if◌then◌else◌, ◌≤◌, ◌≡◌}
use shortn.Prelude.Int.{ℤ, ◌+ℤ◌, ◌≤ℤ◌, ◌<ℤ◌, pos}
use shortn.Act.{Result, ok, err}
use shortn.Idgen.Snowflake.{Generator, epoch, max_worker_id, generate}
use shortn.Idgen.Snowflake.Layout.{IsValid}

-- One call of Generate: the instance that serves it, and the two readings of its clock.
pub record Call : Type 0 where
  pub worker : ℕ
  pub first : ℤ
  pub second : ℤ

-- The clock reads between the epoch and 41 bits later, and the sleep of a millisecond moves it on.
-- Between two calls the clock may go back.
pub record IsSane (c : Call) : Type 0 where
  pub known : c.worker ≤ max_worker_id
  pub after_epoch : epoch ≤ℤ c.first
  pub slept : c.first <ℤ c.second
  pub before_end : c.second <ℤ pos (954_028_800_000 + 2 ^ 41)

abbrev pub Fleet : Type 0
Fleet = ℕ → Generator

abbrev pub update : Fleet → ℕ → Generator → Fleet
update fleet i g j = if i == j then g else fleet j

-- Every instance has the worker id by which it is addressed.
abbrev pub IsFleet : Fleet → Type 0
IsFleet fleet = (i : ℕ) → i ≤ max_worker_id → IsValid (fleet i) × ((fleet i).worker_id ≡ i)

abbrev pub collect : Result String → List String → List String
collect (ok code) codes = code ∷ codes
collect (err e) codes = codes

module _ (encode : ℕ → Result String) where
  abbrev pub served : Call → Fleet → Result String
  served c fleet = (generate encode c.first c.second (fleet c.worker)).0

  abbrev pub after : Call → Fleet → Fleet
  after c fleet = update fleet c.worker (generate encode c.first c.second (fleet c.worker)).1

  -- The codes that the calls return, in order; a call that fails returns none.
  unfoldable pub codes : Fleet → List Call → List String
  codes fleet [] = []
  codes fleet (c ∷ cs) = collect (served c fleet) (codes (after c fleet) cs)
