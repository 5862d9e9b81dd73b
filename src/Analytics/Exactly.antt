-- ===== src/Analytics/Exactly.antt =====
-- Exactly-once processing: what the tables hold of the partitions' logs, and the sessions that the
-- Kafka client and the crashes of the process allow.
pub mod Record
pub mod Sessions
pub mod Skipped
pub mod Replay
use shortn.Prelude.{
  ℕ, ◌+◌, ◌<◌, ◌≤◌, String, Bool, true, false, ◌≡◌, Option, none, some, List, [], ◌∷◌, ◌++◌, ◌==◌,
  All, if◌then◌else◌,
}
use shortn.Act.{Result, ok}
use shortn.Events.{LinkClicked}
use shortn.Store.{Tables}
use shortn.Store.Analytics.{has_event, find_offset}
use shortn.Analytics.{Delivery, Poll}

-- The records of each partition: value at partition and offset.
abbrev pub Log : Type 0
Log = ℕ → ℕ → Option String

abbrev pub offset_or_start : Option ℕ → ℕ
offset_or_start none = 0
offset_or_start (some offset) = offset

-- No two rows have the same event id.
abbrev pub IsUnique : List LinkClicked → Type 0
IsUnique [] = Unit
IsUnique (e ∷ es) = (has_event e.event_id es ≡ false) × IsUnique es

-- Where a consumer of these names goes on reading a partition.
module _ (group topic : String) where
  abbrev pub next : Tables → ℕ → ℕ
  next t p = offset_or_start (find_offset group topic p t.kafka_offsets)

module _ (decode : String → Result LinkClicked) (group topic : String) (log : Log) where
  -- A record of the log below the committed offset of its partition.
  pub record IsConsumed (t : Tables) (e : LinkClicked) : Type 0 where
    pub partition : ℕ
    pub offset : ℕ
    pub value : String
    pub below : offset < next group topic t partition
    pub logged : log partition offset ≡ some value
    pub decoded : decode value ≡ ok e

  -- No event below a committed offset is missing.
  abbrev pub HasAll : Tables → Type 0
  HasAll t =
      (p i : ℕ) (value : String) (e : LinkClicked)
      → i < next group topic t p
      → log p i ≡ some value
      → decode value ≡ ok e
      → has_event e.event_id t.click_events ≡ true

  -- The click events are those of the records below the committed offsets, each event id once.
  pub record IsExact (t : Tables) : Type 0 where
    pub complete : HasAll t
    pub genuine : All (IsConsumed t) t.click_events
    pub unique : IsUnique t.click_events

-- Records that the client hands out: each is the one at its partition's position in the log, and
-- moves that position on by one.
abbrev pub InSequence : Log → (ℕ → ℕ) → List Delivery → Type 0
InSequence log at [] = Unit
InSequence log at (r ∷ rs) =
    (r.offset ≡ at r.partition)
    × (log r.partition r.offset ≡ some r.value)
    × InSequence log (λ p. if r.partition == p then r.offset + 1 else at p) rs

abbrev pub all_records : List Poll → List Delivery
all_records [] = []
all_records (p ∷ ps) = p.records ++ all_records ps
