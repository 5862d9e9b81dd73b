-- ===== src/Analytics/Exactly/Record.antt =====
-- Recording the next record of a partition keeps the tables exact.
use shortn.Prelude.{
  ℕ, ◌+◌, ◌≤◌, String, true, ◌≡◌, refl, ap, ◌∙◌, some, List, [], ◌∷◌, ◌==◌, str_eq, eq_iff, All,
  All-mono, arith, Bool-cases, inl, inr, if◌then◌else◌,
}
use shortn.Act.{Result, ok}
use shortn.Events.{LinkClicked}
use shortn.Store.{Tables, OffsetRow}
use shortn.Store.Analytics.{has_event, find_offset, upsert, insert_click, save_offset}
use shortn.Analytics.{Delivery, recorded}
use shortn.Analytics.Exactly.{Log, IsUnique, next, IsConsumed, HasAll, IsExact}

find_offset-upsert :
    (group topic : String) (p q o : ℕ) (rows : List OffsetRow)
    → find_offset group topic q (upsert group topic p o rows)
      ≡ (if p == q then some o else find_offset group topic q rows)
find_offset-upsert group topic p q o [] = ground (arith, eq_iff group group, eq_iff topic topic)
find_offset-upsert group topic p q o (row ∷ rows) = ground (
  arith,
  eq_iff row.group group,
  eq_iff row.topic topic,
  eq_iff group group,
  eq_iff topic topic,
  find_offset-upsert group topic p q o rows,
)

module _ (group topic : String) where
  pub next-save_offset :
      (t : Tables) (p q o : ℕ)
      → next group topic (save_offset group topic p o t) q
        ≡ (if p == q then o else next group topic t q)
  unfolding save_offset
  next-save_offset t p q o = ground (arith, find_offset-upsert group topic p q o t.kafka_offsets)

  pub next-insert_click :
      (t : Tables) (e : LinkClicked) (q : ℕ)
      → next group topic (insert_click e t) q ≡ next group topic t q
  unfolding insert_click
  next-insert_click t e q = ground arith

pub clicks-save_offset :
    (group topic : String) (p o : ℕ) (t : Tables)
    → (save_offset group topic p o t).click_events ≡ t.click_events
unfolding save_offset
clicks-save_offset group topic p o t = refl

pub has_event-insert_click :
    (e : LinkClicked) (t : Tables) (id : String)
    → has_event id (insert_click e t).click_events
      ≡ (if str_eq e.event_id id then true else has_event id t.click_events)
unfolding insert_click
has_event-insert_click e t id = ground (arith, eq_iff e.event_id id)

pub IsUnique-insert_click :
    (e : LinkClicked) (t : Tables)
    → IsUnique t.click_events
    → IsUnique (insert_click e t).click_events
unfolding insert_click
IsUnique-insert_click e t u = elim (Bool-cases (has_event e.event_id t.click_events)) [
  | inl old ↦ rw old u
  | inr new ↦ rw new (new, u)
]

pub All-insert_click :
    (P : LinkClicked → Type 0) (e : LinkClicked) (t : Tables)
    → P e
    → All P t.click_events
    → All P (insert_click e t).click_events
unfolding insert_click
All-insert_click P e t h a = elim (Bool-cases (has_event e.event_id t.click_events)) [
  | inl old ↦ rw old a
  | inr new ↦ rw new (h, a)
]

module _ (decode : String → Result LinkClicked) (group topic : String) (rec : Delivery)
    (e : LinkClicked) (t : Tables) where
  abbrev t' : Tables
  t' = recorded decode group topic rec e t

  pub next-recorded :
      (q : ℕ)
      → next group topic t' q
        ≡ (if rec.partition == q then rec.offset + 1 else next group topic t q)
  next-recorded q = ground (
    arith,
    next-save_offset group topic (insert_click e t) rec.partition q (rec.offset + 1),
    next-insert_click group topic t e q,
  )

  has_event-recorded :
      (id : String)
      → has_event id t'.click_events
        ≡ (if str_eq e.event_id id then true else has_event id t.click_events)
  has_event-recorded id =
      ap (has_event id)
        (clicks-save_offset group topic rec.partition (rec.offset + 1) (insert_click e t))
      ∙ has_event-insert_click e t id

  -- A record of the log at or below the committed offset.
  pub HasAll-recorded :
      (log : Log)
      → rec.offset ≤ next group topic t rec.partition
      → log rec.partition rec.offset ≡ some rec.value
      → decode rec.value ≡ ok e
      → HasAll decode group topic log t
      → HasAll decode group topic log t'
  HasAll-recorded log low logged decoded x p i value f below here decodes =
      elim (Bool-cases (rec.partition == p)) [
        | inl same ↦ elim (Bool-cases (i == rec.offset)) [
          | inl last ↦ ground (arith, has_event-recorded f.event_id, eq_iff e.event_id f.event_id)
          | inr older ↦
              ground (arith, next-recorded p, has_event-recorded f.event_id, x p i value f)
        ]
        | inr other ↦ ground (arith, next-recorded p, has_event-recorded f.event_id, x p i value f)
      ]

module _ (decode : String → Result LinkClicked) (group topic : String) (log : Log) (rec : Delivery)
    (e : LinkClicked) (t : Tables) (due : rec.offset ≡ next group topic t rec.partition)
    (logged : log rec.partition rec.offset ≡ some rec.value)
    (decoded : decode rec.value ≡ ok e) where
  abbrev later : Tables
  later = recorded decode group topic rec e t

  next_grows : (q : ℕ) → next group topic t q ≤ next group topic later q
  next_grows q = ground (arith, next-recorded decode group topic rec e t q)

  IsConsumed-later :
      (x : LinkClicked)
      → IsConsumed decode group topic log t x
      → IsConsumed decode group topic log later x
  IsConsumed-later x c = record {
    partition = c.partition;
    offset = c.offset;
    value = c.value;
    below = omega (arith, next_grows c.partition, c.below);
    logged = c.logged;
    decoded = c.decoded;
  }

  IsConsumed-new : IsConsumed decode group topic log later e
  IsConsumed-new = record {
    partition = rec.partition;
    offset = rec.offset;
    value = rec.value;
    below = ground (arith, next-recorded decode group topic rec e t rec.partition);
    logged = logged;
    decoded = decoded;
  }

  pub recorded-IsExact : IsExact decode group topic log t → IsExact decode group topic log later
  unfolding save_offset
  recorded-IsExact x = record {
    complete =
        HasAll-recorded decode group topic rec e t log (omega arith) logged decoded x.complete;
    genuine =
        All-insert_click (IsConsumed decode group topic log later) e t IsConsumed-new
          (All-mono t.click_events IsConsumed-later x.genuine);
    unique = IsUnique-insert_click e t x.unique;
  }
