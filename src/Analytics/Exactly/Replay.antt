-- ===== src/Analytics/Exactly/Replay.antt =====
-- Sessions that start before the committed offset: after a lookup that fails, the client's reset
-- policy takes a partition from the start of the log, and SaveOffset moves the offset back.
use shortn.Prelude.{
  ℕ, ◌+◌, ◌≤◌, String, ◌≡◌, refl, ◌∙◌, ◌⊎◌, inl, inr, some, Option, none, List, [], ◌∷◌, ◌==◌, All,
  arith, Option-cases, if◌then◌else◌,
}
use shortn.Act.{Result, ok, err, Result-cases}
use shortn.Events.{LinkClicked}
use shortn.Error.{GoError, message, sentinel, err_deadline_exceeded}
use shortn.Store.{Tables, Db, Trip, answered, lost, unanswered, statement, broken, timed_out}
use shortn.Store.Analytics.{
  find_offset, select_offset, offset_or_none, loaded, save_offset, load_offset,
}
use shortn.Analytics.{Delivery, Poll, recorded, process, process_all}
use shortn.Analytics.Atomic.{Processed, done, undone, unsure, process-Processed}
use shortn.Analytics.Assigned.{sought, start_of, on_assigned}
use shortn.Analytics.Exactly.{Log, IsUnique, HasAll, next, InSequence, all_records}
use shortn.Analytics.Exactly.Record.{
  next-recorded, HasAll-recorded, IsUnique-insert_click, All-insert_click,
}
use shortn.Analytics.Exactly.Sessions.{IsClean, consume-eq}
use shortn.Analytics.Session.{session}

module _ (decode : String → Result LinkClicked) (group topic : String) (log : Log) where
  -- A record of the log holds this event.
  pub record IsLogged (e : LinkClicked) : Type 0 where
    pub partition : ℕ
    pub offset : ℕ
    pub value : String
    pub logged : log partition offset ≡ some value
    pub decoded : decode value ≡ ok e

  -- No event below a committed offset is missing, every row is an event of the log, and no event id
  -- is there twice.
  pub record IsComplete (t : Tables) : Type 0 where
    pub complete : HasAll decode group topic log t
    pub genuine : All IsLogged t.click_events
    pub unique : IsUnique t.click_events

  -- No partition's position is past its committed offset.
  abbrev Behind : (ℕ → ℕ) → Tables → Type 0
  Behind at t = (q : ℕ) → at q ≤ next group topic t q

  recorded-IsComplete :
      (rec : Delivery) (e : LinkClicked) (t : Tables)
      → rec.offset ≤ next group topic t rec.partition
      → log rec.partition rec.offset ≡ some rec.value
      → decode rec.value ≡ ok e
      → IsComplete t
      → IsComplete (recorded decode group topic rec e t)
  unfolding save_offset
  recorded-IsComplete rec e t low logged decoded x = record {
    complete = HasAll-recorded decode group topic rec e t log low logged decoded x.complete;
    genuine =
        let new : IsLogged e = record {
          partition = rec.partition;
          offset = rec.offset;
          value = rec.value;
          logged = logged;
          decoded = decoded;
        } in
        All-insert_click IsLogged e t new x.genuine;
    unique = IsUnique-insert_click e t x.unique;
  }

  -- The tables after one delivered record, and the positions that are left.
  record IsNext (rec : Delivery) (at : ℕ → ℕ) (r : Result (Unit {0})) (t' : Tables) : Type 0 where
    whole : IsComplete t'
    behind : r ≡ ok tt → Behind (λ p. if rec.partition == p then rec.offset + 1 else at p) t'

  IsNext-of_Processed :
      (rec : Delivery) (at : ℕ → ℕ) (t : Tables) {r : Result (Unit {0})} {t' : Tables}
      → IsComplete t
      → Behind at t
      → rec.offset ≡ at rec.partition
      → log rec.partition rec.offset ≡ some rec.value
      → Processed decode group topic rec t r t'
      → IsNext rec at r t'
  IsNext-of_Processed rec at t x b due logged (done e d p q) =
      let low : rec.offset ≤ next group topic t rec.partition = omega (arith, b rec.partition) in
      rw q (record {
        whole = recorded-IsComplete rec e t low logged d x;
        behind = λ _. λ k. ground (arith, next-recorded decode group topic rec e t k, b k);
      })
  IsNext-of_Processed rec at t x b due logged (undone e p q) =
      rw q (record { whole = x; behind = λ h. cc })
  IsNext-of_Processed rec at t x b due logged (unsure y e d p q) =
      let low : rec.offset ≤ next group topic t rec.partition = omega (arith, b rec.partition) in
      rw q (record { whole = recorded-IsComplete rec e t low logged d x; behind = λ h. cc })

  process_all-IsComplete :
      (recs : List Delivery) (at : ℕ → ℕ) (db : Db)
      → IsComplete db.tables
      → Behind at db.tables
      → InSequence log at recs
      → IsComplete (process_all decode group topic recs db).1.tables
  unfolding process_all
  process_all-IsComplete [] at db x b s = x
  process_all-IsComplete (rec ∷ recs) at db x b (due, logged, rest) =
      let n =
        IsNext-of_Processed rec at db.tables x b due logged
          (process-Processed decode group topic rec db) in
      elim (Result-cases (process decode group topic rec db).0) [
        | inl (_, p) ↦ rw p (
            process_all-IsComplete recs _ (process decode group topic rec db).1 n.whole (n.behind p)
              rest)
        | inr (e, p) ↦ rw p n.whole
      ]

  -- A lookup answers the committed offset or an error, and leaves the tables.
  record IsLookedUp (p : ℕ) (db : Db) (found : Option ℕ) : Type 0 where
    answer :
        ((e : GoError) × ((load_offset group topic p db).0 ≡ err e))
        ⊎ ((load_offset group topic p db).0 ≡ ok found)
    same : (load_offset group topic p db).1.tables ≡ db.tables

  IsLookedUp-at :
      (p : ℕ) (db : Db) (trips : List Trip) (found : Option ℕ)
      → db.trips ≡ trips
      → find_offset group topic p db.tables.kafka_offsets ≡ found
      → IsLookedUp p db found
  unfolding load_offset statement select_offset offset_or_none loaded
  IsLookedUp-at p db [] none t f = record { answer = inr (rw (t, f) refl); same = rw (t, f) refl }
  IsLookedUp-at p db [] (some offset) t f = record {
    answer = inr (rw (t, f) refl);
    same = rw (t, f) refl;
  }
  IsLookedUp-at p db (answered ∷ rest) none t f = record {
    answer = inr (rw (t, f) refl);
    same = rw (t, f) refl;
  }
  IsLookedUp-at p db (answered ∷ rest) (some offset) t f = record {
    answer = inr (rw (t, f) refl);
    same = rw (t, f) refl;
  }
  IsLookedUp-at p db (lost (broken text) ∷ rest) found t f = record {
    answer = inl (message text, rw t refl);
    same = rw t refl;
  }
  IsLookedUp-at p db (lost timed_out ∷ rest) found t f = record {
    answer = inl (sentinel err_deadline_exceeded, rw t refl);
    same = rw t refl;
  }
  IsLookedUp-at p db (unanswered (broken text) ∷ rest) found t f = record {
    answer = inl (message text, rw t refl);
    same = rw t refl;
  }
  IsLookedUp-at p db (unanswered timed_out ∷ rest) found t f = record {
    answer = inl (sentinel err_deadline_exceeded, rw t refl);
    same = rw t refl;
  }

  -- Wherever lookups fail, no partition starts past its committed offset.
  start_of-on_assigned :
      (ps : List ℕ) (q : ℕ) (db : Db)
      → (start_of q (on_assigned group topic ps db).0 ≤ next group topic db.tables q)
        × ((on_assigned group topic ps db).1.tables ≡ db.tables)
  unfolding on_assigned sought
  start_of-on_assigned [] q db = (omega arith, refl)
  start_of-on_assigned (p ∷ ps) q db =
      let found = find_offset group topic p db.tables.kafka_offsets in
      let l = IsLookedUp-at p db db.trips found refl refl in
      let (low, same) = start_of-on_assigned ps q (load_offset group topic p db).1 in
      let low' = rw l.same at low in
      elim l.answer [
        | inl (e, failed) ↦ rw failed (low', same ∙ l.same)
        | inr read ↦ elim (Option-cases found) [
          | inl absent ↦ rw (read, absent) (low', same ∙ l.same)
          | inr (offset, known) ↦ rw (read, known) (ground (arith, known, low'), same ∙ l.same)
        ]
      ]

  -- A session leaves the tables complete, wherever it starts and ends.
  pub session-IsComplete :
      (ps : List ℕ) (polls : List (ℕ × ℕ) → List Poll) (db : Db)
      → IsComplete db.tables
      → All (IsClean decode group topic log) (polls (on_assigned group topic ps db).0)
      → InSequence log
          (λ q. start_of q (on_assigned group topic ps db).0)
          (all_records (polls (on_assigned group topic ps db).0))
      → IsComplete (session decode group topic ps polls db).1.tables
  unfolding session
  session-IsComplete ps polls db x clean ordered =
      let (offsets, db') = on_assigned group topic ps db in
      let same = (start_of-on_assigned ps 0 db).1 in
      rw (consume-eq decode group topic log (polls offsets) db' clean) (
        process_all-IsComplete (all_records (polls offsets)) _ db' (rw same x)
          (λ q. rw same ((start_of-on_assigned ps q db).0)) ordered)
