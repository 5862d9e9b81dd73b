-- ===== src/Analytics/Exactly/Skipped.antt =====
-- A poll that holds records beside an error: the loop skips its records, and the next poll moves
-- the committed offset past them.
use shortn.Prelude.{
  ℕ, ◌+◌, ◌<◌, String, true, false, ◌≡◌, ◌≢◌, refl, ap, ◌∙◌, some, List, [], ◌∷◌, arith, eq_iff,
}
use shortn.Act.{Result, ok}
use shortn.Events.{LinkClicked}
use shortn.Store.{Tables, Db}
use shortn.Store.Analytics.{has_event, is_storable, accepted, insert_click}
use shortn.Analytics.{Delivery, Poll, recorded, commit, talk, process, process_all, consume}
use shortn.Analytics.Exactly.{Log, next, IsExact}
use shortn.Analytics.Exactly.Record.{next-save_offset, has_event-insert_click, clicks-save_offset}

module _ (decode : String → Result LinkClicked) (group topic : String) where
  process_answered :
      (rec : Delivery) (e : LinkClicked) (db : Db)
      → db.trips ≡ []
      → decode rec.value ≡ ok e
      → is_storable e ≡ true
      → process decode group topic rec db
        ≡ (ok tt, record db { tables = recorded decode group topic rec e db.tables })
  unfolding process accepted commit talk
  process_answered rec e db quiet d text = rw (d, quiet, text)

  abbrev at : ℕ → ℕ → String → Delivery
  at p o v = record { partition = p; offset = o; value = v }

  past :
      (p o : ℕ) (v : String) (e : LinkClicked) (t : Tables)
      → o < next group topic (recorded decode group topic (at p (o + 1) v) e t) p
  past p o v e t = ground (arith, next-save_offset group topic (insert_click e t) p p (o + 1 + 1))

  still_missing :
      (rec : Delivery) (e : LinkClicked) (id : String) (t : Tables)
      → has_event id t.click_events ≡ false
      → e.event_id ≢ id
      → has_event id (recorded decode group topic rec e t).click_events ≡ false
  still_missing rec e id t unseen other =
      ap (has_event id)
        (clicks-save_offset group topic rec.partition (rec.offset + 1) (insert_click e t))
      ∙ ground (arith, has_event-insert_click e t id, eq_iff e.event_id id)

  -- Two polls: one that fails with a record beside the error, and one with the record after it.
  abbrev pub skipping : ℕ → ℕ → String → String → List Poll
  skipping p o v v' =
      record { failed = true; records = at p o v ∷ [] }
      ∷ record { failed = false; records = at p (o + 1) v' ∷ [] }
      ∷ []

  -- While the server answers, a poll that holds a new click beside an error, and a poll with the
  -- record after it, whose click has no NUL, make a session that succeeds: the committed offset
  -- is past the skipped click, and the tables are not exact.
  pub consume-skipping :
      (log : Log) (db : Db) (p o : ℕ) (v v' : String) (e e' : LinkClicked)
      → db.trips ≡ []
      → log p o ≡ some v
      → decode v ≡ ok e
      → decode v' ≡ ok e'
      → is_storable e' ≡ true
      → has_event e.event_id db.tables.click_events ≡ false
      → e'.event_id ≢ e.event_id
      → let (r, db') = consume decode group topic (skipping p o v v') db in
        (r ≡ ok tt)
        × (o < next group topic db'.tables p)
        × ¬ IsExact decode group topic log db'.tables
  unfolding consume process_all
  consume-skipping log db p o v v' e e' quiet logged d d' text unseen other =
      let step = process_answered (at p (o + 1) v') e' db quiet d' text in
      rw step (
        refl,
        past p o v' e' db.tables,
        λ x.
            let there = x.complete p o v e (past p o v' e' db.tables) logged d in
            let absent = still_missing (at p (o + 1) v') e' e.event_id db.tables unseen other in cc,
      )
