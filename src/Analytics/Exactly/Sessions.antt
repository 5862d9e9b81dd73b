-- ===== src/Analytics/Exactly/Sessions.antt =====
-- A session of the consumer keeps the tables exact, wherever it ends.
use mathlib.Core.Path.{fun_ext}
use shortn.Prelude.{ℕ, String, true, ◌≡◌, refl, sym, inl, inr, List, [], ◌∷◌, ◌++◌, All, Bool-cases}
use shortn.Act.{Result, ok, ◌>>◌, Result-cases}
use shortn.Events.{LinkClicked}
use shortn.Store.{Tables, Db}
use shortn.Analytics.{Delivery, Poll, process, process_all, consume}
use shortn.Analytics.Atomic.{Processed, done, undone, unsure, process-Processed}
use shortn.Analytics.Exactly.{Log, next, IsExact, InSequence, all_records}
use shortn.Analytics.Exactly.Record.{next-recorded, recorded-IsExact}

InSequence-eq :
    (log : Log) (at at' : ℕ → ℕ) (rs : List Delivery)
    → ((p : ℕ) → at p ≡ at' p)
    → InSequence log at rs
    → InSequence log at' rs
InSequence-eq log at at' rs same h = rw (← fun_ext same) h

module _ (decode : String → Result LinkClicked) (group topic : String) (log : Log) where
  -- The tables after one delivered record, and where the next ones have to start.
  record IsNext (rec : Delivery) (recs : List Delivery) (r : Result (Unit {0})) (t' : Tables)
      : Type 0 where
    exact : IsExact decode group topic log t'
    follows : r ≡ ok tt → InSequence log (next group topic t') recs

  IsNext-of_Processed :
      (rec : Delivery) (recs : List Delivery) (t : Tables) {r : Result (Unit {0})} {t' : Tables}
      → IsExact decode group topic log t
      → InSequence log (next group topic t) (rec ∷ recs)
      → Processed decode group topic rec t r t'
      → IsNext rec recs r t'
  IsNext-of_Processed rec recs t x (due, logged, rest) (done e d p q) = rw q (record {
    exact = recorded-IsExact decode group topic log rec e t due logged d x;
    follows = λ _.
        InSequence-eq log _ _ recs (λ k. sym (next-recorded decode group topic rec e t k)) rest;
  })
  IsNext-of_Processed rec recs t x s (undone e p q) = rw q (record { exact = x; follows = λ h. cc })
  IsNext-of_Processed rec recs t x (due, logged, rest) (unsure y e d p q) = rw q (record {
    exact = recorded-IsExact decode group topic log rec e t due logged d x;
    follows = λ h. cc;
  })

  process_all-IsExact :
      (recs : List Delivery) (db : Db)
      → IsExact decode group topic log db.tables
      → InSequence log (next group topic db.tables) recs
      → IsExact decode group topic log (process_all decode group topic recs db).1.tables
  unfolding process_all
  process_all-IsExact [] db x s = x
  process_all-IsExact (rec ∷ recs) db x s =
      let n =
        IsNext-of_Processed rec recs db.tables x s (process-Processed decode group topic rec db) in
      elim (Result-cases (process decode group topic rec db).0) [
        | inl (_, p) ↦
            rw p
              (process_all-IsExact recs (process decode group topic rec db).1 n.exact (n.follows p))
        | inr (e, p) ↦ rw p n.exact
      ]

  process_all-append :
      (xs ys : List Delivery) (db : Db)
      → process_all decode group topic (xs ++ ys) db
        ≡ (process_all decode group topic xs >> process_all decode group topic ys) db
  unfolding process_all
  process_all-append [] ys db = refl
  process_all-append (x ∷ xs) ys db = elim (Result-cases (process decode group topic x db).0) [
    | inl (_, p) ↦ rw p (process_all-append xs ys (process decode group topic x db).1)
    | inr (e, p) ↦ rw p
  ]

  -- A fetch that reports an error brings no record.
  abbrev pub IsClean : Poll → Type 0
  IsClean p = p.failed ≡ true → p.records ≡ []

  pub consume-eq :
      (ps : List Poll) (db : Db)
      → All IsClean ps
      → consume decode group topic ps db ≡ process_all decode group topic (all_records ps) db
  unfolding consume
  consume-eq [] db c = unfold process_all in refl
  consume-eq (p ∷ ps) db (c, cs) = elim (Bool-cases p.failed) [
    | inl failed ↦ rw (failed, c failed) (consume-eq ps db cs)
    | inr fine ↦
        rw (fine, process_all-append p.records (all_records ps) db)
          (elim (Result-cases (process_all decode group topic p.records db).0) [
            | inl (_, q) ↦ rw q (consume-eq ps (process_all decode group topic p.records db).1 cs)
            | inr (e, q) ↦ rw q
          ])
  ]

  -- From exact tables, a session that starts at the committed offsets and is handed the log in
  -- order, with no record beside an error, leaves exact tables, however it ends.
  pub consume-IsExact :
      (ps : List Poll) (db : Db)
      → IsExact decode group topic log db.tables
      → All IsClean ps
      → InSequence log (next group topic db.tables) (all_records ps)
      → IsExact decode group topic log (consume decode group topic ps db).1.tables
  consume-IsExact ps db x c s =
      rw (consume-eq ps db c) (process_all-IsExact (all_records ps) db x s)
