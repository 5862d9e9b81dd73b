-- ===== src/Analytics/Atomic.antt =====
-- One record: the click and its offset are written together or not at all.
use shortn.Prelude.{String, ◌≡◌, refl, Bool-cases, ◌∙◌, inl, inr, List, [], ◌∷◌}
use shortn.Error.{GoError}
use shortn.Act.{Result, ok, err, Result-cases}
use shortn.Events.{LinkClicked}
use shortn.Store.Analytics.{is_storable, accepted}
use shortn.Store.{no_text, Tables, Db, Trip, net_error, answered, lost, unanswered}
use shortn.Analytics.{Delivery, round_trip, talk, commit_on, commit, recorded, process}

-- COMMIT succeeds, or fails with or without its effect.
data Commits (t : Tables) (db : Db) (r : Result (Unit {0})) (db' : Db) : Type 0 where
  committed : r ≡ ok tt → db'.tables ≡ t → Commits t db r db'
  aborted : (x : GoError) → r ≡ err x → db'.tables ≡ db.tables → Commits t db r db'
  unheard : (x : GoError) → r ≡ err x → db'.tables ≡ t → Commits t db r db'

commit_on-Commits :
    (t : Tables) (trips : List Trip) (db : Db)
    → Commits t db (commit_on t trips db).0 (commit_on t trips db).1
unfolding commit_on
commit_on-Commits t [] db = committed refl refl
commit_on-Commits t (answered ∷ rest) db = committed refl refl
commit_on-Commits t (lost e ∷ rest) db = aborted (net_error e) refl refl
commit_on-Commits t (unanswered e ∷ rest) db = unheard (net_error e) refl refl

commit-Commits : (t : Tables) (db : Db) → Commits t db (commit t db).0 (commit t db).1
unfolding commit
commit-Commits t db = commit_on-Commits t db.trips db

module _ (decode : String → Result LinkClicked) (group topic : String) where
  -- How a record ends, and what it leaves in the tables.
  pub data Processed (rec : Delivery) (t : Tables) (r : Result (Unit {0})) (t' : Tables)
      : Type 0 where
    done :
        (e : LinkClicked)
        → decode rec.value ≡ ok e
        → r ≡ ok tt
        → t' ≡ recorded decode group topic rec e t
        → Processed rec t r t'
    undone : (x : GoError) → r ≡ err x → t' ≡ t → Processed rec t r t'
    unsure :
        (x : GoError) (e : LinkClicked)
        → decode rec.value ≡ ok e
        → r ≡ err x
        → t' ≡ recorded decode group topic rec e t
        → Processed rec t r t'

  Processed-of_Commits :
      (rec : Delivery) (e : LinkClicked) (t : Tables) (db : Db) {r : Result (Unit {0})} {db' : Db}
      → decode rec.value ≡ ok e
      → db.tables ≡ t
      → Commits (recorded decode group topic rec e t) db r db'
      → Processed rec t r db'.tables
  Processed-of_Commits rec e t db d same (committed p q) = done e d p q
  Processed-of_Commits rec e t db d same (aborted x p q) = undone x p (q ∙ same)
  Processed-of_Commits rec e t db d same (unheard x p q) = unsure x e d p q

  pub process-Processed :
      (rec : Delivery) (db : Db)
      → Processed rec db.tables
          (process decode group topic rec db).0
          (process decode group topic rec db).1.tables
  unfolding process accepted talk
  process-Processed rec db =
      let trips' = (round_trip db.trips).1 in
      let trips'' = (round_trip trips').1 in
      let last = (round_trip trips'').1 in
      elim (Result-cases (decode rec.value)) [
        | inr (x, d) ↦ rw d (undone x refl refl)
        | inl (e, d) ↦ elim (Result-cases (round_trip db.trips).0) [
          | inr (x, a) ↦ rw (d, a) (undone x refl refl)
          | inl (_, a) ↦ elim (Result-cases (round_trip trips').0) [
            | inr (x, b) ↦ rw (d, a, b) (undone x refl refl)
            | inl (_, b) ↦ elim (Bool-cases (is_storable e)) [
              | inr odd ↦ rw (d, a, b, odd) (undone no_text refl refl)
              | inl text ↦ elim (Result-cases (round_trip trips'').0) [
                | inr (x, c) ↦ rw (d, a, b, text, c) (undone x refl refl)
                | inl (_, c) ↦
                    rw (d, a, b, text, c)
                      (Processed-of_Commits rec e db.tables (record db { trips = last }) d refl
                        (commit-Commits (recorded decode group topic rec e db.tables)
                          (record db { trips = last })))
              ]
            ]
          ]
        ]
      ]
