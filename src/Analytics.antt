-- ===== src/Analytics.antt =====
-- cmd/analytics/main.go: the consumer of click events. `decode` is json.Unmarshal into the event;
-- `group` and `topic` are the configured names. A session lasts from one start of the process to
-- its end: an error of `consume` is the exit after a record that failed, and a session may also
-- end between two polls, or be cut off.
pub mod Atomic
pub mod Assigned
pub mod Exactly
pub mod Session
pub mod Main
pub mod Tests
use shortn.Prelude.{ℕ, ◌+◌, String, Bool, List, [], ◌∷◌, if◌then◌else◌, Option, none, some}
use shortn.Error.{GoError}
use shortn.Act.{Result, ok, err, Act, pure, lift, ◌>>=◌, ◌>>◌}
use shortn.Events.{LinkClicked}
use shortn.Store.{Tables, Db, Trip, net_error, answered, lost, unanswered}
use shortn.Store.Analytics.{accepted, insert_click, save_offset}

-- The fields of kgo.Record that the consumer reads; the topic is the one it subscribes to.
pub record Delivery : Type 0 where
  pub partition : ℕ
  pub offset : ℕ
  pub value : String

-- The result of PollFetches: whether it holds errors, and its records in the order of EachPartition.
pub record Poll : Type 0 where
  pub failed : Bool
  pub records : List Delivery

-- A call that only talks to the server: Begin, and the statements inside a transaction, whose
-- effect is on the transaction's own tables.
round_trip : List Trip → Result (Unit {0}) × List Trip
round_trip [] = (ok tt, [])
round_trip (answered ∷ rest) = (ok tt, rest)
round_trip (lost e ∷ rest) = (err (net_error e), rest)
round_trip (unanswered e ∷ rest) = (err (net_error e), rest)

talk : Act Db (Unit {0})
unfolding round_trip
talk db = let (r, rest) = round_trip db.trips in (r, record db { trips = rest })

-- COMMIT makes the transaction's tables the server's. Without an answer they are too.
commit_on : Tables → List Trip → Db → Result (Unit {0}) × Db
commit_on t [] db = (ok tt, record db { tables = t; trips = [] })
commit_on t (answered ∷ rest) db = (ok tt, record db { tables = t; trips = rest })
commit_on t (lost e ∷ rest) db = (err (net_error e), record db { trips = rest })
commit_on t (unanswered e ∷ rest) db = (err (net_error e), record db { tables = t; trips = rest })

pub commit : Tables → Act Db (Unit {0})
unfolding commit_on
commit t db = commit_on t db.trips db

module _ (decode : String → Result LinkClicked) (group topic : String) where
  -- What the transaction of one record writes.
  abbrev pub recorded : Delivery → LinkClicked → Tables → Tables
  recorded rec e t = save_offset group topic rec.partition (rec.offset + 1) (insert_click e t)

  begun : Act Db Tables
  unfolding talk
  begun db = (talk >>= λ _. λ w. (ok w.tables, w)) db

  unfoldable pub process : Delivery → Act Db (Unit {0})
  unfolding begun accepted
  process rec = do
    e ← lift (decode rec.value)
    t ← begun
    talk
    lift (accepted e)
    talk
    commit (recorded rec e t)

  -- The loop over a poll's records; an error ends the process.
  unfoldable pub process_all : List Delivery → Act Db (Unit {0})
  process_all [] = pure tt
  process_all (rec ∷ recs) = let rest = process_all recs in process rec >> rest

  -- The consume loop over the polls of a session. A poll with errors is skipped.
  unfoldable pub consume : List Poll → Act Db (Unit {0})
  consume [] = pure tt
  consume (p ∷ ps) =
      let rest = consume ps in if p.failed then rest else (process_all p.records >> rest)
