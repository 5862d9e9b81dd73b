-- ===== src/Analytics/Session.antt =====
-- A session of the consumer, from the assignment of its partitions on.
use shortn.Prelude.{
  ℕ, String, true, ◌≡◌, refl, ◌∙◌, List, [], ◌∷◌, ◌==◌, All, length, Bool-cases, inl, inr,
}
use shortn.Act.{Result, Act}
use shortn.Events.{LinkClicked}
use shortn.Store.{Db}
use shortn.Analytics.{Delivery, Poll, consume}
use shortn.Analytics.Assigned.{on_assigned, start_of, is_assigned, AreAnswered, on_assigned-next}
use shortn.Analytics.Exactly.{Log, IsExact, InSequence, all_records}
use shortn.Analytics.Exactly.Sessions.{IsClean, consume-IsExact}

module _ (decode : String → Result LinkClicked) (group topic : String) where
  -- The client assigns partitions, is told where to start, and hands out polls from there on.
  unfoldable pub session : List ℕ → (List (ℕ × ℕ) → List Poll) → Act Db (Unit {0})
  session ps polls db =
      let (offsets, db') = on_assigned group topic ps db in
      consume decode group topic (polls offsets) db'

  module _ (log : Log) where
    abbrev pub IsAssigned : List ℕ → Delivery → Type 0
    IsAssigned ps r = is_assigned r.partition ps ≡ true

    -- The positions matter only where there are records.
    InSequence-same :
        (ps : List ℕ) (rs : List Delivery) (at at' : ℕ → ℕ)
        → ((q : ℕ) → is_assigned q ps ≡ true → at q ≡ at' q)
        → All (IsAssigned ps) rs
        → InSequence log at rs
        → InSequence log at' rs
    InSequence-same ps [] at at' same a s = tt
    InSequence-same ps (r ∷ rs) at at' same (a, more) (p, l, s) = (
      p ∙ same r.partition a,
      l,
      InSequence-same ps rs _ _
          (λ q b. elim (Bool-cases (r.partition == q)) [
            | inl here ↦ rw here refl
            | inr other ↦ rw other (same q b)
          ])
          more s,
    )

    pub session-IsExact :
        (ps : List ℕ) (polls : List (ℕ × ℕ) → List Poll) (db : Db)
        → IsExact decode group topic log db.tables
        → AreAnswered group topic (length ps) db.trips
        → All (IsClean decode group topic log) (polls (on_assigned group topic ps db).0)
        → All (IsAssigned ps) (all_records (polls (on_assigned group topic ps db).0))
        → InSequence log
            (λ q. start_of q (on_assigned group topic ps db).0)
            (all_records (polls (on_assigned group topic ps db).0))
        → IsExact decode group topic log (session ps polls db).1.tables
    unfolding session
    session-IsExact ps polls db x a clean assigned ordered =
        let (offsets, db') = on_assigned group topic ps db in
        let tables = (on_assigned-next group topic ps 0 db a).1 in
        consume-IsExact decode group topic log (polls offsets) db' (rw tables x) clean (
          InSequence-same ps (all_records (polls offsets)) _ _
            (λ q b.
              let (start, same) = on_assigned-next group topic ps q db a in
              rw same (start ∙ rw b refl))
            assigned ordered)
