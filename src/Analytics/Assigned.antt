-- ===== src/Analytics/Assigned.antt =====
-- cmd/analytics/main.go, onAssigned: where the consumer starts on the partitions it is assigned.
use shortn.Prelude.{
  ℕ, zero, suc, length, String, Bool, true, false, ◌≡◌, refl, inl, inr, Option, none, some, List,
  [], ◌∷◌, ◌==◌, arith, Option-cases, if◌then◌else◌,
}
use shortn.Act.{Result, ok, err}
use shortn.Store.{Db, Trip, answered, statement}
use shortn.Store.Analytics.{find_offset, offset_or_none, select_offset, loaded, load_offset}
use shortn.Analytics.Exactly.{next}

-- setOffsets: the partition and its offset. After a failed lookup, and where no offset was ever
-- committed, the partition is left to the client's reset policy.
unfoldable pub sought : ℕ → Result (Option ℕ) → List (ℕ × ℕ) → List (ℕ × ℕ)
sought p (err e) rest = rest
sought p (ok none) rest = rest
sought p (ok (some offset)) rest = (p, offset) ∷ rest

-- What the client's reset policy, AtStart, and SetOffsets make of it.
abbrev pub start_of : ℕ → List (ℕ × ℕ) → ℕ
start_of p [] = 0
start_of p ((q, offset) ∷ rest) = if q == p then offset else start_of p rest

abbrev pub is_assigned : ℕ → List ℕ → Bool
is_assigned q [] = false
is_assigned q (p ∷ ps) = if p == q then true else is_assigned q ps

module _ (group topic : String) where
  -- The loop over the assigned partitions of the topic, in any order.
  unfoldable pub on_assigned : List ℕ → Db → List (ℕ × ℕ) × Db
  unfolding sought
  on_assigned [] db = ([], db)
  on_assigned (p ∷ ps) db =
      let (found, db') = load_offset group topic p db in
      let (rest, db'') = on_assigned ps db' in (sought p found rest, db'')

  -- The next round trips, so many of them, are answered.
  abbrev pub AreAnswered : ℕ → List Trip → Type 0
  AreAnswered zero trips = Unit
  AreAnswered (suc n) [] = Unit
  AreAnswered (suc n) (trip ∷ rest) = (trip ≡ answered) × AreAnswered n rest

  AreAnswered-nil : (n : ℕ) → AreAnswered n []
  AreAnswered-nil zero = tt
  AreAnswered-nil (suc n) = tt

  abbrev rest_of : List Trip → List Trip
  rest_of [] = []
  rest_of (trip ∷ rest) = rest

  AreAnswered-rest :
      (n : ℕ) (trips : List Trip) → AreAnswered (suc n) trips → AreAnswered n (rest_of trips)
  AreAnswered-rest n [] a = AreAnswered-nil n
  AreAnswered-rest n (trip ∷ rest) (a, more) = more

  load_offset_on :
      (p n : ℕ) (db : Db) (trips : List Trip) (found : Option ℕ)
      → db.trips ≡ trips
      → AreAnswered (suc n) trips
      → find_offset group topic p db.tables.kafka_offsets ≡ found
      → load_offset group topic p db ≡ (ok found, record db { trips = rest_of trips })
  unfolding load_offset statement select_offset offset_or_none loaded
  load_offset_on p n db [] none t a f = rw (t, f) refl
  load_offset_on p n db [] (some offset) t a f = rw (t, f) refl
  load_offset_on p n db (trip ∷ rest) none t (a, more) f = rw (t, a, f) refl
  load_offset_on p n db (trip ∷ rest) (some offset) t (a, more) f = rw (t, a, f) refl

  load_offset_answered :
      (p n : ℕ) (db : Db)
      → AreAnswered (suc n) db.trips
      → load_offset group topic p db ≡ (
        ok (find_offset group topic p db.tables.kafka_offsets),
        record db { trips = rest_of db.trips },
      )
  load_offset_answered p n db a = load_offset_on p n db db.trips _ refl a refl

  start_of-sought :
      (p q : ℕ) (found : Option ℕ) (rest : List (ℕ × ℕ))
      → start_of q (sought p (ok found) rest) ≡ (
          if p == q
          then (elim found [ none ↦ start_of q rest | some offset ↦ offset ])
          else start_of q rest)
  unfolding sought
  start_of-sought p q none rest = ground arith
  start_of-sought p q (some offset) rest = refl

  -- While the lookups are answered, each partition that is assigned starts at its committed offset,
  -- or at the start of the log if none is committed, and the tables stay.
  pub on_assigned-next :
      (ps : List ℕ) (q : ℕ) (db : Db)
      → AreAnswered (length ps) db.trips
      → (start_of q (on_assigned ps db).0
          ≡ (if is_assigned q ps then next group topic db.tables q else 0))
        × ((on_assigned ps db).1.tables ≡ db.tables)
  unfolding on_assigned
  on_assigned-next [] q db a = (refl, refl)
  on_assigned-next (p ∷ ps) q db a =
      let db' : Db = record db { trips = rest_of db.trips } in
      let later = (on_assigned ps db').0 in
      let (rest, same) = on_assigned-next ps q db' (AreAnswered-rest (length ps) db.trips a) in
      let found = find_offset group topic p db.tables.kafka_offsets in
      rw (load_offset_answered p (length ps) db a) (elim (Option-cases found) [
        | inl absent ↦ (ground (arith, start_of-sought p q found later, rest, absent), same)
        | inr (offset, known) ↦ (ground (arith, start_of-sought p q found later, rest, known), same)
      ])
