-- ===== src/Store/Refines/Runs.antt =====
-- A sequence of calls, as the map answers it.
use shortn.Prelude.{◌≡◌, refl, ap, ◌∙◌, String, List, [], ◌∷◌}
use shortn.Store.{Db}
use shortn.Store.Refines.{
  Urls, Call, Answer, meant, over, next_trip, expected, perform, performed, Represents, urls,
}
use shortn.Store.Refines.Calls.{perform-Follows}

performed-Represents :
    (calls : List Call) (db : Db) (m : Urls)
    → Represents db.tables m
    → ((performed calls db).0 ≡ (expected calls db.trips m).0)
      × Represents (performed calls db).1.tables (expected calls db.trips m).1
performed-Represents [] db m h = (refl, h)
performed-Represents (call ∷ calls) db m h =
    let (same, there, trips) = perform-Follows call db m h in
    let (rest, last) =
      performed-Represents calls (perform call db).1 (over (next_trip db.trips) m (meant call m)).1
        there in
    let e = ap (λ ts. expected calls ts (over (next_trip db.trips) m (meant call m)).1) trips in
    (
      λ i. same i ∷ (rest ∙ ap (λ (x : List Answer × Urls). x.0) e) i,
      λ c. last c ∙ ap (λ (x : List Answer × Urls). x.1 c) e,
    )

-- Creates, GetByCodes and Deletes of Postgres, in any order, answer and leave what a map from
-- codes to URLs does: ErrCodeExists for a create of a code that is there, ErrNotFound for a
-- lookup or a delete of one that is not, the server's error for a parameter with a NUL, which
-- changes nothing; a round trip that fails hides the answer, and the call took effect or did
-- not.
pub performed-expected :
    (calls : List Call) (db : Db)
    → ((performed calls db).0 ≡ (expected calls db.trips (urls db.tables)).0)
      × ((c : String)
          → urls (performed calls db).1.tables c ≡ (expected calls db.trips (urls db.tables)).1 c)
performed-expected calls db = performed-Represents calls db (urls db.tables) (λ c. refl)
