-- ===== src/Store/Outcomes.antt =====
-- What a create and a delete answer and leave in the links table, however the round trip goes.
use shortn.Prelude.{
  ◌≡◌, ◌≢◌, refl, ◌⊎◌, inl, inr, String, Bool, true, false, ◌&&◌, is_text, Option, none, some, List,
  [], ◌∷◌, arith, Bool-cases, str_eq, eq_iff, if◌then◌else◌,
}
use shortn.Error.{sentinel, err_code_exists}
use shortn.Act.{Result, ok, err}
use shortn.Shortener.{Link}
use shortn.Store.{
  no_text, NetError, net_error, broken, timed_out, Trip, answered, lost, unanswered, Db, statement,
  find_link, filter_by, has_code, insert_link, insert_into, affected, delete_link,
  is_unique_violation, created, create, delete,
}

-- The link that its create gives back, and its row.
abbrev pub made_of : Link → Db → Link
made_of link db = record link { id = db.tables.next_id; created_at = db.clock }

abbrev pub row_of : Link → Db → Link
row_of link db = record (made_of link db) { expires_at = none; click_count = 0 }

abbrev pub has_text : Link → Bool
has_text link = is_text link.code && is_text link.long_url

-- The rows of all other codes.
abbrev pub rest_of : String → List Link → List Link
rest_of code ls = filter_by (λ l. if has_code code l then false else true) ls

-- How a create ends, and the rows behind it.
pub data IsInsert (link : Link) (db : Db) (r : Result Link) (rows : List Link) : Type 0 where
  inserted :
      has_text link ≡ true
      → find_link link.code db.tables.links ≡ none
      → r ≡ ok (made_of link db)
      → rows ≡ row_of link db ∷ db.tables.links
      → IsInsert link db r rows
  taken : r ≡ err (sentinel err_code_exists) → rows ≡ db.tables.links → IsInsert link db r rows
  refused :
      has_text link ≡ false → r ≡ err no_text → rows ≡ db.tables.links → IsInsert link db r rows
  unsure :
      (n : NetError)
      → r ≡ err (net_error n)
      → (rows ≡ db.tables.links) ⊎ (rows ≡ row_of link db ∷ db.tables.links)
      → IsInsert link db r rows

-- How a delete ends, and the rows behind it.
pub data IsRemoval (code : String) (db : Db) (r : Result (Unit {0})) (rows : List Link)
    : Type 0 where
  removed : is_text code ≡ true → rows ≡ rest_of code db.tables.links → IsRemoval code db r rows
  refused :
      is_text code ≡ false → r ≡ err no_text → rows ≡ db.tables.links → IsRemoval code db r rows
  unsure :
      (n : NetError) → r ≡ err (net_error n) → rows ≡ db.tables.links → IsRemoval code db r rows

create_at :
    (link : Link) (db : Db) (trips : List Trip) (found : Option Link)
    → has_text link ≡ true
    → db.trips ≡ trips
    → find_link link.code db.tables.links ≡ found
    → IsInsert link db (create link db).0 (create link db).1.tables.links
unfolding create statement insert_link insert_into created is_unique_violation
create_at link db [] none t q p = rw (t, q, p) (inserted t p refl refl)
create_at link db [] (some other) t q p = rw (t, q, p) (taken refl refl)
create_at link db (answered ∷ rest) none t q p = rw (t, q, p) (inserted t p refl refl)
create_at link db (answered ∷ rest) (some other) t q p = rw (t, q, p) (taken refl refl)
create_at link db (lost (broken text) ∷ rest) found t q p =
    rw (t, q) (unsure (broken text) refl (inl refl))
create_at link db (lost timed_out ∷ rest) found t q p = rw (t, q) (unsure timed_out refl (inl refl))
create_at link db (unanswered (broken text) ∷ rest) none t q p =
    rw (t, q, p) (unsure (broken text) refl (inr refl))
create_at link db (unanswered (broken text) ∷ rest) (some other) t q p =
    rw (t, q, p) (unsure (broken text) refl (inl refl))
create_at link db (unanswered timed_out ∷ rest) none t q p =
    rw (t, q, p) (unsure timed_out refl (inr refl))
create_at link db (unanswered timed_out ∷ rest) (some other) t q p =
    rw (t, q, p) (unsure timed_out refl (inl refl))

create_refused :
    (link : Link) (db : Db) (trips : List Trip)
    → has_text link ≡ false
    → db.trips ≡ trips
    → IsInsert link db (create link db).0 (create link db).1.tables.links
unfolding create statement insert_link created is_unique_violation
create_refused link db [] t q = rw (t, q) (refused t refl refl)
create_refused link db (answered ∷ rest) t q = rw (t, q) (refused t refl refl)
create_refused link db (lost (broken text) ∷ rest) t q =
    rw (t, q) (unsure (broken text) refl (inl refl))
create_refused link db (lost timed_out ∷ rest) t q = rw (t, q) (unsure timed_out refl (inl refl))
create_refused link db (unanswered (broken text) ∷ rest) t q =
    rw (t, q) (unsure (broken text) refl (inl refl))
create_refused link db (unanswered timed_out ∷ rest) t q =
    rw (t, q) (unsure timed_out refl (inl refl))

pub create-IsInsert :
    (link : Link) (db : Db) → IsInsert link db (create link db).0 (create link db).1.tables.links
create-IsInsert link db = elim (Bool-cases (has_text link)) [
  | inl text ↦ create_at link db db.trips _ text refl refl
  | inr odd ↦ create_refused link db db.trips odd refl
]

delete_at :
    (code : String) (db : Db) (trips : List Trip) (found : Option Link)
    → is_text code ≡ true
    → db.trips ≡ trips
    → find_link code db.tables.links ≡ found
    → IsRemoval code db (delete code db).0 (delete code db).1.tables.links
unfolding delete statement delete_link affected
delete_at code db [] none t q p = rw (t, q, p) (removed t refl)
delete_at code db [] (some l) t q p = rw (t, q, p) (removed t refl)
delete_at code db (answered ∷ rest) none t q p = rw (t, q, p) (removed t refl)
delete_at code db (answered ∷ rest) (some l) t q p = rw (t, q, p) (removed t refl)
delete_at code db (lost (broken text) ∷ rest) found t q p =
    rw (t, q) (unsure (broken text) refl refl)
delete_at code db (lost timed_out ∷ rest) found t q p = rw (t, q) (unsure timed_out refl refl)
delete_at code db (unanswered e ∷ rest) found t q p = rw (t, q) (removed t refl)

delete_refused :
    (code : String) (db : Db) (trips : List Trip)
    → is_text code ≡ false
    → db.trips ≡ trips
    → IsRemoval code db (delete code db).0 (delete code db).1.tables.links
unfolding delete statement delete_link
delete_refused code db [] t q = rw (t, q) (refused t refl refl)
delete_refused code db (answered ∷ rest) t q = rw (t, q) (refused t refl refl)
delete_refused code db (lost (broken text) ∷ rest) t q = rw (t, q) (unsure (broken text) refl refl)
delete_refused code db (lost timed_out ∷ rest) t q = rw (t, q) (unsure timed_out refl refl)
delete_refused code db (unanswered (broken text) ∷ rest) t q =
    rw (t, q) (unsure (broken text) refl refl)
delete_refused code db (unanswered timed_out ∷ rest) t q = rw (t, q) (unsure timed_out refl refl)

pub delete-IsRemoval :
    (code : String) (db : Db) → IsRemoval code db (delete code db).0 (delete code db).1.tables.links
delete-IsRemoval code db = elim (Bool-cases (is_text code)) [
  | inl text ↦ delete_at code db db.trips _ text refl refl
  | inr odd ↦ delete_refused code db db.trips odd refl
]

-- The rows of other codes are found as before.
pub find_link-rest_of :
    (code c : String) (ls : List Link) → c ≢ code → find_link c (rest_of code ls) ≡ find_link c ls
unfolding find_link
find_link-rest_of code c [] other = refl
find_link-rest_of code c (l ∷ ls) other = elim (Bool-cases (str_eq l.code code)) [
  | inl same ↦
      let skip : str_eq l.code c ≡ false =
        ground (arith, same, other, eq_iff l.code code, eq_iff l.code c) in
      rw (same, skip) (find_link-rest_of code c ls other)
  | inr differs ↦ rw differs (elim (Bool-cases (str_eq l.code c)) [
    | inl here ↦ rw here refl
    | inr there ↦ rw there (find_link-rest_of code c ls other)
  ])
]

pub find_link-row_of :
    (link : Link) (db : Db) (c : String)
    → c ≢ link.code
    → find_link c (row_of link db ∷ db.tables.links) ≡ find_link c db.tables.links
unfolding find_link
find_link-row_of link db c other = ground (arith, eq_iff link.code c)

-- The row's URL.
abbrev pub url_of : Option Link → Option String
url_of none = none
url_of (some l) = some l.long_url

pub find_link-code :
    (code : String) (ls : List Link) (l : Link) → find_link code ls ≡ some l → l.code ≡ code
unfolding find_link
find_link-code code [] l e = cc
find_link-code code (m ∷ ls) l e = elim (Bool-cases (str_eq m.code code)) [
  | inl same ↦ (let q = rw same at e in ground (arith, q, eq_iff m.code code))
  | inr other ↦ (let q = rw other at e in find_link-code code ls l q)
]
