-- ===== src/Store.antt =====
-- internal/store: the Postgres store. The tables are those of migrations/; each query is what its
-- SQL text says on them. A statement may fail before or after it takes effect on the server.
pub mod Analytics
pub mod Refines
pub mod Links
pub mod Outcomes
pub mod Pages
pub mod Statistics
pub mod Order
mod Tests
use Prim.Native.Nat.{zero, suc}
use shortn.Prelude.{
  ℕ, ◌+◌, ◌-◌, ◌*◌, ◌%◌, String, Bool, true, false, ◌&&◌, ◌||◌, Option, none, some, List, [], ◌∷◌,
  ◌==◌, ltb, leb, str_eq, is_text, if◌then◌else◌,
}
use shortn.Prelude.Int.{ℤ, pos, negsuc}
use shortn.Error.{
  message, err_deadline_exceeded, GoError, sentinel, pg_error, pg_code, err_no_rows, err_not_found,
  err_code_exists, errors_is,
}
use shortn.Act.{Result, ok, err, Act, pure, fail, attempt, ◌>>=◌}
use shortn.Shortener.{Time, Link, ClickBucket, Stats, LinkStore}
use shortn.Events.{LinkClicked}

pub record OffsetRow : Type 0 where
  pub group : String
  pub topic : String
  pub partition : ℕ
  pub offset : ℕ

pub record Tables : Type 0 where
  pub links : List Link
  -- the sequence behind links.id
  pub next_id : ℕ
  -- the version of an event is not a column, and no query reads it
  pub click_events : List LinkClicked
  pub kafka_offsets : List OffsetRow

-- What goes wrong between the program and the server: neither is an answer of the server.
pub data NetError : Type 0 where
  broken : String → NetError
  timed_out : NetError

abbrev pub net_error : NetError → GoError
net_error (broken text) = message text
net_error timed_out = sentinel err_deadline_exceeded

-- How a round trip to the server goes.
pub data Trip : Type 0 where
  answered : Trip
  lost : NetError → Trip
  -- the statement took effect, and its answer did not arrive
  unanswered : NetError → Trip

pub record Db : Type 0 where
  pub tables : Tables
  pub clock : Time
  pub trips : List Trip

abbrev pub settle : {A : Type 0} → Db → List Trip → Trip → Result A × Tables → Result A × Db
settle db rest answered (r, t) = (r, record db { tables = t; trips = rest })
settle db rest (lost e) (r, t) = (err (net_error e), record db { trips = rest })
settle db rest (unanswered e) (r, t) = (err (net_error e), record db { tables = t; trips = rest })

-- One statement outside a transaction, on the next trip.
abbrev pub travel : {A : Type 0} → Db → List Trip → Result A × Tables → Result A × Db
travel db [] out = settle db [] answered out
travel db (trip ∷ rest) out = settle db rest trip out

unfoldable pub statement : {A : Type 0} → (Time → Tables → Result A × Tables) → Act Db A
statement run db = travel db db.trips (run db.clock db.tables)

-- An action on the database, in a world of which the database is a part.
abbrev pub within : {W A : Type 0} → (W → Db) → (Db → W → W) → Act Db A → Act W A
within db put_db m w = let (r, d) = m (db w) in (r, put_db d w)

module _ {A : Type 0} where
  abbrev pub filter_by : (A → Bool) → List A → List A
  filter_by p [] = []
  filter_by p (x ∷ xs) = if p x then x ∷ filter_by p xs else filter_by p xs

  abbrev pub drop : ℕ → List A → List A
  drop zero xs = xs
  drop (suc n) [] = []
  drop (suc n) (x ∷ xs) = drop n xs

  abbrev pub take : ℕ → List A → List A
  take zero xs = []
  take (suc n) [] = []
  take (suc n) (x ∷ xs) = x ∷ take n xs

unfoldable pub find_link : String → List Link → Option Link
find_link code [] = none
find_link code (l ∷ ls) = if str_eq l.code code then some l else find_link code ls

-- What the server answers to a parameter that is no text; strings are UTF-8 otherwise.
abbrev pub no_text : GoError
no_text = pg_error "22021"

-- INSERT INTO links (code, long_url) … RETURNING id, created_at; expires_at and click_count of
-- the row are the defaults of the table, and the caller's link keeps its own. That code is UNIQUE,
-- and that a refused insert uses its id up, is the server's part.
unfoldable pub insert_into : Link → Time → Tables → Option Link → Result Link × Tables
insert_into link now t (some taken) = (err (pg_error "23505"), record t { next_id = t.next_id + 1 })
insert_into link now t none =
    let made = record link { id = t.next_id; created_at = now } in
    let row = record made { expires_at = none; click_count = 0 } in
    (ok made, record t { links = row ∷ t.links; next_id = t.next_id + 1 })

unfoldable pub insert_link : Link → Time → Tables → Result Link × Tables
unfolding insert_into
insert_link link now t =
    if is_text link.code && is_text link.long_url
    then insert_into link now t (find_link link.code t.links)
    else (err no_text, t)

-- SELECT … FROM links WHERE code = $1
unfoldable pub row_or_none : Option Link → Result Link
row_or_none none = err (sentinel err_no_rows)
row_or_none (some l) = ok l

unfoldable pub select_link : String → Time → Tables → Result Link × Tables
unfolding row_or_none
select_link code now t =
    if is_text code then (row_or_none (find_link code t.links), t) else (err no_text, t)

-- ORDER BY created_at DESC, id DESC
abbrev pub is_newer : Link → Link → Bool
is_newer a b = ltb b.created_at a.created_at || ((a.created_at == b.created_at) && ltb b.id a.id)

unfoldable pub place : Link → List Link → List Link
place l [] = l ∷ []
place l (m ∷ ms) = if is_newer m l then m ∷ place l ms else l ∷ m ∷ ms

unfoldable pub newest_first : List Link → List Link
newest_first [] = []
newest_first (l ∷ ls) = place l (newest_first ls)

-- LIMIT $1 OFFSET $2; Postgres refuses negative ones.
unfoldable pub select_page : ℤ → ℤ → Time → Tables → Result (List Link) × Tables
select_page (negsuc n) offset now t = (err (pg_error "2201W"), t)
select_page (pos limit) (negsuc n) now t = (err (pg_error "2201X"), t)
select_page (pos limit) (pos offset) now t =
    (ok (take limit (drop offset (newest_first t.links))), t)

-- DELETE FROM links WHERE code = $1, and the number of rows affected.
abbrev pub has_code : String → Link → Bool
has_code code l = str_eq l.code code

unfoldable pub affected : Option Link → ℕ
affected none = 0
affected (some l) = 1

unfoldable pub delete_link : String → Time → Tables → Result ℕ × Tables
unfolding affected
delete_link code now t =
    if is_text code
    then (
      ok (affected (find_link code t.links)),
      record t { links = filter_by (λ l. if has_code code l then false else true) t.links },
    )
    else (err no_text, t)

-- Postgres.Create
unfoldable pub is_unique_violation : Option String → Bool
is_unique_violation none = false
is_unique_violation (some code) = str_eq code "23505"

unfoldable pub created : Result Link → Act Db Link
unfolding is_unique_violation
created (ok link) = pure link
created (err e) =
    if is_unique_violation (pg_code e) then fail (sentinel err_code_exists) else fail e

unfoldable pub create : Link → Act Db Link
unfolding statement insert_link created
create link = do inserted ← attempt (statement (insert_link link)); created inserted

-- Postgres.GetByCode
unfoldable pub found_link : Result Link → Act Db Link
found_link (ok link) = pure link
found_link (err e) = if errors_is e err_no_rows then fail (sentinel err_not_found) else fail e

unfoldable pub get_by_code : String → Act Db Link
unfolding statement select_link found_link
get_by_code code = do row ← attempt (statement (select_link code)); found_link row

-- Postgres.List
unfoldable pub list : ℤ → ℤ → Act Db (List Link)
unfolding statement select_page
list limit offset = statement (select_page limit offset)

-- Postgres.Delete
unfoldable pub delete : String → Act Db (Unit {0})
unfolding statement delete_link
delete code = do
  rows ← statement (delete_link code)
  if rows == 0 then fail (sentinel err_not_found) else pure tt
