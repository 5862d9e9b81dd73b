-- ===== src/Program/Lookup.antt =====
-- What Postgres answers to a lookup by code, however the round trip goes.
use shortn.Prelude.{
  String, is_text, ◌≡◌, refl, sym, ◌∙◌, ◌⊎◌, inl, inr, true, false, Bool-cases, Option, none, some,
  List, [], ◌∷◌, arith, Option-cases,
}
use shortn.Error.{GoError, sentinel, err_not_found, errors_is}
use shortn.Act.{Result, ok, err}
use shortn.Shortener.{Link}
use shortn.Store.Outcomes.{url_of, find_link-code}
use shortn.Store.{
  Db, Trip, answered, lost, unanswered, NetError, broken, timed_out, statement, find_link,
  select_link, row_or_none, found_link, get_by_code,
}

abbrev pub stored_in : Db → String → Option String
stored_in db code = url_of (find_link code db.tables.links)

-- What a SELECT by code gives, on each trip: the row that is there, ErrNotFound if none is, or an
-- error that is not ErrNotFound; the tables stay.
pub data IsLookup (code : String) (db : Db) (r : Result Link) : Type 0 where
  row :
      (l : Link)
      → find_link code db.tables.links ≡ some l
      → l.code ≡ code
      → r ≡ ok l
      → IsLookup code db r
  absent :
      find_link code db.tables.links ≡ none → r ≡ err (sentinel err_not_found) → IsLookup code db r
  failed : (e : GoError) → r ≡ err e → errors_is e err_not_found ≡ false → IsLookup code db r

find_link-answered :
    (code : String) (db : Db) (o : Option Link) (rest : List Trip)
    → find_link code db.tables.links ≡ o
    → db.trips ≡ rest
    → is_text code ≡ true
    → (rest ≡ []) ⊎ ((tl : List Trip) × (rest ≡ answered ∷ tl))
    → IsLookup code db (get_by_code code db).0 × ((get_by_code code db).1.tables ≡ db.tables)
unfolding get_by_code statement select_link row_or_none found_link
find_link-answered code db none rest p q t (inl e) = rw (q, e, t, p) (absent p refl, refl)
find_link-answered code db none rest p q t (inr (tl, e)) = rw (q, e, t, p) (absent p refl, refl)
find_link-answered code db (some l) rest p q t (inl e) =
    rw (q, e, t, p) (row l p (find_link-code code db.tables.links l p) refl, refl)
find_link-answered code db (some l) rest p q t (inr (tl, e)) =
    rw (q, e, t, p) (row l p (find_link-code code db.tables.links l p) refl, refl)

find_link-refused :
    (code : String) (db : Db) (rest : List Trip)
    → db.trips ≡ rest
    → is_text code ≡ false
    → (rest ≡ []) ⊎ ((tl : List Trip) × (rest ≡ answered ∷ tl))
    → IsLookup code db (get_by_code code db).0 × ((get_by_code code db).1.tables ≡ db.tables)
unfolding get_by_code statement select_link found_link
find_link-refused code db rest q t (inl e) = rw (q, e, t) (failed _ refl refl, refl)
find_link-refused code db rest q t (inr (tl, e)) = rw (q, e, t) (failed _ refl refl, refl)

find_link-reached :
    (code : String) (db : Db) (rest : List Trip)
    → db.trips ≡ rest
    → (rest ≡ []) ⊎ ((tl : List Trip) × (rest ≡ answered ∷ tl))
    → IsLookup code db (get_by_code code db).0 × ((get_by_code code db).1.tables ≡ db.tables)
find_link-reached code db rest q reached = elim (Bool-cases (is_text code)) [
  | inl text ↦ find_link-answered code db _ rest refl q text reached
  | inr odd ↦ find_link-refused code db rest q odd reached
]

select_link-keeps : (code : String) (db : Db) → (select_link code db.clock db.tables).1 ≡ db.tables
unfolding select_link
select_link-keeps code db = elim (Bool-cases (is_text code)) [
  | inl text ↦ rw text refl
  | inr odd ↦ rw odd refl
]

find_link-unanswered :
    (code : String) (db : Db) (n : NetError) (trip : Trip) (rest : List Trip)
    → db.trips ≡ trip ∷ rest
    → (trip ≡ lost n) ⊎ (trip ≡ unanswered n)
    → IsLookup code db (get_by_code code db).0 × ((get_by_code code db).1.tables ≡ db.tables)
unfolding get_by_code statement select_link found_link
find_link-unanswered code db (broken text) trip rest q (inl e) =
    rw (q, e) (failed _ refl refl, refl)
find_link-unanswered code db (broken text) trip rest q (inr e) =
    rw (q, e) (failed _ refl refl, select_link-keeps code db)
find_link-unanswered code db timed_out trip rest q (inl e) = rw (q, e) (failed _ refl refl, refl)
find_link-unanswered code db timed_out trip rest q (inr e) =
    rw (q, e) (failed _ refl refl, select_link-keeps code db)

get_by_code-on_trips :
    (code : String) (db : Db) (trips : List Trip)
    → db.trips ≡ trips
    → IsLookup code db (get_by_code code db).0 × ((get_by_code code db).1.tables ≡ db.tables)
get_by_code-on_trips code db [] q = find_link-reached code db [] q (inl refl)
get_by_code-on_trips code db (answered ∷ rest) q = find_link-reached code db _ q (inr (rest, refl))
get_by_code-on_trips code db (lost n ∷ rest) q = find_link-unanswered code db n _ rest q (inl refl)
get_by_code-on_trips code db (unanswered n ∷ rest) q =
    find_link-unanswered code db n _ rest q (inr refl)

pub get_by_code-IsLookup :
    (code : String) (db : Db)
    → IsLookup code db (get_by_code code db).0 × ((get_by_code code db).1.tables ≡ db.tables)
get_by_code-IsLookup code db = get_by_code-on_trips code db db.trips refl

pub IsLookup-found :
    (code : String) (db : Db) (l : Link) (r : Result Link)
    → r ≡ ok l
    → IsLookup code db r
    → (stored_in db code ≡ some l.long_url) × (l.code ≡ code)
IsLookup-found code db l r e (row m p q f) = rw p (ground (arith, e, f, q))
IsLookup-found code db l r e (absent p f) = absurd (let k = sym e ∙ f in cc)
IsLookup-found code db l r e (failed x f g) = absurd (let k = sym e ∙ f in cc)

pub IsLookup-missing :
    (code : String) (db : Db) (e : GoError) (r : Result Link)
    → r ≡ err e
    → errors_is e err_not_found ≡ true
    → IsLookup code db r
    → stored_in db code ≡ none
IsLookup-missing code db e r p h (row m a q f) = absurd (let k = sym p ∙ f in cc)
IsLookup-missing code db e r p h (absent a f) = rw a refl
IsLookup-missing code db e r p h (failed x f g) =
    absurd (let k = sym p ∙ f in ground (arith, k, g, h))

-- While the server answers, a lookup of a text gives a row or ErrNotFound.
pub get_by_code-final :
    (code : String) (db : Db)
    → db.trips ≡ []
    → is_text code ≡ true
    → ((l : Link) × ((get_by_code code db).0 ≡ ok l))
      ⊎ ((get_by_code code db).0 ≡ err (sentinel err_not_found))
unfolding get_by_code statement select_link row_or_none found_link
get_by_code-final code db quiet text = elim (Option-cases (find_link code db.tables.links)) [
  | inl none_there ↦ inr (rw (quiet, text, none_there) refl)
  | inr (l, p) ↦ inl (l, rw (quiet, text, p) refl)
]
