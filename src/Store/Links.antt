-- ===== src/Store/Links.antt =====
-- What a create and a delete leave in the links table while the server answers.
use shortn.Prelude.{
  ◌+◌, ◌≡◌, refl, ◌⊎◌, inl, inr, String, is_text, arith, true, false, none, some, List, [], ◌∷◌,
  Bool-cases, Option-cases, str_eq, if◌then◌else◌,
}
use text.Mathlib.TextPositions.{eq_refl}
use shortn.Error.{sentinel, err_code_exists}
use shortn.Act.{ok, err}
use shortn.Shortener.{Link}
use shortn.Store.Outcomes.{made_of, row_of, has_text}
use shortn.Store.{
  Db, no_text, statement, find_link, filter_by, has_code, insert_link, insert_into, select_link,
  row_or_none, found_link, is_unique_violation, created, create, get_by_code,
}

pub code-text : (link : Link) → has_text link ≡ true → is_text link.code ≡ true
code-text link text = ground arith

create_taken :
    (link taken : Link) (db : Db)
    → db.trips ≡ []
    → has_text link ≡ true
    → find_link link.code db.tables.links ≡ some taken
    → create link db ≡ (
      err (sentinel err_code_exists),
      record db { tables = record db.tables { next_id = db.tables.next_id + 1 }; trips = [] },
    )
unfolding create statement insert_link insert_into created is_unique_violation
create_taken link taken db quiet text p = rw (quiet, text, p) refl

create_free :
    (link : Link) (db : Db)
    → db.trips ≡ []
    → has_text link ≡ true
    → find_link link.code db.tables.links ≡ none
    → create link db ≡ (
      ok (made_of link db),
      record db {
        tables = record db.tables {
          links = row_of link db ∷ db.tables.links;
          next_id = db.tables.next_id + 1;
        };
        trips = [];
      },
    )
unfolding create statement insert_link insert_into created
create_free link db quiet text p = rw (quiet, text, p) refl

create_odd :
    (link : Link) (db : Db)
    → db.trips ≡ []
    → has_text link ≡ false
    → create link db ≡ (err no_text, record db { trips = [] })
unfolding create statement insert_link created is_unique_violation
create_odd link db quiet odd = rw (quiet, odd) refl

get_by_code_found :
    (l : Link) (code : String) (db : Db)
    → db.trips ≡ []
    → is_text code ≡ true
    → find_link code db.tables.links ≡ some l
    → (get_by_code code db).0 ≡ ok l
unfolding get_by_code statement select_link row_or_none found_link
get_by_code_found l code db quiet text p = rw (quiet, text, p) refl

find_link-here : (l : Link) (ls : List Link) → find_link l.code (l ∷ ls) ≡ some l
unfolding find_link
find_link-here l ls = rw (eq_refl l.code)

pub find_link-gone :
    (code : String) (ls : List Link)
    → find_link code (filter_by (λ l. if has_code code l then false else true) ls) ≡ none
unfolding find_link
find_link-gone code [] = refl
find_link-gone code (l ∷ ls) = elim (Bool-cases (str_eq l.code code)) [
  | inl same ↦ rw same (find_link-gone code ls)
  | inr other ↦ rw other (rw other (find_link-gone code ls))
]

abbrev without : String → Db → Db
without code db = record db {
  tables = record db.tables {
    links = filter_by (λ l. if has_code code l then false else true) db.tables.links;
  };
  trips = [];
}

-- While the server answers, a Create of a taken code answers ErrCodeExists and leaves the links
-- as they are, and that of a free code stores a row that GetByCode finds and gives its id and
-- time of creation; one whose code or URL has a NUL is refused and changes nothing.
pub create_outcome :
    (link : Link) (db : Db)
    → db.trips ≡ []
    → ((has_text link ≡ false)
        × ((create link db).0 ≡ err no_text)
        × ((create link db).1.tables ≡ db.tables))
      ⊎ (((taken : Link) × (find_link link.code db.tables.links ≡ some taken)
            × ((create link db).0 ≡ err (sentinel err_code_exists))
            × ((create link db).1.tables.links ≡ db.tables.links))
          ⊎ ((row : Link) × (find_link link.code db.tables.links ≡ none)
              × ((create link db).0
                  ≡ ok
                      (record row { expires_at = link.expires_at; click_count = link.click_count }))
              × (row.long_url ≡ link.long_url)
              × ((get_by_code link.code (create link db).1).0 ≡ ok row)))
create_outcome link db quiet = elim (Bool-cases (has_text link)) [
  | inr odd ↦
      inl (odd, rw (create_odd link db quiet odd) refl, rw (create_odd link db quiet odd) refl)
  | inl text ↦ inr (elim (Option-cases (find_link link.code db.tables.links)) [
    | inr (taken, p) ↦ inl (
      taken,
      p,
      rw (create_taken link taken db quiet text p) refl,
      rw (create_taken link taken db quiet text p) refl,
    )
    | inl absent ↦ inr (
      row_of link db,
      absent,
      rw (create_free link db quiet text absent) refl,
      refl,
      rw (create_free link db quiet text absent) (
          get_by_code_found (row_of link db) link.code _ refl (code-text link text)
            (find_link-here (row_of link db) db.tables.links)),
    )
  ])
]
