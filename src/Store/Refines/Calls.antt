-- ===== src/Store/Refines/Calls.antt =====
-- Each call of the store does to the rows what it means for the map.
use shortn.Prelude.{
  ℕ, ◌==◌, ◌≡◌, refl, sym, ap, ◌∙◌, inl, inr, String, is_text, true, false, none, some, List, [],
  ◌∷◌, arith, Bool-cases, Option-cases, str_eq, eq_iff, if◌then◌else◌,
}
use mathlib.Core.Path.{subst}
use shortn.Error.{sentinel, pg_code, err_not_found, err_code_exists, err_no_rows, errors_is}
use shortn.Act.{Result, ok, err, Outcome-cases}
use shortn.Shortener.{Link, Time}
use shortn.Store.{
  Tables, Trip, answered, lost, unanswered, NetError, broken, timed_out, net_error, Db, statement,
  find_link, insert_link, insert_into, select_link, row_or_none, delete_link, affected,
  is_unique_violation, created, found_link, create, get_by_code, delete,
}
use shortn.Store.Links.{find_link-gone}
use shortn.Store.Outcomes.{has_text, rest_of, find_link-rest_of, url_of, find_link-code}
use shortn.Store.Refines.{
  Urls, set_url, Call, creates, looks_up, deletes, Answer, linked, done, failed, meant, over,
  next_trip, later_trips, perform, Represents,
}

-- What a call answers and leaves is right for the map.
abbrev pub Follows : Answer × Db → Answer × Urls → List Trip → Type 0
Follows (a, d) (b, m) trips = (a ≡ b) × Represents d.tables m × (d.trips ≡ trips)

abbrev judged : {A : Type 0} → (Result A → Answer) → Result A × Db → Answer × Db
judged judge (r, d) = (judge r, d)

-- One statement, whose result `judge` turns into the answer of its call.
module _ {A : Type 0} (judge : Result A → Answer)
    (net : (n : NetError) → judge (err (net_error n)) ≡ failed (net_error n))
    (run : Time → Tables → Result A × Tables) where
  statement-on :
      (db : Db) (m : Urls) (b : Answer) (m' : Urls) (trips : List Trip)
      → db.trips ≡ trips
      → Represents db.tables m
      → judge (run db.clock db.tables).0 ≡ b
      → Represents (run db.clock db.tables).1 m'
      → Follows
          (judged judge (statement run db))
          (over (next_trip trips) m (b, m'))
          (later_trips trips)
  unfolding statement
  statement-on db m b m' [] q h p h' = rw q (p, h', refl)
  statement-on db m b m' (answered ∷ rest) q h p h' = rw q (p, h', refl)
  statement-on db m b m' (lost n ∷ rest) q h p h' = rw q (net n, h, refl)
  statement-on db m b m' (unanswered n ∷ rest) q h p h' = rw q (net n, h', refl)

abbrev insert_judge : Result Link → Answer
insert_judge (ok l) = linked l.code l.long_url
insert_judge (err e) =
    if is_unique_violation (pg_code e) then failed (sentinel err_code_exists) else failed e

abbrev select_judge : Result Link → Answer
select_judge (ok l) = linked l.code l.long_url
select_judge (err e) = if errors_is e err_no_rows then failed (sentinel err_not_found) else failed e

abbrev delete_judge : Result ℕ → Answer
delete_judge (ok rows) = if rows == 0 then failed (sentinel err_not_found) else done
delete_judge (err e) = failed e

insert_judge-net : (n : NetError) → insert_judge (err (net_error n)) ≡ failed (net_error n)
unfolding is_unique_violation
insert_judge-net (broken text) = refl
insert_judge-net timed_out = refl

select_judge-net : (n : NetError) → select_judge (err (net_error n)) ≡ failed (net_error n)
select_judge-net (broken text) = refl
select_judge-net timed_out = refl

create-judged :
    (link : Link) (db : Db)
    → perform (creates link) db ≡ judged insert_judge (statement (insert_link link) db)
unfolding create created
create-judged link db =
    let d = (statement (insert_link link) db).1 in
    elim (Outcome-cases (statement (insert_link link) db)) [
      | inl (made, p) ↦ rw p refl
      | inr (e, p) ↦ elim (Bool-cases (is_unique_violation (pg_code e))) [
        | inl clash ↦ rw (p, clash) refl
        | inr other ↦ rw (p, other) refl
      ]
    ]

get_by_code-judged :
    (code : String) (db : Db)
    → perform (looks_up code) db ≡ judged select_judge (statement (select_link code) db)
unfolding get_by_code found_link
get_by_code-judged code db = elim (Outcome-cases (statement (select_link code) db)) [
  | inl (l, p) ↦ rw p refl
  | inr (e, p) ↦ elim (Bool-cases (errors_is e err_no_rows)) [
    | inl absent ↦ rw (p, absent) refl
    | inr other ↦ rw (p, other) refl
  ]
]

delete-judged :
    (code : String) (db : Db)
    → perform (deletes code) db ≡ judged delete_judge (statement (delete_link code) db)
unfolding delete
delete-judged code db = elim (Outcome-cases (statement (delete_link code) db)) [
  | inl (rows, p) ↦ elim (Bool-cases (rows == 0)) [
    | inl nothing ↦ rw (p, nothing) refl
    | inr gone ↦ rw (p, gone) refl
  ]
  | inr (e, p) ↦ rw p refl
]

abbrev row_at : Link → Time → Tables → Link
row_at link now t = record link {
  id = t.next_id;
  created_at = now;
  expires_at = none;
  click_count = 0;
}

-- A row is put in front, and the rows of a code are dropped.
put-url :
    (code : String) (l : Link) (ls : List Link) (m : Urls)
    → l.code ≡ code
    → ((c : String) → url_of (find_link c ls) ≡ m c)
    → (c : String) → url_of (find_link c (l ∷ ls)) ≡ set_url m code (some l.long_url) c
unfolding find_link
put-url code l ls m same h c = elim (Bool-cases (str_eq c code)) [
  | inl here ↦
      let found : str_eq l.code c ≡ true = ground (arith, eq_iff c code, eq_iff l.code c) in
      rw (here, found) refl
  | inr other ↦
      let passed : str_eq l.code c ≡ false = ground (arith, eq_iff c code, eq_iff l.code c) in
      rw (other, passed) (h c)
]

rest-url :
    (code : String) (ls : List Link) (m : Urls)
    → ((c : String) → url_of (find_link c ls) ≡ m c)
    → (c : String) → url_of (find_link c (rest_of code ls)) ≡ set_url m code none c
rest-url code ls m h c = elim (Bool-cases (str_eq c code)) [
  | inl here ↦ rw here (
      ap (λ x. url_of (find_link x (rest_of code ls))) ((eq_iff c code).0 here)
      ∙ ap url_of (find_link-gone code ls))
  | inr other ↦ rw other (
      ap url_of (find_link-rest_of code c ls (λ e. absurd (let same = (eq_iff c code).1 e in cc)))
      ∙ h c)
]

insert-meant :
    (link : Link) (now : Time) (t : Tables) (m : Urls)
    → Represents t m
    → (insert_judge (insert_link link now t).0 ≡ (meant (creates link) m).0)
      × Represents (insert_link link now t).1 (meant (creates link) m).1
unfolding insert_link insert_into is_unique_violation find_link
insert-meant link now t m h = elim (Bool-cases (has_text link)) [
  | inr odd ↦ rw odd (refl, h)
  | inl text ↦ elim (Option-cases (find_link link.code t.links)) [
    | inr (l, p) ↦
        let there : m link.code ≡ some l.long_url = sym (h link.code) ∙ ap url_of p in
        rw (text, p, there) (refl, h)
    | inl p ↦
        let free : m link.code ≡ none = sym (h link.code) ∙ ap url_of p in
        rw (text, p, free) (refl, λ c. put-url link.code (row_at link now t) t.links m refl h c)
  ]
]

select-meant :
    (code : String) (now : Time) (t : Tables) (m : Urls)
    → Represents t m
    → (select_judge (select_link code now t).0 ≡ (meant (looks_up code) m).0)
      × Represents (select_link code now t).1 (meant (looks_up code) m).1
unfolding select_link row_or_none
select-meant code now t m h = elim (Bool-cases (is_text code)) [
  | inr odd ↦ rw odd (refl, h)
  | inl text ↦ elim (Option-cases (find_link code t.links)) [
    | inr (l, p) ↦
        let there : m code ≡ some l.long_url = sym (h code) ∙ ap url_of p in
        let same = find_link-code code t.links l p in
        rw (text, p, there) (ap (λ c. linked c l.long_url) same, h)
    | inl p ↦ let free : m code ≡ none = sym (h code) ∙ ap url_of p in rw (text, p, free) (refl, h)
  ]
]

delete-meant :
    (code : String) (now : Time) (t : Tables) (m : Urls)
    → Represents t m
    → (delete_judge (delete_link code now t).0 ≡ (meant (deletes code) m).0)
      × Represents (delete_link code now t).1 (meant (deletes code) m).1
unfolding delete_link affected
delete-meant code now t m h = elim (Bool-cases (is_text code)) [
  | inr odd ↦ rw odd (refl, h)
  | inl text ↦ elim (Option-cases (find_link code t.links)) [
    | inr (l, p) ↦
        let there : m code ≡ some l.long_url = sym (h code) ∙ ap url_of p in
        rw (text, p, there) (refl, λ c. rest-url code t.links m h c)
    | inl p ↦
        let free : m code ≡ none = sym (h code) ∙ ap url_of p in
        rw (text, p, free) (refl, λ c. rest-url code t.links m h c)
  ]
]

Follows-trans :
    (call : Call) (db : Db) (m : Urls) (x : Answer × Db)
    → perform call db ≡ x
    → Follows x (over (next_trip db.trips) m (meant call m)) (later_trips db.trips)
    → Follows (perform call db) (over (next_trip db.trips) m (meant call m)) (later_trips db.trips)
Follows-trans call db m x e h =
    subst (λ y. Follows y (over (next_trip db.trips) m (meant call m)) (later_trips db.trips))
      (sym e) h

-- One call.
pub perform-Follows :
    (call : Call) (db : Db) (m : Urls)
    → Represents db.tables m
    → Follows (perform call db) (over (next_trip db.trips) m (meant call m)) (later_trips db.trips)
perform-Follows (creates link) db m h =
    let (right, there) = insert-meant link db.clock db.tables m h in
    Follows-trans (creates link) db m _ (create-judged link db) (
      statement-on insert_judge insert_judge-net (insert_link link) db m (meant (creates link) m).0
        (meant (creates link) m).1 db.trips refl h right there)
perform-Follows (looks_up code) db m h =
    let (right, there) = select-meant code db.clock db.tables m h in
    Follows-trans (looks_up code) db m _ (get_by_code-judged code db) (
      statement-on select_judge select_judge-net (select_link code) db m (meant (looks_up code) m).0
        (meant (looks_up code) m).1 db.trips refl h right there)
perform-Follows (deletes code) db m h =
    let (right, there) = delete-meant code db.clock db.tables m h in
    Follows-trans (deletes code) db m _ (delete-judged code db) (
      statement-on delete_judge (λ n. refl) (delete_link code) db m (meant (deletes code) m).0
        (meant (deletes code) m).1 db.trips refl h right there)
