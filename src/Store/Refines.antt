-- ===== src/Store/Refines.antt =====
-- The links in Postgres as a map from codes to URLs: what Create, GetByCode and Delete mean for it, in
-- any order and whatever happens to their round trips.
pub mod Calls
pub mod Runs
use shortn.Prelude.{◌≡◌, String, is_text, Option, none, some, List, [], ◌∷◌, str_eq, if◌then◌else◌}
use shortn.Error.{GoError, sentinel, err_not_found, err_code_exists}
use shortn.Act.{Result, ok, err}
use shortn.Shortener.{Link}
use shortn.Store.{
  Tables, Trip, answered, lost, unanswered, net_error, Db, no_text, find_link, create, get_by_code,
  delete,
}
use shortn.Store.Outcomes.{has_text, url_of}

abbrev pub Urls : Type 0
Urls = String → Option String

abbrev pub set_url : Urls → String → Option String → Urls
set_url m code url c = if str_eq c code then url else m c

pub data Call : Type 0 where
  creates : Link → Call
  looks_up : String → Call
  deletes : String → Call

pub data Answer : Type 0 where
  linked : String → String → Answer
  done : Answer
  failed : GoError → Answer

-- What each call does to the map and answers.
abbrev pub claim : Link → Urls → Option String → Answer × Urls
claim link m none = (linked link.code link.long_url, set_url m link.code (some link.long_url))
claim link m (some url) = (failed (sentinel err_code_exists), m)

abbrev pub known : String → Option String → Answer
known code none = failed (sentinel err_not_found)
known code (some url) = linked code url

abbrev pub removed : Option String → Answer
removed none = failed (sentinel err_not_found)
removed (some url) = done

abbrev pub meant : Call → Urls → Answer × Urls
meant (creates link) m = if has_text link then claim link m (m link.code) else (failed no_text, m)
meant (looks_up code) m = if is_text code then (known code (m code), m) else (failed no_text, m)
meant (deletes code) m =
    if is_text code then (removed (m code), set_url m code none) else (failed no_text, m)

-- A round trip that fails hides the answer, and may hide that the call took effect.
abbrev pub over : Trip → Urls → Answer × Urls → Answer × Urls
over answered m out = out
over (lost n) m (a, m') = (failed (net_error n), m)
over (unanswered n) m (a, m') = (failed (net_error n), m')

abbrev pub next_trip : List Trip → Trip
next_trip [] = answered
next_trip (t ∷ ts) = t

abbrev pub later_trips : List Trip → List Trip
later_trips [] = []
later_trips (t ∷ ts) = ts

-- The answers that the map gives to calls, one after the other, and the map after them.
abbrev pub expected : List Call → List Trip → Urls → List Answer × Urls
expected [] trips m = ([], m)
expected (c ∷ cs) trips m =
    let (a, m') = over (next_trip trips) m (meant c m) in
    let (rest, m'') = expected cs (later_trips trips) m' in (a ∷ rest, m'')

-- The calls of the store.
abbrev pub linked_or : Result Link → Answer
linked_or (ok l) = linked l.code l.long_url
linked_or (err e) = failed e

abbrev pub done_or : Result (Unit {0}) → Answer
done_or (ok _) = done
done_or (err e) = failed e

abbrev pub perform : Call → Db → Answer × Db
perform (creates link) db = let (r, d) = create link db in (linked_or r, d)
perform (looks_up code) db = let (r, d) = get_by_code code db in (linked_or r, d)
perform (deletes code) db = let (r, d) = delete code db in (done_or r, d)

abbrev pub performed : List Call → Db → List Answer × Db
performed [] db = ([], db)
performed (c ∷ cs) db =
    let (a, d) = perform c db in let (rest, d') = performed cs d in (a ∷ rest, d')

-- The map that rows stand for, and that they hold the URLs of a map.
abbrev pub urls : Tables → Urls
urls t c = url_of (find_link c t.links)

abbrev pub Represents : Tables → Urls → Type 0
Represents t m = (c : String) → url_of (find_link c t.links) ≡ m c
