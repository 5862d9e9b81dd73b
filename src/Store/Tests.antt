-- ===== src/Store/Tests.antt =====
-- The store on a small table.
use mathlib.Core.List.{Perm}
use shortn.Prelude.{String, false, is_text, List, ◌≡◌, refl, ◌⊎◌, none, some, [], ◌∷◌, arith}
use shortn.Error.{sentinel, err_code_exists}
use shortn.Act.{ok, err}
use shortn.Shortener.{Link, Stats, draft}
use shortn.Events.{LinkClicked}
use shortn.Store.{no_text, Tables, Db, broken, unanswered, find_link, create, get_by_code}
use shortn.Store.Analytics.{get_stats}
use shortn.Store.Outcomes.{has_text}
use shortn.Store.Refines.{Call, creates, looks_up, deletes, performed, expected, urls}
use shortn.Store.Refines.Runs.{performed-expected}
use shortn.Store.Links.{create_outcome}
use shortn.Store.Order.{IsNewestFirst}
use shortn.Store.Pages.{read_pages, read_pages-all}
use shortn.Store.Statistics.{IsStatistic, get_stats-IsStatistic}

abbrev first : Link
first = record (draft "a" "http://x/") { id = 1 }

abbrev click : LinkClicked
click = record {
  event_id = "e";
  code = "a";
  timestamp = 7_200_000_001;
  referrer = "";
  user_agent = "";
  version = 1;
}

abbrev tables : Tables
tables = record { links = first ∷ []; next_id = 2; click_events = click ∷ []; kafka_offsets = [] }

abbrev db : Db
db = record { tables = tables; clock = 9; trips = [] }

-- The next answer does not arrive.
abbrev cut_off : Db
cut_off = record db { trips = unanswered (broken "timeout") ∷ [] }

-- A create without an answer, a lookup of its code, and two deletes.
abbrev several : List Call
several = creates (draft "b" "http://y/") ∷ looks_up "b" ∷ deletes "a" ∷ deletes "a" ∷ []

performed-expected_example :
    ((performed several cut_off).0 ≡ (expected several cut_off.trips (urls tables)).0)
    × ((c : String)
        → urls (performed several cut_off).1.tables c
          ≡ (expected several cut_off.trips (urls tables)).1 c)
performed-expected_example = performed-expected several cut_off

create_outcome_example :
    ((has_text (draft "a" "http://y/") ≡ false)
      × ((create (draft "a" "http://y/") db).0 ≡ err no_text)
      × ((create (draft "a" "http://y/") db).1.tables ≡ tables))
    ⊎ (((taken : Link) × (find_link "a" tables.links ≡ some taken)
          × ((create (draft "a" "http://y/") db).0 ≡ err (sentinel err_code_exists))
          × ((create (draft "a" "http://y/") db).1.tables.links ≡ tables.links))
        ⊎ ((row : Link) × (find_link "a" tables.links ≡ none)
            × ((create (draft "a" "http://y/") db).0
                ≡ ok (record row { expires_at = none; click_count = 0 }))
            × (row.long_url ≡ "http://y/")
            × ((get_by_code "a" (create (draft "a" "http://y/") db).1).0 ≡ ok row)))
create_outcome_example = create_outcome (draft "a" "http://y/") db refl

get_stats-IsStatistic_example :
    (s : Stats) × (get_stats "a" db ≡ (ok s, db)) × IsStatistic "a" (click ∷ []) s
unfolding is_text
get_stats-IsStatistic_example = get_stats-IsStatistic "a" db refl refl

read_pages-all_example :
    (all : List Link) × (read_pages 1 2 0 db ≡ (ok all, db))
    × Perm all db.tables.links
    × IsNewestFirst all
read_pages-all_example = read_pages-all 1 2 db refl (omega arith)
