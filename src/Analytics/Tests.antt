-- ===== src/Analytics/Tests.antt =====
-- The consumer on one partition: two records, the first of them beside an error of the poll.
use shortn.Prelude.{
  is_text, ℕ, ◌<◌, ◌≡◌, refl, String, true, false, none, some, List, [], ◌∷◌, ◌==◌, arith, str_eq,
  eq_iff, if◌then◌else◌,
}
use shortn.Error.{message}
use shortn.Act.{Result, ok, err}
use shortn.Events.{LinkClicked}
use shortn.Store.{Tables, Db, statement, answered, broken, unanswered}
use shortn.Store.Analytics.{load_offset, select_offset, offset_or_none, loaded}
use shortn.Analytics.{Delivery, Poll, consume}
use shortn.Analytics.Assigned.{sought, on_assigned}
use shortn.Analytics.Exactly.{Log, next, IsExact}
use shortn.Analytics.Exactly.Skipped.{skipping, consume-skipping}

abbrev pub click : String → LinkClicked
click id = record {
  event_id = id;
  code = "a";
  timestamp = 5;
  referrer = "";
  user_agent = "";
  version = 1;
}

-- The value is the event id; an empty value is no JSON.
abbrev pub decode : String → Result LinkClicked
decode v = if str_eq v "" then err (message "json") else ok (click v)

abbrev pub log : Log
log p o = if p == 0 then (if o == 0 then some "x" else if o == 1 then some "y" else none) else none

abbrev pub empty : Tables
empty = record { links = []; next_id = 1; click_events = []; kafka_offsets = [] }

abbrev db : Db
db = record { tables = empty; clock = 9; trips = [] }

abbrev record_at : ℕ → String → Delivery
record_at o v = record { partition = 0; offset = o; value = v }

-- The commit of the second record takes effect, but its answer is lost.
abbrev pub cut_off : Db
cut_off = record db {
  trips =
      answered
      ∷ answered
      ∷ answered
      ∷ answered
      ∷ answered
      ∷ answered
      ∷ answered
      ∷ unanswered (broken "timeout")
      ∷ [];
}

abbrev pub polls : List Poll
polls =
    record { failed = false; records = record_at 0 "x" ∷ [] }
    ∷ record { failed = true; records = [] }
    ∷ record { failed = false; records = record_at 1 "y" ∷ [] }
    ∷ []

consume-skipping_example :
    let (r, db') = consume decode "g" "t" (skipping decode "g" "t" 0 0 "x" "y") db in
    (r ≡ ok tt) × (0 < next "g" "t" db'.tables 0) × ¬ IsExact decode "g" "t" log db'.tables
unfolding is_text
consume-skipping_example =
    consume-skipping decode "g" "t" log db 0 0 "x" "y" (click "x") (click "y") refl refl refl refl
      refl refl (λ h. ground (arith, eq_iff "y" "x"))

-- Partition 0 has been consumed up to offset 4, partition 1 never.
abbrev resumed : Db
resumed = record db {
  tables = record empty {
    kafka_offsets = record { group = "g"; topic = "t"; partition = 0; offset = 4 } ∷ [];
  };
}

on_assigned_test : (on_assigned "g" "t" (1 ∷ 0 ∷ []) resumed).0 ≡ (0, 4) ∷ []
unfolding on_assigned load_offset statement select_offset offset_or_none loaded sought
on_assigned_test = refl
