-- ===== src/Store/Analytics.antt =====
-- internal/store/analytics.go: click events, committed offsets and click statistics. What runs in
-- the caller's transaction is a function on the tables of that transaction.
use shortn.Prelude.{
  ℕ, ◌+◌, ◌-◌, ◌%◌, String, Bool, true, false, ◌&&◌, Option, none, some, List, [], ◌∷◌, ◌++◌, ◌==◌,
  ltb, str_eq, is_text, if◌then◌else◌,
}
use shortn.Error.{sentinel, err_no_rows, errors_is}
use shortn.Act.{Result, ok, err, Act, pure, fail, attempt, ◌>>=◌}
use shortn.Shortener.{Time, ClickBucket, Stats, LinkStore}
use shortn.Events.{LinkClicked}
use shortn.Store.{no_text, OffsetRow, Tables, Db, statement, create, get_by_code, list, delete}

abbrev pub has_event : String → List LinkClicked → Bool
has_event id [] = false
has_event id (e ∷ es) = if str_eq e.event_id id then true else has_event id es

-- Whether the server takes the columns of a click as text; if not, it refuses the insert.
abbrev pub is_storable : LinkClicked → Bool
is_storable e =
    is_text e.event_id && (is_text e.code && (is_text e.referrer && is_text e.user_agent))

unfoldable pub accepted : LinkClicked → Result (Unit {0})
accepted e = if is_storable e then ok tt else err no_text

-- INSERT INTO click_events … ON CONFLICT (event_id) DO NOTHING
unfoldable pub insert_click : LinkClicked → Tables → Tables
insert_click e t =
    if has_event e.event_id t.click_events
    then t
    else record t { click_events = e ∷ t.click_events }

-- The primary key (consumer_group, topic, partition).
abbrev pub is_at : String → String → ℕ → OffsetRow → Bool
is_at group topic partition row =
    str_eq row.group group && (str_eq row.topic topic && row.partition == partition)

abbrev pub upsert : String → String → ℕ → ℕ → List OffsetRow → List OffsetRow
upsert group topic partition offset [] =
    record { group = group; topic = topic; partition = partition; offset = offset } ∷ []
upsert group topic partition offset (row ∷ rows) =
    if is_at group topic partition row
    then record row { offset = offset } ∷ rows
    else row ∷ upsert group topic partition offset rows

-- INSERT INTO kafka_offsets … ON CONFLICT … DO UPDATE SET "offset" = EXCLUDED."offset"
unfoldable pub save_offset : String → String → ℕ → ℕ → Tables → Tables
save_offset group topic partition offset t = record t {
  kafka_offsets = upsert group topic partition offset t.kafka_offsets;
}

abbrev pub find_offset : String → String → ℕ → List OffsetRow → Option ℕ
find_offset group topic partition [] = none
find_offset group topic partition (row ∷ rows) =
    if is_at group topic partition row
    then some row.offset
    else find_offset group topic partition rows

-- SELECT "offset" FROM kafka_offsets WHERE …
unfoldable pub offset_or_none : Option ℕ → Result ℕ
offset_or_none none = err (sentinel err_no_rows)
offset_or_none (some offset) = ok offset

unfoldable pub select_offset : String → String → ℕ → Time → Tables → Result ℕ × Tables
unfolding offset_or_none
select_offset group topic partition now t =
    (offset_or_none (find_offset group topic partition t.kafka_offsets), t)

-- LoadOffset: no row is no error.
unfoldable pub loaded : Result ℕ → Act Db (Option ℕ)
loaded (ok offset) = pure (some offset)
loaded (err e) = if errors_is e err_no_rows then pure none else fail e

unfoldable pub load_offset : String → String → ℕ → Act Db (Option ℕ)
unfolding statement select_offset loaded
load_offset group topic partition = do
  row ← attempt (statement (select_offset group topic partition))
  loaded row

-- date_trunc('hour', ts)
abbrev pub hour : ℕ
hour = 3_600_000_000

abbrev pub trunc_hour : Time → Time
trunc_hour ts = ts - ts % hour

-- GROUP BY bucket ORDER BY bucket: one more row of a bucket in the ordered groups.
unfoldable pub count_row : Time → List ClickBucket → List ClickBucket
count_row at [] = record { bucket = at; count = 1 } ∷ []
count_row at (b ∷ bs) =
    if ltb at b.bucket
    then record { bucket = at; count = 1 } ∷ b ∷ bs
    else if at == b.bucket
    then record b { count = b.count + 1 } ∷ bs
    else b ∷ count_row at bs

unfoldable pub group_hours : String → List LinkClicked → List ClickBucket
group_hours code [] = []
group_hours code (e ∷ es) =
    if str_eq e.code code
    then count_row (trunc_hour e.timestamp) (group_hours code es)
    else group_hours code es

unfoldable pub select_hours : String → Time → Tables → Result (List ClickBucket) × Tables
select_hours code now t =
    if is_text code then (ok (group_hours code t.click_events), t) else (err no_text, t)

-- The loop over the rows.
unfoldable pub sum_rows : Stats → List ClickBucket → Stats
sum_rows stats [] = stats
sum_rows stats (b ∷ bs) =
    sum_rows (record stats { total = stats.total + b.count; series = stats.series ++ (b ∷ []) }) bs

unfoldable pub get_stats : String → Act Db Stats
unfolding statement select_hours
get_stats code = do
  rows ← statement (select_hours code)
  pure (sum_rows (record { code = code; total = 0; series = [] }) rows)

-- *Postgres is a LinkStore.
unfoldable pub postgres : LinkStore Db
postgres = record {
  create = create;
  get_by_code = get_by_code;
  get_stats = get_stats;
  list = list;
  delete = delete;
}
