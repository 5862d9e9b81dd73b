-- ===== src/Store/Statistics.antt =====
-- What GetStats computes from the click events.
use shortn.Prelude.{
  is_text, true, ℕ, ◌+◌, ◌<◌, ◌≡◌, refl, sym, ◌∙◌, String, ◌&&◌, List, [], ◌∷◌, ◌++◌, ◌==◌, arith,
  str_eq, if◌then◌else◌,
}
use mathlib.Core.List.{append-nil, append_assoc}
use shortn.Act.{ok}
use shortn.Shortener.{Time, ClickBucket, Stats}
use shortn.Events.{LinkClicked}
use shortn.Store.{Db, statement}
use shortn.Store.Analytics.{trunc_hour, count_row, group_hours, select_hours, sum_rows, get_stats}

-- The clicks of a code, in all and in one hour.
abbrev pub clicks : String → List LinkClicked → ℕ
clicks code [] = 0
clicks code (e ∷ es) = if str_eq e.code code then clicks code es + 1 else clicks code es

abbrev pub clicks_in : String → Time → List LinkClicked → ℕ
clicks_in code at [] = 0
clicks_in code at (e ∷ es) =
    if str_eq e.code code && trunc_hour e.timestamp == at
    then clicks_in code at es + 1
    else clicks_in code at es

abbrev pub count_in : Time → List ClickBucket → ℕ
count_in at [] = 0
count_in at (b ∷ bs) = if b.bucket == at then b.count + count_in at bs else count_in at bs

-- Each bucket is later than all before it.
abbrev pub Follow : Time → List ClickBucket → Type 0
Follow from [] = Unit
Follow from (b ∷ bs) = (from < b.bucket) × Follow b.bucket bs

abbrev pub IsAscending : List ClickBucket → Type 0
IsAscending [] = Unit
IsAscending (b ∷ bs) = Follow b.bucket bs

abbrev sum_counts : List ClickBucket → ℕ
sum_counts [] = 0
sum_counts (b ∷ bs) = b.count + sum_counts bs

count_row-Follow :
    (at from : Time) (bs : List ClickBucket)
    → from < at
    → Follow from bs
    → Follow from (count_row at bs)
unfolding count_row
count_row-Follow at from [] lt f = ground arith
count_row-Follow at from (b ∷ bs) lt (first, f) = ground (arith, count_row-Follow at b.bucket bs)

count_row-IsAscending :
    (at : Time) (bs : List ClickBucket) → IsAscending bs → IsAscending (count_row at bs)
unfolding count_row
count_row-IsAscending at [] f = ground arith
count_row-IsAscending at (b ∷ bs) f = ground (arith, count_row-Follow at b.bucket bs)

group_hours-IsAscending :
    (code : String) (es : List LinkClicked) → IsAscending (group_hours code es)
unfolding group_hours
group_hours-IsAscending code [] = tt
group_hours-IsAscending code (e ∷ es) = ground (
  arith,
  count_row-IsAscending (trunc_hour e.timestamp) (group_hours code es),
  group_hours-IsAscending code es,
)

sum_counts-count_row :
    (at : Time) (bs : List ClickBucket) → sum_counts (count_row at bs) ≡ sum_counts bs + 1
unfolding count_row
sum_counts-count_row at [] = refl
sum_counts-count_row at (b ∷ bs) = ground (arith, sum_counts-count_row at bs)

sum_counts-group_hours :
    (code : String) (es : List LinkClicked) → sum_counts (group_hours code es) ≡ clicks code es
unfolding group_hours
sum_counts-group_hours code [] = refl
sum_counts-group_hours code (e ∷ es) = ground (
  arith,
  sum_counts-count_row (trunc_hour e.timestamp) (group_hours code es),
  sum_counts-group_hours code es,
)

count_in-count_row :
    (at h : Time) (bs : List ClickBucket)
    → count_in h (count_row at bs) ≡ (if at == h then count_in h bs + 1 else count_in h bs)
unfolding count_row
count_in-count_row at h [] = ground arith
count_in-count_row at h (b ∷ bs) = ground (arith, count_in-count_row at h bs)

count_in-group_hours :
    (code : String) (h : Time) (es : List LinkClicked)
    → count_in h (group_hours code es) ≡ clicks_in code h es
unfolding group_hours
count_in-group_hours code h [] = refl
count_in-group_hours code h (e ∷ es) =
    let same = count_in-count_row (trunc_hour e.timestamp) h (group_hours code es) in
    let rest = count_in-group_hours code h es in ground (arith, same, rest)

sum_rows-total :
    (s : Stats) (bs : List ClickBucket) → (sum_rows s bs).total ≡ s.total + sum_counts bs
unfolding sum_rows
sum_rows-total s [] = omega arith
sum_rows-total s (b ∷ bs) = omega (
  arith,
  sum_rows-total (record s { total = s.total + b.count; series = s.series ++ (b ∷ []) }) bs,
)

sum_rows-series : (s : Stats) (bs : List ClickBucket) → (sum_rows s bs).series ≡ s.series ++ bs
unfolding sum_rows
sum_rows-series s [] = sym (append-nil s.series)
sum_rows-series s (b ∷ bs) =
    sum_rows-series (record s { total = s.total + b.count; series = s.series ++ (b ∷ []) }) bs
    ∙ append_assoc s.series (b ∷ []) bs

sum_rows-code : (s : Stats) (bs : List ClickBucket) → (sum_rows s bs).code ≡ s.code
unfolding sum_rows
sum_rows-code s [] = refl
sum_rows-code s (b ∷ bs) =
    sum_rows-code (record s { total = s.total + b.count; series = s.series ++ (b ∷ []) }) bs

-- The statistics of a code over these click events.
pub record IsStatistic (code : String) (es : List LinkClicked) (s : Stats) : Type 0 where
  pub named : s.code ≡ code
  pub total_all : s.total ≡ clicks code es
  pub ascending : IsAscending s.series
  pub per_hour : (h : Time) → count_in h s.series ≡ clicks_in code h es

-- While the server answers, GetStats of a code without a NUL returns every click of it in the
-- total, and in each hour of a strictly ascending series those of that hour.
pub get_stats-IsStatistic :
    (code : String) (db : Db)
    → db.trips ≡ []
    → is_text code ≡ true
    → (s : Stats) × (get_stats code db ≡ (ok s, db)) × IsStatistic code db.tables.click_events s
unfolding get_stats statement select_hours
get_stats-IsStatistic code db quiet text =
    let rows = group_hours code db.tables.click_events in
    let empty : Stats = record { code = code; total = 0; series = [] } in
    (
      sum_rows empty rows,
      rw (quiet, text) refl,
      record {
        named = sum_rows-code empty rows;
        total_all =
            omega (
              arith,
              sum_rows-total empty rows,
              sum_counts-group_hours code db.tables.click_events,
            );
        ascending =
            rw (sum_rows-series empty rows) (group_hours-IsAscending code db.tables.click_events);
        per_hour = λ h.
            rw (sum_rows-series empty rows) (count_in-group_hours code h db.tables.click_events);
      },
    )
