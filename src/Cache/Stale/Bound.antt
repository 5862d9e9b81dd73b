-- ===== src/Cache/Stale/Bound.antt =====
-- How old an answer of GetByCode can be.
use shortn.Prelude.{
  ℕ, ◌+◌, ◌≤◌, ◌≡◌, ◌≢◌, refl, sym, ap, ◌∙◌, inl, inr, String, false, Bool-cases, Option, none,
  some, List, All, arith, str_eq, eq_iff,
}
use mathlib.Core.Path.{subst}
use shortn.Error.{err_not_found, errors_is}
use shortn.Act.{outcome_fst, ok, err, Outcome-cases}
use shortn.Cache.{
  CachingStore, tombstone, negative_ttl, key, from_cached, load_and_cache, get_by_code,
}
use shortn.Cache.Coherent.{cached_value}
use shortn.Cache.Reads.{Answers, load_found, load_missing, load_failed, get_hit, get_miss}
use shortn.Cache.Stale.{Entry, Flights, Once, life, Run, starts, then_step, IsTimely, WasRight}
use shortn.Cache.Stale.Runs.{Run-Timely}
use shortn.Cache.Stale.Laws.{StaleLaws, Once-All}

module _ {value : String} {expires : ℕ} (bound ttl : ℕ) where
  -- An entry that is the tombstone, or is not, and vouches for what was found.
  vouched_missing :
      (found : Option String)
      → ((url : String) → found ≡ some url → url ≢ tombstone)
      → value ≡ cached_value found
      → expires ≤ bound + life ttl found
      → value ≡ tombstone
      → (found ≡ none) × (expires ≤ bound + negative_ttl)
  vouched_missing none real right late absent = (refl, late)
  vouched_missing (some url) real right late absent = absurd (real url refl (sym right ∙ absent))

  vouched_present :
      (found : Option String)
      → value ≡ cached_value found
      → expires ≤ bound + life ttl found
      → value ≢ tombstone
      → (found ≡ some value) × (expires ≤ bound + ttl)
  vouched_present none right late present = absurd (present right)
  vouched_present (some url) right late present = (ap some (sym right), late)

module _ {W : Type 0} (s : CachingStore W) (held : W → String → Option Entry)
    (stored : W → String → Option String) (clock : W → ℕ) (delay : ℕ)
    (laws : StaleLaws s held stored clock) where
  -- The present is the last of the worlds.
  run-Once :
      {past : List W} {w : W} {flights : Flights} (P : W → Type 0)
      → Run s held stored clock delay past flights w
      → P w
      → Once P past
  run-Once P (starts empty idle) h = inl h
  run-Once P (then_step run step) h = inl h

  hit-WasRight :
      {past : List W} {w : W} {flights : Flights} (code : String) (e : Entry)
      → All (λ v. (url : String) → stored v code ≡ some url → url ≢ tombstone) past
      → IsTimely s held stored clock delay past flights w
      → held w (key code) ≡ some e
      → WasRight s held stored clock delay past w code (from_cached code e.value)
  hit-WasRight {past} {w} code e real t there =
      let young = laws.alive (key code) w e there in
      elim (Bool-cases (str_eq e.value tombstone)) [
        | inl absent ↦ rw absent (λ _.
            Once-All past real
              (λ v genuine (value, expires).
                let (gone, bound) =
                  vouched_missing (clock v + delay) s.ttl (stored v code) genuine value expires
                    ((eq_iff e.value tombstone).0 absent) in
                (gone, omega (arith, young, bound)))
              (t.cached code e there))
        | inr present ↦ rw present (
          refl,
          Once-All past real
              (λ v genuine (value, expires).
                let (found, bound) =
                  vouched_present (clock v + delay) s.ttl (stored v code) value expires
                    (λ same. absurd (let other = (eq_iff e.value tombstone).1 same in cc)) in
                (found, omega (arith, young, bound)))
              (t.cached code e there),
        )
      ]

  -- The lookup of the store at the world w, which Redis did not answer.
  load-WasRight :
      {past : List W} {w : W} {flights : Flights} (code : String) (u : W)
      → Run s held stored clock delay past flights w
      → ((c : String) → stored u c ≡ stored w c)
      → WasRight s held stored clock delay past w code (load_and_cache s code u).0
  load-WasRight {past} {w} code u run kept =
      let v = (s.next.get_by_code code u).1 in
      let right : Answers (stored w code) code (s.next.get_by_code code u).0 =
        rw (sym (kept code)) (laws.read_answers code u) in
      elim (Outcome-cases (s.next.get_by_code code u)) [
        | inl (link, p) ↦
            let (found, same) : Answers (stored w code) code (ok link) =
              subst (Answers (stored w code) code) (outcome_fst p) right in
            rw (load_found s code link u v p) (
              same,
              run-Once
                  (λ z. (stored z code ≡ some link.long_url) × (clock w ≤ clock z + delay + s.ttl))
                  run (found, omega arith),
            )
        | inr (e, p) ↦
            let missing : Answers (stored w code) code (err e) =
              subst (Answers (stored w code) code) (outcome_fst p) right in
            elim (Bool-cases (errors_is e err_not_found)) [
              | inl absent ↦ rw (load_missing s code e u v p absent) (λ _.
                  run-Once
                    (λ z. (stored z code ≡ none) × (clock w ≤ clock z + delay + negative_ttl)) run
                    (missing absent, omega arith))
              | inr other ↦ rw (load_failed s code e u v p other) (λ h. cc)
            ]
      ]

  -- In a run of lookups, creates and deletes that interleave step by step, from an empty cache,
  -- the URL or ErrNotFound that GetByCode answers was right at a moment of the run, no longer
  -- ago than the TTL (negativeTTL for ErrNotFound) plus the longest time from a read of the
  -- store to its write to Redis; if no URL of the code is the tombstone, and no flight is
  -- shared.
  pub get_by_code-WasRight :
      {past : List W} {w : W} {flights : Flights} (code : String)
      → Run s held stored clock delay past flights w
      → All (λ v. (url : String) → stored v code ≡ some url → url ≢ tombstone) past
      → WasRight s held stored clock delay past w code (get_by_code s code w).0
  get_by_code-WasRight {past} {w} code run real =
      let v = (s.cache.get (key code) w).1 in
      elim (Outcome-cases (s.cache.get (key code) w)) [
        | inl (val, p) ↦
            let (e, there, same) = laws.get_ok (key code) p in
            rw (get_hit s code val w v p, sym same)
              (hit-WasRight code e real (Run-Timely s held stored clock delay laws run) there)
        | inr (e, p) ↦
            rw (get_miss s code e w v p, laws.flight_runs code (load_and_cache s code))
              (load-WasRight code (s.count false v) run
                (λ c. laws.count_stored false c v ∙ laws.get_stored (key code) c w))
      ]
