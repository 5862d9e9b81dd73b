-- ===== src/Cache/Stale/Runs.antt =====
-- Every step of a run keeps what Redis holds vouched for.
use shortn.Prelude.{
  ℕ, ◌+◌, ◌≤◌, ◌≡◌, ◌⊎◌, refl, sym, inl, inr, String, Bool-cases, Option, none, some, List, ◌∷◌,
  arith,
}
use mathlib.Core.Path.{subst}
use shortn.Error.{err_not_found, errors_is}
use shortn.Act.{outcome_snd, Result, ok, err}
use shortn.Shortener.{Link}
use shortn.Cache.{
  CachingStore, tombstone, negative_ttl, key, remember, client_set, client_del, create, delete,
  invalidate, load_and_cache,
}
use shortn.Cache.Reads.{Answers}
use shortn.Cache.Stale.{
  Entry, Flights, set_flight, Once, Step, looks_up, fills, gives_up, creates, removes, drops,
  checks, passes, Run, starts, then_step, IsTimely,
}
use shortn.Cache.Stale.Timely.{
  same-Timely, Ages-Timely, stays, without, arrives, looks_up-Timely, set-Timely,
}
use shortn.Cache.Stale.Laws.{IsWritten, StaleLaws, Once-mono}

module _ {W : Type 0} (s : CachingStore W) (held : W → String → Option Entry)
    (stored : W → String → Option String) (clock : W → ℕ) (delay : ℕ)
    (laws : StaleLaws s held stored clock) where
  -- A lookup that is not interrupted takes the two steps one after the other, and so does a
  -- delete of a row that is there.
  load_and_cache-steps :
      (code : String) (w : W)
      → let (r, v) = s.next.get_by_code code w in load_and_cache s code w ≡ remember s code r v
  unfolding load_and_cache
  load_and_cache-steps code w = refl

  delete-steps :
      (code : String) (w v : W)
      → s.next.delete code w ≡ (ok tt, v)
      → delete s code w ≡ (ok tt, (invalidate s code v).1)
  unfolding delete
  delete-steps code w v p = rw p refl

  fills-Timely :
      (past : List W) (flights flights' : Flights) (w w' : W) (code : String)
      (loaded r : Result Link) (since : ℕ)
      → ((name : String) → (flights' name ≡ flights name) ⊎ (flights' name ≡ none))
      → remember s code loaded w ≡ (r, w')
      → clock w' ≤ since + delay
      → Once (λ v. (clock v ≡ since) × Answers (stored v code) code loaded) past
      → IsTimely s held stored clock delay past flights w
      → IsTimely s held stored clock delay (w' ∷ past) flights' w'
  unfolding remember client_set
  fills-Timely past flights flights' w w' code (ok link) r since fewer p soon right t =
      set-Timely s held stored clock delay laws past flights flights' w w' code (some link.long_url)
        since fewer
        (subst (IsWritten held clock (key code) link.long_url s.ttl w) (outcome_snd p)
          (laws.set_sets (key code) link.long_url s.ttl w))
        soon (Once-mono past (λ v (then, both). (then, both.0)) right) t
  fills-Timely past flights flights' w w' code (err e) r since fewer p soon right t =
      elim (Bool-cases (errors_is e err_not_found)) [
        | inl absent ↦
            let q : (s.cache.set (key code) tombstone negative_ttl w).1 ≡ w' = ground arith in
            set-Timely s held stored clock delay laws past flights flights' w w' code none since
              fewer
              (subst (IsWritten held clock (key code) tombstone negative_ttl w) q
                (laws.set_sets (key code) tombstone negative_ttl w))
              soon (Once-mono past (λ v (then, missing). (then, missing absent)) right) t
        | inr other ↦
            let q : w ≡ w' = ground arith in
            Ages-Timely s held stored clock delay laws past flights flights' w w' fewer
              (stays s held stored clock delay laws w w' q) t
      ]

  Step-Timely :
      {past : List W} {w w' : W} {flights flights' : Flights}
      → Step s held stored clock delay w flights w' flights'
      → IsTimely s held stored clock delay past flights w
      → IsTimely s held stored clock delay (w' ∷ past) flights' w'
  unfolding create invalidate client_del
  Step-Timely {past} {w} {w'} {flights} {flights'} (looks_up name code r new p e) t =
      subst (λ g. IsTimely s held stored clock delay (w' ∷ past) g w') (sym e)
        (looks_up-Timely s held stored clock delay laws past flights w w' name code r p t)
  Step-Timely {past} {w} {w'} {flights} {flights'} (fills name f r there p soon e) t =
      subst (λ g. IsTimely s held stored clock delay (w' ∷ past) g w') (sym e)
        (fills-Timely past flights (set_flight flights name none) w w' f.code f.loaded r f.since
          (without s held stored clock delay laws flights name) p soon (t.flying name f there) t)
  Step-Timely {past} {w} {w'} {flights} {flights'} (gives_up name same e) t =
      subst (λ g. IsTimely s held stored clock delay (w' ∷ past) g w') (sym e)
        (Ages-Timely s held stored clock delay laws past flights (set_flight flights name none) w w'
          (without s held stored clock delay laws flights name)
          (stays s held stored clock delay laws w w' (sym same)) t)
  Step-Timely {past} {w} {w'} {flights} {flights'} (creates link r p e) t =
      same-Timely s held stored clock delay laws past flights flights' w w' e
        (arrives s held stored clock delay laws w w' p (laws.create_ages link w)) t
  Step-Timely {past} {w} {w'} {flights} {flights'} (removes code r p e) t =
      same-Timely s held stored clock delay laws past flights flights' w w' e
        (arrives s held stored clock delay laws w w' p (laws.delete_ages code w)) t
  Step-Timely {past} {w} {w'} {flights} {flights'} (drops code r p e) t =
      same-Timely s held stored clock delay laws past flights flights' w w' e
        (arrives s held stored clock delay laws w w' p (laws.del_ages (key code) w)) t
  Step-Timely {past} {w} {w'} {flights} {flights'} (checks code r p e) t =
      same-Timely s held stored clock delay laws past flights flights' w w' e
        (arrives s held stored clock delay laws w w' p (laws.get_ages (key code) w)) t
  Step-Timely {past} {w} {w'} {flights} {flights'} (passes a e) t =
      same-Timely s held stored clock delay laws past flights flights' w w' e a t

  pub Run-Timely :
      {past : List W} {w : W} {flights : Flights}
      → Run s held stored clock delay past flights w
      → IsTimely s held stored clock delay past flights w
  Run-Timely (starts empty idle) = record {
    flying = λ name f there. absurd (let no_one = idle name in cc);
    cached = λ code e there. absurd (let nothing = empty (key code) in cc);
  }
  Run-Timely (then_step run step) = Step-Timely step (Run-Timely run)
