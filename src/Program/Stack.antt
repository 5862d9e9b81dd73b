-- ===== src/Program/Stack.antt =====
-- A lookup through the whole stack: the Redis cache, the circuit breaker with its retries, Postgres.
use shortn.Prelude.{
  ℕ, String, ◌≡◌, refl, sym, ap, ◌∙◌, inl, Bool, true, false, Option, none, some, arith,
}
use shortn.Error.{GoError, err_not_found, errors_is}
use shortn.Act.{outcome_fst, outcome_snd, Result, ok, err, Act}
use shortn.Redis.{RedisLaws}
use shortn.Prelude.Int.{pos}
use shortn.Shortener.{Link}
use shortn.Store.Analytics.{postgres}
use shortn.Store.{Tables, Db, find_link, get_by_code}
use shortn.Resilience.{Settings, settings, resilient_store}
use shortn.Resilience.Laws.{Phase, IsContextError, expired, cancelled, BreakerLaws, RetryLaws}
use shortn.Resilience.Tries.{Attempts, last, cut, again}
use shortn.Resilience.Reads.{IsRead, shed, tried, masked, reads-IsRead}
use shortn.Cache.Coherent.{IsQuiet, IsQuiet-trans, CacheEnv}
use shortn.Program.{Backends, st, resilient, caching}
use shortn.Store.Outcomes.{url_of}
use shortn.Program.Lookup.{stored_in, get_by_code-IsLookup, IsLookup-found, IsLookup-missing}

-- What the stack relies on. The database, Redis and the breaker's memory are apart: Quiet is what
-- the breaker and the pauses between tries may change.
pub record StackLaws {W : Type 0} (b : Backends W) (entry : W → String → Option String)
    (phase : W → Phase) : Type 0 where
  pub db_put : (d : Db) (w : W) → b.db (b.put_db d w) ≡ d
  pub entry_put : (d : Db) (w : W) (k : String) → entry (b.put_db d w) k ≡ entry w k
  pub breaker :
      (st : Settings)
      → BreakerLaws st (b.new_circuit_breaker st) phase (IsQuiet entry (λ w. stored_in (b.db w)))
  pub retries :
      (initial elapsed : ℕ)
      → RetryLaws (b.backoff_retry initial elapsed) (IsQuiet entry (λ w. stored_in (b.db w)))
  pub redis : RedisLaws b.rdb entry
  pub get_apart :
      (k c : String) (w : W) → stored_in (b.db (b.rdb.get k w).1) c ≡ stored_in (b.db w) c
  pub set_apart :
      (k v : String) (ttl : ℕ) (c : String) (w : W)
      → stored_in (b.db (b.rdb.set k v ttl w).1) c ≡ stored_in (b.db w) c
  pub del_apart :
      (k c : String) (w : W) → stored_in (b.db (b.rdb.del k w).1) c ≡ stored_in (b.db w) c
  pub count_quiet : (hit : Bool) (w : W) → IsQuiet entry (λ w. stored_in (b.db w)) w (b.count hit w)
  pub flight_runs : (code : String) (load : Act W Link) → b.flight code load ≡ load

module _ {W : Type 0} (b : Backends W) (entry : W → String → Option String) (phase : W → Phase)
    (laws : StackLaws b entry phase) where
  abbrev pub stored : W → String → Option String
  stored w = stored_in (b.db w)

  abbrev Quiet : W → W → Type 0
  Quiet = IsQuiet entry stored

  quiet_self : (w : W) → Quiet w w
  quiet_self w = record { kept = λ c. refl; faded = λ k. inl refl }

  st_quiet : (code : String) (w : W) → Quiet w ((st b).get_by_code code w).1
  unfolding postgres
  st_quiet code w = record {
    kept = λ c.
        ap (λ (d : Db). stored_in d c) (laws.db_put (get_by_code code (b.db w)).1 w)
        ∙ ap (λ (t : Tables). url_of (find_link c t.links)) (get_by_code-IsLookup code (b.db w)).1;
    faded = λ k. inl (laws.entry_put (get_by_code code (b.db w)).1 w k);
  }

  Attempts-quiet :
      (code : String) (r : Result Link) (w' : W) {w : W}
      → Attempts Quiet ((st b).get_by_code code) r w' w
      → Quiet w w'
  Attempts-quiet code r w' {w} (last p) = rw (outcome_snd p) at (st_quiet code w)
  Attempts-quiet code r w' {w} (cut e x u p odd quiet ended q) =
      IsQuiet-trans entry stored (rw (outcome_snd p) at (st_quiet code w)) quiet
  Attempts-quiet code r w' {w} (again e u v p odd quiet rest) =
      IsQuiet-trans entry stored
        (IsQuiet-trans entry stored (rw (outcome_snd p) at (st_quiet code w)) quiet)
        (Attempts-quiet code r w' rest)

  -- What the tries answer is what the row says from the start.
  Attempts-found :
      (code : String) (l : Link) (w' : W) {w : W}
      → Attempts Quiet ((st b).get_by_code code) (ok l) w' w
      → (stored w code ≡ some l.long_url) × (l.code ≡ code)
  unfolding postgres
  Attempts-found code l w' {w} (last p) =
      IsLookup-found code (b.db w) l _ (outcome_fst p) (get_by_code-IsLookup code (b.db w)).0
  Attempts-found code l w' {w} (cut e x u p odd quiet ended q) = cc
  Attempts-found code l w' {w} (again e u v p odd quiet rest) =
      let (found, same) = Attempts-found code l w' rest in
      let before : Quiet w u = rw (outcome_snd p) at (st_quiet code w) in
      (sym (before.kept code) ∙ sym (quiet.kept code) ∙ found, same)

  context_error : (e : GoError) → IsContextError e → errors_is e err_not_found ≡ false
  context_error e (expired p) = rw p refl
  context_error e (cancelled p) = rw p refl

  Attempts-missing :
      (code : String) (r : Result Link) (e : GoError) (w' : W) {w : W}
      → r ≡ err e
      → errors_is e err_not_found ≡ true
      → Attempts Quiet ((st b).get_by_code code) r w' w
      → stored w code ≡ none
  unfolding postgres
  Attempts-missing code r e w' {w} f h (last p) =
      IsLookup-missing code (b.db w) e _ (outcome_fst p ∙ f) h
        (get_by_code-IsLookup code (b.db w)).0
  Attempts-missing code r e w' {w} f h (cut d x u p odd quiet ended q) =
      absurd (let k = sym f ∙ q in ground (arith, k, context_error x ended))
  Attempts-missing code r e w' {w} f h (again d u v p odd quiet rest) =
      let before : Quiet w u = rw (outcome_snd p) at (st_quiet code w) in
      sym (before.kept code) ∙ sym (quiet.kept code) ∙ Attempts-missing code r e w' f h rest

  read_quiet :
      (code : String) (w : W) (r : Result Link) (w' : W)
      → IsRead Quiet ((st b).get_by_code code) w r w'
      → Quiet w w'
  read_quiet code w r w' (shed e q) = q
  read_quiet code w r w' (tried u a own q) =
      IsQuiet-trans entry stored (Attempts-quiet code r u a) q
  read_quiet code w r w' (masked e u a own f q) =
      IsQuiet-trans entry stored (Attempts-quiet code (err e) u a) q

  read_found :
      (code : String) (w : W) (l : Link) (r : Result Link) (w' : W)
      → r ≡ ok l
      → IsRead Quiet ((st b).get_by_code code) w r w'
      → (stored w code ≡ some l.long_url) × (l.code ≡ code)
  read_found code w l r w' e (shed f q) = absurd (let k = sym e ∙ f in cc)
  read_found code w l r w' e (tried u a own q) = Attempts-found code l u (rw e at a)
  read_found code w l r w' e (masked x u a own f q) = absurd (let k = sym e ∙ f in cc)

  read_missing :
      (code : String) (w : W) (e : GoError) (r : Result Link) (w' : W)
      → r ≡ err e
      → errors_is e err_not_found ≡ true
      → IsRead Quiet ((st b).get_by_code code) w r w'
      → stored w code ≡ none
  read_missing code w e r w' p h (shed f q) = absurd (let k = sym p ∙ f in ground (arith, k, h))
  read_missing code w e r w' p h (tried u a own q) = Attempts-missing code r e u p h a
  read_missing code w e r w' p h (masked x u a own f q) =
      absurd (let k = sym p ∙ f in ground (arith, k, h))

  resilient-IsRead :
      (code : String) (w : W)
      → IsRead Quiet
          ((st b).get_by_code code)
          w
          ((resilient_store (resilient b)).get_by_code code w).0
          ((resilient_store (resilient b)).get_by_code code w).1
  unfolding resilient_store
  resilient-IsRead code w =
      (reads-IsRead Quiet (resilient b) phase (laws.breaker settings) (laws.retries 20 300) code
        (pos 0) (pos 0) w).0

  -- The stack below the cache is what the cache relies on.
  pub caching-env : CacheEnv (caching b) entry stored
  caching-env = record {
    redis = laws.redis;
    get_stored = laws.get_apart;
    set_stored = laws.set_apart;
    del_stored = laws.del_apart;
    count_quiet = laws.count_quiet;
    flight_runs = laws.flight_runs;
    read_quiet = λ code w. read_quiet code w _ _ (resilient-IsRead code w);
    read_found = λ code {link} {w} {w'} e.
        read_found code w link _ _ (outcome_fst e) (resilient-IsRead code w);
    read_missing = λ code {w} {w'} {e} p h.
        read_missing code w e _ _ (outcome_fst p) h (resilient-IsRead code w);
  }
