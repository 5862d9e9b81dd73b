-- ===== src/Cache/Tests.antt =====
-- The cache over a small world: what Redis holds, and the URL that the source stores per code.
use shortn.Prelude.{
  String, ◌≡◌, ◌≢◌, refl, inl, ap, sym, ◌∙◌, Option, none, some, [], arith, str_eq, eq_iff, true,
  if◌then◌else◌,
}
use text.Mathlib.TextPositions.{eq_refl}
use shortn.Error.{GoError, sentinel, err_not_found, err_redis_nil, message}
use shortn.Act.{Result, ok, err}
use shortn.Redis.{Redis, RedisLaws}
use shortn.Shortener.{Link, LinkStore, draft}
use shortn.Cache.{CachingStore, tombstone, load_and_cache, create, get_by_code}
use shortn.Cache.Coherent.{IsCoherent, CacheEnv}
use shortn.Cache.Reads.{IsServed, get_by_code-IsServed}
use shortn.Cache.Writes.{WriteEnv, create-get_by_code_hidden}

abbrev pub Table : Type 0
Table = String → Option String

pub record World : Type 0 where
  cached : Table
  stored : Table

abbrev pub update : {A : Type 0} → (String → Option A) → String → Option A → String → Option A
update t k v j = if str_eq j k then v else t j

abbrev get_in : World → Option String → Result String × World
get_in w none = (err (sentinel err_redis_nil), w)
get_in w (some v) = (ok v, w)

abbrev redis : Redis World
redis = record {
  get = λ k w. get_in w (w.cached k);
  set = λ k v ttl w. (ok tt, record w { cached = update w.cached k (some v) });
  set_nx = λ k v ttl w. (ok true, record w { cached = update w.cached k (some v) });
  del = λ k w. (ok tt, record w { cached = update w.cached k none });
}

abbrev pub found_in : {W : Type 0} → String → W → Option String → Result Link × W
found_in code w none = (err (sentinel err_not_found), w)
found_in code w (some url) = (ok (draft code url), w)

abbrev source : LinkStore World
source = record {
  create =
      λ link w. (ok link, record w { stored = update w.stored link.code (some link.long_url) });
  get_by_code = λ code w. found_in code w (w.stored code);
  get_stats = λ code w. (err (message "unused"), w);
  list = λ limit offset w. (ok [], w);
  delete = λ code w. (ok tt, record w { stored = update w.stored code none });
}

abbrev pub store : CachingStore World
store = record {
  next = source;
  cache = redis;
  ttl = 3_600_000;
  flight = λ code load. load;
  count = λ hit w. w;
}

abbrev pub entry : World → Table
entry w = w.cached

abbrev pub stored : World → Table
stored w = w.stored

pub update_self :
    {A : Type 0} (t : String → Option A) (k : String) (v : Option A) → update t k v k ≡ v
update_self t k v = rw eq_refl

pub update_other :
    {A : Type 0} (t : String → Option A) (k j : String) (v : Option A)
    → j ≢ k
    → update t k v j ≡ t j
update_other t k j v other = ground (arith, eq_iff j k)

get_in_ok : (o : Option String) (w w' : World) (v : String) → get_in w o ≡ (ok v, w') → o ≡ some v
get_in_ok none w w' v e = cc
get_in_ok (some x) w w' v e = ground arith

get_in_world : (o : Option String) (w : World) → (get_in w o).1 ≡ w
get_in_world none w = refl
get_in_world (some x) w = refl

pub found_in_world :
    {W : Type 0} (code : String) (o : Option String) (w : W) → (found_in code w o).1 ≡ w
found_in_world code none w = refl
found_in_world code (some x) w = refl

redis_laws : RedisLaws redis entry
redis_laws = record {
  get_ok = λ k {v} {w} {w'} e. get_in_ok (w.cached k) w w' v e;
  get_keeps = λ k w j. inl (ap (λ (u : World). u.cached j) (get_in_world (w.cached k) w));
  set_writes = λ k v ttl w. inl (update_self w.cached k (some v));
  set_keeps = λ k v ttl w j other. inl (update_other w.cached k j (some v) other);
  del_ok = λ k {w} {w'} e.
      ap (λ (p : Result (Unit {0}) × World). p.1.cached k) (sym e) ∙ update_self w.cached k none;
  del_keeps = λ k w j. ground (arith, eq_iff j k);
}

found_in_ok :
    (code : String) (o : Option String) (w w' : World) (link : Link)
    → found_in code w o ≡ (ok link, w')
    → (o ≡ some link.long_url) × (link.code ≡ code)
found_in_ok code none w w' link e = cc
found_in_ok code (some url) w w' link e = ground arith

found_in_missing :
    (code : String) (o : Option String) (w w' : World) (e : GoError)
    → found_in code w o ≡ (err e, w')
    → o ≡ none
found_in_missing code none w w' e h = refl
found_in_missing code (some url) w w' e h = cc

pub env : CacheEnv store entry stored
env = record {
  redis = redis_laws;
  get_stored = λ k c w. ap (λ (u : World). u.stored c) (get_in_world (w.cached k) w);
  set_stored = λ k v ttl c w. refl;
  del_stored = λ k c w. refl;
  count_quiet = λ hit w. record { kept = λ c. refl; faded = λ k. inl refl };
  flight_runs = λ code load. refl;
  read_quiet = λ code w. record {
    kept = λ c. ap (λ (u : World). u.stored c) (found_in_world code (w.stored code) w);
    faded = λ k. inl (ap (λ (u : World). u.cached k) (found_in_world code (w.stored code) w));
  };
  read_found = λ code {link} {w} {w'} e. found_in_ok code (w.stored code) w w' link e;
  read_missing = λ code {w} {w'} {e} h absent. found_in_missing code (w.stored code) w w' e h;
}

write_env : WriteEnv store entry stored
write_env = record {
  reads = env;
  delete_entry = λ code w k. inl refl;
  delete_gone = λ code {w} {w'} e.
      ap (λ (p : Result (Unit {0}) × World). p.1.stored code) (sym e)
      ∙ update_self w.stored code none;
  delete_others = λ code c w other. update_other w.stored code c none other;
  create_entry = λ link w k. inl refl;
  create_stored = λ link {made} {w} {w'} e.
      ap (λ (p : Result Link × World). p.1.stored link.code) (sym e)
      ∙ update_self w.stored link.code (some link.long_url);
  create_others = λ link c w other. update_other w.stored link.code c (some link.long_url) other;
}

-- One link is stored and nothing is cached.
abbrev pub one_link : World
one_link = record {
  cached = λ k. none;
  stored = λ code. if str_eq code "a" then some "http://x" else none;
}

pub not_tombstone : ◌≢◌ {A = String} "http://x" tombstone
not_tombstone = ground (arith, eq_iff "http://x" tombstone)

pub one_link-IsCoherent : IsCoherent entry stored one_link
one_link-IsCoherent = record {
  agree = λ code v e. cc;
  real = λ code url e. ground (arith, not_tombstone);
}

-- A miss fills the cache, a negative lookup leaves a tombstone, and both are served again from it.
lookups_test :
    (get_by_code store "a" (get_by_code store "a" one_link).1
      ≡ (ok (draft "a" "http://x"), (get_by_code store "a" one_link).1))
    × ((get_by_code store "b" (get_by_code store "b" one_link).1).0 ≡ err (sentinel err_not_found))
    × (((get_by_code store "b" one_link).1).cached "link:b" ≡ some tombstone)
unfolding get_by_code load_and_cache
lookups_test = (refl, refl, refl)

get_by_code-IsServed_example :
    IsServed store entry stored "a" one_link
      (get_by_code store "a" one_link).0
      (get_by_code store "a" one_link).1
get_by_code-IsServed_example =
    get_by_code-IsServed store entry stored env "a" one_link one_link-IsCoherent

abbrev fresh : Link
fresh = draft "b" "http://x"

-- The world after a lookup of "b", which left a tombstone.
abbrev scanned : World
scanned = record one_link { cached = update one_link.cached "link:b" (some tombstone) }

hidden_test :
    (stored (create store fresh scanned).1 "b" ≡ some "http://x")
    × ((get_by_code store "b" (create store fresh scanned).1).0 ≡ err (sentinel err_not_found))
hidden_test =
    create-get_by_code_hidden store entry stored write_env fresh fresh scanned
      (create store fresh scanned).1 (create store fresh scanned).1 (unfold create in refl)
      (unfold create in refl)
