-- ===== src/Cache.antt =====
-- internal/cache: the Redis client (redis.go) and the read-through cache over a link store
-- (store.go). Logging is left out.
pub mod Coherent
pub mod Reads
pub mod Stale
pub mod Writes
pub mod Tests
use Prim.Native.String.{◌++◌}
use shortn.Prelude.{
  ℕ, ◌*◌, String, Bool, true, false, Option, none, some, List, str_eq, if◌then◌else◌,
}
use shortn.Prelude.Int.{ℤ}
use shortn.Error.{GoError, sentinel, err_not_found, err_redis_nil, errors_is}
use shortn.Act.{Result, ok, err, Act, pure, fail, lift, attempt, ◌>>=◌, ◌>>◌}
use shortn.Redis.{Redis}
use shortn.Shortener.{Link, Stats, LinkStore, draft}

-- "\x00notfound"
abbrev pub tombstone : String
tombstone = "\0notfound"

-- 30 seconds
abbrev pub negative_ttl : ℕ
negative_ttl = 30 * 1000

abbrev pub key : String → String
key code = "link:" ++ code

-- redis.go: Client.Get, a missing key is no error.
found_or_error : {W : Type 0} → Result String → Act W (Option String)
found_or_error (ok val) = pure (some val)
found_or_error (err e) = if errors_is e err_redis_nil then pure none else fail e

unfoldable pub client_get : {W : Type 0} → Redis W → String → Act W (Option String)
unfolding found_or_error
client_get rdb k = do reply ← attempt (rdb.get k); found_or_error reply

unfoldable pub client_set : {W : Type 0} → Redis W → String → String → ℕ → Act W (Unit {0})
client_set rdb k value ttl = rdb.set k value ttl

unfoldable pub client_del : {W : Type 0} → Redis W → String → Act W (Unit {0})
client_del rdb k = rdb.del k

-- CachingStore. `flight` is singleflight's Group.Do, `count` the counter of hits (true) and misses.
pub record CachingStore (W : Type 0) : Type 0 where
  pub next : LinkStore W
  pub cache : Redis W
  pub ttl : ℕ
  pub flight : String → Act W Link → Act W Link
  pub count : Bool → W → W

-- NewCachingStore; the flights and the counter are made by libraries.
abbrev pub new_caching_store :
    {W : Type 0}
    → (String → Act W Link → Act W Link)
    → (Bool → W → W)
    → LinkStore W
    → Redis W
    → ℕ
    → CachingStore W
new_caching_store flight count next cache ttl = record {
  next = next;
  cache = cache;
  ttl = ttl;
  flight = flight;
  count = count;
}

abbrev pub from_cached : String → String → Result Link
from_cached code val =
    if str_eq val tombstone then err (sentinel err_not_found) else ok (draft code val)

module _ {W : Type 0} (s : CachingStore W) where
  unfoldable pub create : Link → Act W Link
  create link = s.next.create link

  unfoldable pub get_stats : String → Act W Stats
  get_stats code = s.next.get_stats code

  unfoldable pub list : ℤ → ℤ → Act W (List Link)
  list limit offset = s.next.list limit offset

  -- The branches on the store's answer.
  pub remember : String → Result Link → Act W Link
  remember code (err e) =
      if errors_is e err_not_found
      then attempt (client_set s.cache (key code) tombstone negative_ttl)
        >> fail (sentinel err_not_found)
      else fail e
  remember code (ok link) = attempt (client_set s.cache (key code) link.long_url s.ttl) >> pure link

  unfoldable pub load_and_cache : String → Act W Link
  unfolding remember client_set
  load_and_cache code = do loaded ← attempt (s.next.get_by_code code); remember code loaded

  counted : Bool → Act W (Unit {0})
  counted hit w = (ok tt, s.count hit w)

  -- The branches on the cache's answer: a hit, and a miss or an error of Redis.
  serve : String → Result (Option String) → Act W Link
  serve code (ok (some val)) = counted true >> lift (from_cached code val)
  serve code (ok none) = counted false >> s.flight code (load_and_cache code)
  serve code (err e) = counted false >> s.flight code (load_and_cache code)

  unfoldable pub get_by_code : String → Act W Link
  unfolding serve counted client_get
  get_by_code code = do looked_up ← attempt (client_get s.cache (key code)); serve code looked_up

  unfoldable pub invalidate : String → Act W (Unit {0})
  unfolding client_del
  invalidate code = client_del s.cache (key code)

  -- The row first, then the cached entry; an error of the second is dropped.
  unfoldable pub delete : String → Act W (Unit {0})
  unfolding invalidate
  delete code = s.next.delete code >> (attempt (invalidate code) >> pure tt)

  unfoldable pub caching_store : LinkStore W
  unfolding create get_by_code get_stats list delete
  caching_store = record {
    create = create;
    get_by_code = get_by_code;
    get_stats = get_stats;
    list = list;
    delete = delete;
  }
