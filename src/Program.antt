-- ===== src/Program.antt =====
-- cmd/api/main.go: the wiring of the API program.
pub mod Lookup
pub mod Stack
pub mod Redirect
pub mod Writes
pub mod Creates
pub mod Deletes
pub mod Main
pub mod Tests
use shortn.Prelude.{ℕ, ◌*◌, String, Bool, Option}
use shortn.Prelude.Int.{ℤ}
use shortn.Act.{Result, Act}
use shortn.Redis.{Redis}
use shortn.Config.{Config}
use shortn.Events.{LinkClicked}
use shortn.Ratelimit.{Reply, allow}
use shortn.Idempotency
use shortn.Shortener.Url.{UrlLib}
use shortn.Api.{Request, Handler}
use shortn.Api.Middleware.{Tracing, client_ip}
use shortn.Api.Router.{RouterDeps}
use shortn.Shortener.{Time, Link, LinkStore, IdGenerator, Service}
use shortn.Store.{Db, within}
use shortn.Store.Analytics.{postgres}
use shortn.Resilience.{Any, Verdict, Settings, ResilientStore, new_resilient_store, resilient_store}
use shortn.Cache.{CachingStore, new_caching_store, caching_store}

-- time.Hour
abbrev pub cache_ttl : ℕ
cache_ttl = 60 * 60 * 1000

-- 2 seconds, in the unit of Time
abbrev pub request_timeout : ℕ
request_timeout = 2 * 1_000_000

-- 24 hours
abbrev pub idempotency_ttl : ℕ
idempotency_ttl = 24 * 60 * 60 * 1000

-- What the stores are made of: the pool's database in the world, gobreaker, backoff, the Redis
-- client, singleflight and the counter of hits and misses.
pub record Backends (W : Type 0) : Type 0 where
  pub db : W → Db
  pub put_db : Db → W → W
  pub new_circuit_breaker : Settings → Act W Any → Act W Any
  pub backoff_retry : ℕ → ℕ → (Any × W → Verdict × (Any × W)) → Act (Any × W) (Unit {0})
  pub rdb : Redis W
  pub flight : String → Act W Link → Act W Link
  pub count : Bool → W → W

module _ {W : Type 0} (b : Backends W) where
  -- store.New(pool)
  abbrev pub st : LinkStore W
  st = record {
    create = λ l. within b.db b.put_db (postgres.create l);
    get_by_code = λ code. within b.db b.put_db (postgres.get_by_code code);
    get_stats = λ code. within b.db b.put_db (postgres.get_stats code);
    list = λ limit offset. within b.db b.put_db (postgres.list limit offset);
    delete = λ code. within b.db b.put_db (postgres.delete code);
  }

  abbrev pub resilient : ResilientStore W
  resilient = new_resilient_store b.new_circuit_breaker b.backoff_retry st

  -- cachingStore
  abbrev pub caching : CachingStore W
  caching = new_caching_store b.flight b.count (resilient_store resilient) b.rdb cache_ttl

  -- svc
  abbrev pub svc : IdGenerator W → Service W
  svc gen = record { store = caching_store caching; idgen = gen }

-- What the router's handlers and middleware call: the URL library, the standard library's parsers,
-- the clock, the script of the limiter at a client's key, chi's answer where no route matches, and
-- OpenTelemetry's part.
pub record Edge (W : Type 0) : Type 0 where
  pub url_lib : UrlLib
  pub decode : String → Result String
  pub atoi : String → Option ℤ
  pub location : String → String
  pub event_id : W → String
  pub now : W → Time
  pub trim : String → String
  pub split_host_port : String → Result String
  pub run_bucket : ℤ → ℤ → String → Act W Reply
  pub tracing : Tracing W
  pub instrument : (Request → Handler W) → Request → Handler W
  pub unmatched : Request → Handler W

-- The argument of httpapi.NewRouter.
abbrev pub router_deps :
    {W : Type 0}
    → Edge W
    → Backends W
    → IdGenerator W
    → (LinkClicked → Act W (Unit {0}))
    → ℤ
    → ℤ
    → Config
    → RouterDeps W
router_deps {W} x b gen publish burst rps cfg =
    let idem : Idempotency.Store W = record { rdb = b.rdb; ttl = idempotency_ttl } in
    record {
      handler = record {
        svc = svc b gen;
        lib = x.url_lib;
        idem_get = Idempotency.get idem;
        idem_set = Idempotency.set idem;
        publish = publish;
        decode = x.decode;
        atoi = x.atoi;
        location = x.location;
        event_id = x.event_id;
        now = x.now;
      };
      allow = λ ip. allow (x.run_bucket burst rps ip);
      client = client_ip x.trim x.split_host_port;
      instance_id = cfg.instance_id;
      admin_key = cfg.admin_key;
      request_timeout = request_timeout;
      tracing = x.tracing;
      instrument = x.instrument;
      unmatched = x.unmatched;
    }
