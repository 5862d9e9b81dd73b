-- ===== src/Program/Tests.antt =====
-- The stack over one link in Postgres, with a Redis and a breaker that work.
use shortn.Prelude.{
  is_text, String, ◌≡◌, ◌≢◌, ◌⊎◌, refl, sym, ◌∙◌, false, true, inl, ap, none, some, [], ◌∷◌, arith,
  eq_iff,
}
use shortn.Prelude.Int.{pos}
use shortn.Error.{message}
use shortn.Act.{ok, err, Act}
use shortn.Events.{LinkClicked}
use shortn.Config.{Config}
use shortn.Shortener.{Link, draft, IdGenerator}
use shortn.Cache.{tombstone}
use shortn.Shortener.Url.{UrlLib}
use shortn.Store.{Db, find_link}
use shortn.Resilience.Laws.{Phase, closed}
use shortn.Resilience.Example.{retry, retry_laws, cb, breaker_laws}
use shortn.Redis.Example.{Table, redis, get_world, redis_laws}
use shortn.Cache.Coherent.{IsQuiet, IsCoherent}
use shortn.Api.{Request, write_error}
use shortn.Api.Links.{Deps, redirect}
use shortn.Api.Router.{get_code, new_router}
use shortn.Api.Redirects.{IsRedirect}
use shortn.Program.{Edge, router_deps, Backends}
use shortn.Program.Lookup.{stored_in}
use shortn.Program.Stack.{StackLaws, stored}
use shortn.Program.Redirect.{IsUp, get_code-IsRedirect, redirect-answers}

pub record World : Type 0 where
  pub db : Db
  pub cached : Table
  pub phase : Phase

abbrev set_cached : Table → World → World
set_cached t w = record w { cached = t }

abbrev pub cached : World → Table
cached w = w.cached

abbrev pub phase : World → Phase
phase w = w.phase

abbrev set_phase : Phase → World → World
set_phase p w = record w { phase = p }

abbrev pub backends : Backends World
backends = record {
  db = λ w. w.db;
  put_db = λ d w. record w { db = d };
  new_circuit_breaker = λ st. cb phase set_phase st;
  backoff_retry = λ initial elapsed. retry;
  rdb = redis cached set_cached;
  flight = λ code load. load;
  count = λ hit w. w;
}

abbrev Quiet : World → World → Type 0
Quiet = IsQuiet cached (λ w. stored_in w.db)

pub self : (w : World) → Quiet w w
self w = record { kept = λ c. refl; faded = λ k. inl refl }

pub laws : StackLaws backends cached phase
laws = record {
  db_put = λ d w. refl;
  entry_put = λ d w k. refl;
  breaker = λ st.
      breaker_laws phase set_phase st Quiet self
        (λ p w. record { kept = λ c. refl; faded = λ k. inl refl }) (λ p w. refl);
  retries = λ initial elapsed. retry_laws Quiet self;
  redis = redis_laws cached set_cached (λ t w. refl);
  get_apart = λ k c w. ap (λ (u : World). stored_in u.db c) (get_world cached set_cached k w);
  set_apart = λ k v ttl c w. refl;
  del_apart = λ k c w. refl;
  count_quiet = λ hit w. self w;
  flight_runs = λ code load. refl;
}

abbrev one : Link
one = record (draft "a" "http://x") { id = 1; created_at = 5 }

abbrev pub start : World
start = record {
  db = record {
    tables = record { links = one ∷ []; next_id = 2; click_events = []; kafka_offsets = [] };
    clock = 7;
    trips = [];
  };
  cached = λ k. none;
  phase = closed 2;
}

stored_url : (code url : String) → stored_in start.db code ≡ some url → url ≡ "http://x"
unfolding find_link
stored_url code url e = ground (arith, e)

pub real_url : ◌≢◌ {A = String} "http://x" tombstone
real_url = ground (arith, eq_iff "http://x" tombstone)

pub coherent : IsCoherent cached (stored backends cached phase laws) start
coherent = record {
  agree = λ code v e. cc;
  real = λ code url e f. real_url (sym (stored_url code url e) ∙ f);
}

abbrev lib : UrlLib
lib = record {
  trim_space = λ s. s;
  to_lower = λ s. s;
  parse = λ s. err (message "parse");
  hostname = λ u. u.host;
  url_string = λ u. u.host;
  parse_ip = λ h. none;
}

abbrev pub gen : IdGenerator World
gen = record { generate = λ w. (ok "b", w) }

abbrev edge : Edge World
edge = record {
  url_lib = lib;
  decode = λ s. ok s;
  atoi = λ s. none;
  location = λ url. url;
  event_id = λ w. "e";
  now = λ w. 5;
  trim = λ s. s;
  split_host_port = λ s. ok s;
  run_bucket = λ burst rps ip w. (ok (record { allowed = 1; retry_ms = 0 }), w);
  tracing = record { has_labeler = λ w. true; add_route = λ p w. w; set_name = λ p w. w };
  instrument = λ next. next;
  unmatched = λ r w. (write_error 404 "404 page not found", w);
}

abbrev cfg : Config
cfg = record {
  port = "8080";
  log_level = "info";
  env = "dev";
  database_url = "";
  redis_url = "";
  worker_id = "7";
  instance_id = "pod-1";
  sqids_alphabet = "";
  kafka_brokers = "";
  kafka_topic = "";
  kafka_group = "";
  rate_limit_rps = "10";
  rate_limit_burst = "20";
  otel_endpoint = "";
  admin_key = "";
  ops_port = "9090";
}

abbrev pub publish : LinkClicked → Act World (Unit {0})
publish e w = (ok tt, w)

abbrev pub handler : Deps World
handler = (router_deps edge backends gen publish (pos 20) (pos 10) cfg).handler

abbrev pub follow : Request
follow = record {
  path = "";
  deadline = none;
  tls = false;
  host = "s";
  remote_addr = "10.0.0.1";
  code = "a";
  body = "";
  limit = "";
  offset = "";
  idempotency_key = "";
  admin_key = "";
  forwarded_for = "";
  referer = "";
  user_agent = "";
}

get_code-IsRedirect_example :
    ((new_router
        (router_deps edge backends gen publish (pos 20) (pos 10) cfg)
        (some get_code)
        follow
        start).0.status
      ≡ 429)
    ⊎ IsRedirect
        (λ url. url)
        (stored_in start.db "a")
        (new_router
          (router_deps edge backends gen publish (pos 20) (pos 10) cfg)
          (some get_code)
          follow
          start).0
get_code-IsRedirect_example =
    get_code-IsRedirect backends cached phase laws edge gen publish (pos 20) (pos 10) cfg follow
      start coherent (self start)

pub get-IsUp :
    (k : String) (w : World)
    → IsUp backends phase w
    → IsUp backends phase ((redis cached set_cached).get k w).1
get-IsUp k w up = rw (get_world cached set_cached k w) up

redirect-answers_example :
    ((url : String) × (stored_in start.db "a" ≡ some url)
      × ((redirect handler follow start).0.status ≡ 302)
      × ((redirect handler follow start).0.location ≡ some url))
    ⊎ ((stored_in start.db "a" ≡ none) × ((redirect handler follow start).0.status ≡ 404))
unfolding is_text
redirect-answers_example =
    redirect-answers backends cached phase laws get-IsUp (λ hit w up. up) handler gen follow start
      refl coherent (record { failures = 2; is_closed = refl; answers = refl }) refl
