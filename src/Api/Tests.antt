-- ===== src/Api/Tests.antt =====
-- The API over a small world: one link, at "a", and a limiter that refuses one
-- address; and the list over Postgres.
use shortn.Shortener.{Link, draft, resolve}
use shortn.Shortener
use shortn.Store
use shortn.Store.{Db, Tables, statement, take, drop, place, newest_first, select_page}
use shortn.Store.Analytics.{postgres}
use shortn.Store.Order.{IsNewestFirst}
use shortn.Api.{write_json, links_body}
use shortn.Api.Links.{page_limit, page_offset, query_int, parsed_int, summary, listed, list_links}
use shortn.Api.Paging.{list_links-page}
use Prim.Native.String.{◌++◌}
use shortn.Prelude.{
  ℕ, ◌*◌, ◌≤◌, ◌≡◌, ◌⊎◌, refl, [], ◌∷◌, map, String, Bool, true, false, none, some, arith, str_eq,
  eq_iff, if◌then◌else◌,
}
use shortn.Prelude.Int.{pos}
use shortn.Error.{message}
use shortn.Act.{ok, err, Act}
use shortn.Shortener.Url.{UrlLib}
use shortn.Cache.{caching_store}
use shortn.Cache.Tests.{World, store, one_link}
use shortn.Api.{Request, write_error}
use shortn.Api.Links.{Deps}
use shortn.Api.Middleware.{client_ip}
use shortn.Api.Router.{get_code, delete_code, RouterDeps, pattern, grouped, new_router}
use shortn.Api.Guards.{deletes, new_router-unauthorized, LetsThrough, bounded, new_router-limiter}
use shortn.Api.ClientIp.{client_ip-append}

abbrev lib : UrlLib
lib = record {
  trim_space = λ s. s;
  to_lower = λ s. s;
  parse = λ s. err (message "parse");
  hostname = λ u. u.host;
  url_string = λ u. u.host;
  parse_ip = λ h. none;
}

abbrev handler : Deps World
handler = record {
  svc = record { store = caching_store store; idgen = record { generate = λ w. (ok "b", w) } };
  lib = lib;
  idem_get = λ k w. (ok none, w);
  idem_set = λ k c w. (ok true, w);
  publish = λ e w. (ok tt, w);
  decode = λ s. ok s;
  atoi = λ s. some (pos 7);
  location = λ url. url;
  event_id = λ w. "e";
  now = λ w. 5;
}

-- The limiter refuses the address 10.0.0.9 and fails at 10.0.0.8.
abbrev allow : String → Act World (Bool × ℕ)
allow ip w =
    if str_eq ip "10.0.0.9"
    then (ok (false, 1500), w)
    else if str_eq ip "10.0.0.8"
    then (err (message "down"), w)
    else (ok (true, 0), w)

abbrev deps : RouterDeps World
deps = record {
  handler = handler;
  allow = allow;
  client = λ r. r.remote_addr;
  instance_id = "i";
  admin_key = "secret";
  request_timeout = 2;
  tracing = record { has_labeler = λ w. true; add_route = λ p w. w; set_name = λ p w. w };
  instrument = λ next. next;
  unmatched = λ r w. (write_error 404 "404 page not found", w);
}

abbrev request_from : String → Request
request_from addr = record {
  path = "";
  deadline = none;
  tls = false;
  host = "s";
  remote_addr = addr;
  code = "a";
  body = "";
  limit = "";
  offset = "";
  idempotency_key = "";
  admin_key = "guess";
  forwarded_for = "";
  referer = "";
  user_agent = "";
}

new_router-unauthorized_example :
    let (a, w') = new_router deps (some delete_code) (request_from "x") one_link in
    ((a.status ≡ 401) ⊎ (a.status ≡ 429)) × (w' ≡ one_link)
unfolding pattern
new_router-unauthorized_example =
    new_router-unauthorized deps delete_code (request_from "x") one_link deletes
      (λ h. ground (arith, eq_iff "guess" "secret", h.1))

new_router-limiter_example :
    let (reply, u) = allow "10.0.0.9" one_link in
    let (a, v) = new_router deps (some get_code) (request_from "10.0.0.9") one_link in
    let (b, x) = grouped deps get_code (bounded deps (request_from "10.0.0.9") one_link) u in
    ((wait : ℕ) × (reply ≡ ok (false, wait))
      × (v ≡ u)
      × (a.status ≡ 429)
      × ((seconds : ℕ) × (a.retry_after ≡ some seconds) × (1 ≤ seconds) × (wait ≤ seconds * 1000)))
    ⊎ (LetsThrough reply × (a ≡ record b { served_by = some "i" }) × (v ≡ x))
unfolding pattern grouped
new_router-limiter_example = new_router-limiter deps get_code (request_from "10.0.0.9") one_link

-- The client claims another address; the proxy appends the one it saw.
client_ip-append_example :
    client_ip
      (λ s. s)
      (λ s. ok s)
      (record (request_from "10.0.0.1") {
        forwarded_for = "8.8.8.8, 9.9.9.9" ++ ("," ++ "10.0.0.7");
      })
    ≡ "10.0.0.7"
client_ip-append_example =
    client_ip-append (λ s. s) (λ s. ok s) (request_from "10.0.0.1") "8.8.8.8, 9.9.9.9" "10.0.0.7"
      (ground arith) (λ h. ground (arith, eq_iff "10.0.0.7" ""))

-- Two links in Postgres; the limit that is asked for is no number.
abbrev older : Link
older = record (draft "a" "http://x") { id = 1; created_at = 5 }

abbrev newer : Link
newer = record (draft "b" "http://y") { id = 2; created_at = 6 }

abbrev db : Db
db = record {
  tables = record {
    links = older ∷ newer ∷ [];
    next_id = 3;
    click_events = [];
    kafka_offsets = [];
  };
  clock = 7;
  trips = [];
}

abbrev over_postgres : Deps Db
over_postgres = record {
  svc = record { store = postgres; idgen = record { generate = λ d. (ok "c", d) } };
  lib = lib;
  idem_get = λ k d. (ok none, d);
  idem_set = λ k c d. (ok true, d);
  publish = λ e d. (ok tt, d);
  decode = λ s. ok s;
  atoi = λ s. none;
  location = λ url. url;
  event_id = λ d. "e";
  now = λ d. 5;
}

abbrev asking : Request
asking = record (request_from "x") { limit = "many" }

list_links_test :
    (list_links over_postgres asking db).0
    ≡ write_json 200
        (links_body (summary over_postgres asking newer ∷ summary over_postgres asking older ∷ []))
unfolding list_links listed page_limit page_offset query_int parsed_int Shortener.list postgres
    Store.list statement select_page newest_first place
list_links_test = refl

list_links-page_example :
    (limit offset : ℕ) × (1 ≤ limit)
    × (limit ≤ 100)
    × ((list_links over_postgres asking db).0
        ≡ write_json 200 (
            links_body (
              map
                (summary over_postgres asking)
                (take limit (drop offset (newest_first db.tables.links))))))
    × IsNewestFirst (take limit (drop offset (newest_first db.tables.links)))
list_links-page_example = list_links-page over_postgres asking db refl refl
