-- ===== src/Api/Idempotent/Tests.antt =====
-- Two creates of one key over a world of keys that are taken; every create draws the same code.
use shortn.Prelude.{
  String, ◌≡◌, ◌≢◌, refl, ◌∙◌, sym, ap, Option, none, some, [], arith, Bool-cases, str_eq, eq_iff,
  inl, inr, if◌then◌else◌, true, false, Bool,
}
use text.Mathlib.TextPositions.{eq_refl}
use shortn.Error.{GoError, errors_is, sentinel, err_redis_nil, message}
use shortn.Act.{Result, ok, err}
use shortn.Redis.{Redis}
use shortn.Shortener.{Link, draft, resolve, create, create_loop}
use shortn.Shortener.Url.{UrlLib, Url, normalize_url}
use shortn.Idempotency.{Store, recorded, get, set}
use shortn.Api.{Request, Response}
use shortn.Api.Links.{
  Deps, write_created_link, replayed, respond_with_code, claimed, made, make_link, looked_up,
  decoded, create_link,
}
use shortn.Api.Told.{told_code}
use shortn.Api.Idempotent.{wired, IdemEnv, create_link-same_code}

abbrev Table : Type 0
Table = String → Option String

abbrev update : Table → String → String → Table
update t k v j = if str_eq j k then some v else t j

abbrev get_in : Table → Option String → Result String × Table
get_in t none = (err (sentinel err_redis_nil), t)
get_in t (some v) = (ok v, t)

abbrev claim_in : Table → String → String → Option String → Result Bool × Table
claim_in t k v none = (ok true, update t k v)
claim_in t k v (some u) = (ok false, t)

abbrev rdb : Redis Table
rdb = record {
  get = λ k t. get_in t (t k);
  set = λ k v ttl t. (ok tt, update t k v);
  set_nx = λ k v ttl t. claim_in t k v (t k);
  del = λ k t. (ok tt, t);
}

abbrev idem : Store Table
idem = record { rdb = rdb; ttl = 1000 }

abbrev page : Url
page = record { scheme = "http"; host = "a"; rest = "" }

abbrev lib : UrlLib
lib = record {
  trim_space = λ s. "a";
  to_lower = λ s. s;
  parse = λ s. ok page;
  hostname = λ u. u.host;
  url_string = λ u. "http://a";
  parse_ip = λ h. none;
}

abbrev handler : Deps Table
handler = record {
  svc = record {
    store = record {
      create = λ link t. (ok link, t);
      get_by_code = λ code t. (ok (draft code "http://a"), t);
      get_stats = λ code t. (err (message "unused"), t);
      list = λ limit offset t. (ok [], t);
      delete = λ code t. (ok tt, t);
    };
    idgen = record { generate = λ t. (ok "b", t) };
  };
  lib = lib;
  idem_get = λ k t. (ok none, t);
  idem_set = λ k c t. (ok true, t);
  publish = λ e t. (ok tt, t);
  decode = λ s. ok s;
  atoi = λ s. none;
  location = λ url. url;
  event_id = λ t. "e";
  now = λ t. 5;
}

abbrev entry : Table → String → Option String
entry t = t

abbrev is_nil : Result String → Bool
is_nil (ok v) = true
is_nil (err e) = errors_is e err_redis_nil

abbrev code_in : String → Result Link → String
code_in code (ok link) = link.code
code_in code (err e) = code

get_in_world : (o : Option String) (t : Table) → (get_in t o).1 ≡ t
get_in_world none t = refl
get_in_world (some v) t = refl

get_in_ok :
    (o : Option String) (t u : Table) (v : String) → get_in t o ≡ (ok v, u) → (o ≡ some v) × (t ≡ u)
get_in_ok none t u v p = cc
get_in_ok (some x) t u v p = ground arith

get_in_nil :
    (o : Option String) (t u : Table) (e : GoError)
    → get_in t o ≡ (err e, u)
    → (o ≡ none) × (errors_is e err_redis_nil ≡ true)
get_in_nil none t u e p = (refl, ap (λ (r : Result String × Table). is_nil r.0) (sym p))
get_in_nil (some x) t u e p = cc

claim_keeps :
    (o : Option String) (t : Table) (k v j x : String)
    → t k ≡ o
    → t j ≡ some x
    → (claim_in t k v o).1 j ≡ some x
claim_keeps none t k v j x free taken = elim (Bool-cases (str_eq j k)) [
  | inl same ↦ absurd (let e = (eq_iff j k).0 same in cc)
  | inr other ↦ rw other taken
]
claim_keeps (some u) t k v j x free taken = taken

claim_won :
    (o : Option String) (t u : Table) (k v : String)
    → claim_in t k v o ≡ (ok true, u)
    → u k ≡ some v
claim_won none t u k v p = ap (λ (r : Result Bool × Table). r.1 k) (sym p) ∙ rw (eq_refl k)
claim_won (some x) t u k v p = cc

claim_lost :
    (o : Option String) (t u : Table) (k v : String)
    → t k ≡ o
    → claim_in t k v o ≡ (ok false, u)
    → (x : String) × (u k ≡ some x)
claim_lost none t u k v free p = cc
claim_lost (some x) t u k v free p = (x, ap (λ (r : Result Bool × Table). r.1 k) (sym p) ∙ free)

claim_answers :
    (o : Option String) (t u : Table) (k v : String) (e : GoError) → claim_in t k v o ≢ (err e, u)
claim_answers none t u k v e p = cc
claim_answers (some x) t u k v e p = cc

create_world : (url : String) (t : Table) → (create handler.svc lib url t).1 ≡ t
unfolding create create_loop normalize_url
create_world url t = refl

code_same :
    (code : String) (link : Link) (t u : Table)
    → ◌≡◌ {A = Result Link × Table} (ok (draft code "http://a"), t) (ok link, u)
    → link.code ≡ code
code_same code link t u p = ap (λ (r : Result Link × Table). code_in code r.0) (sym p)

env : IdemEnv handler idem entry
unfolding resolve
env = record {
  get_keeps = λ k t j v taken. ap (λ (u : Table). u j) (get_in_world (t k) t) ∙ taken;
  get_ok = λ k {v} {w} {w'} p.
      (let (a, b) = get_in_ok (w k) w w' v p in ap (λ (u : Table). u k) (sym b) ∙ a);
  get_taken = λ k {v} {e} {w} {w'} p taken. absurd (let a = (get_in_nil (w k) w w' e p).0 in cc);
  get_nil = λ k {e} {w} {w'} p. (get_in_nil (w k) w w' e p).1;
  set_keeps = λ k v t j x taken. claim_keeps (t k) t k v j x refl taken;
  set_won = λ k v {w} {w'} p. claim_won (w k) w w' k v p;
  set_lost = λ k v {w} {w'} p. claim_lost (w k) w w' k v refl p;
  set_answers = λ k v {e} {w} {w'} p. claim_answers (w k) w w' k v e p;
  create_keeps = λ url t k v taken. ap (λ (u : Table). u k) (create_world url t) ∙ taken;
  resolve_keeps = λ code t k v taken. taken;
  resolve_code = λ code link t u p. code_same code link t u p;
}

abbrev request_of : String → Request
request_of url = record {
  path = "";
  deadline = none;
  tls = false;
  host = "s";
  remote_addr = "x";
  code = "";
  body = url;
  limit = "";
  offset = "";
  idempotency_key = "key";
  admin_key = "";
  forwarded_for = "";
  referer = "";
  user_agent = "";
}

abbrev empty : Table
empty k = none

-- What the first request leaves.
abbrev claimed_table : Table
claimed_table = update empty "idempo:key" "b"

first_test :
    create_link (wired handler idem) (request_of "u") empty
    ≡ (write_created_link (request_of "u") (draft "b" "http://a"), claimed_table)
unfolding create_link decoded looked_up make_link made claimed create create_loop normalize_url get
    set recorded
first_test = refl

second_test :
    (create_link (wired handler idem) (request_of "v") claimed_table).0
    ≡ write_created_link (request_of "v") (draft "b" "http://a")
unfolding create_link decoded looked_up respond_with_code replayed resolve get recorded
second_test = refl

create_link-same_code_example :
    told_code (create_link (wired handler idem) (request_of "v") claimed_table).0.body ≡ some "b"
create_link-same_code_example =
    create_link-same_code handler idem entry (request_of "u") (request_of "v") empty claimed_table
      "b" env (λ e. ground (arith, eq_iff "key" "")) refl
      (λ k v taken. ap (λ (p : Response × Table). p.1 k) (sym first_test) ∙ taken)
      (ap (λ (p : Response × Table). told_code p.0.body) first_test)
      (λ e. let told = ap (λ (a : Response). told_code a.body) second_test in cc)
