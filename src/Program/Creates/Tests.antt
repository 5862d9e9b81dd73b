-- ===== src/Program/Creates/Tests.antt =====
-- A link is created through the stack, and followed.
use shortn.Prelude.{
  is_text, String, ◌≡◌, ◌≢◌, refl, sym, ◌∙◌, inl, inr, none, some, str_eq, Bool-cases,
}
use shortn.Act.{ok}
use shortn.Shortener
use shortn.Shortener.{create_loop}
use shortn.Cache
use shortn.Resilience
use shortn.Resilience.{resilient_store, execute, filled, is_successful}
use shortn.Store
use shortn.Store.{statement, insert_link, insert_into, find_link, created}
use shortn.Store.Analytics.{postgres}
use shortn.Api.Told.{told_code}
use shortn.Shortener.Url.{UrlLib, normalize_url}
use shortn.Cache.{tombstone, caching_store}
use shortn.Api.{Request}
use shortn.Api.Links.{Deps, make_link, create_link, redirect}
use shortn.Program.Redirect.{IsUp}
use shortn.Program.Creates.{create_link-redirect}
use shortn.Program.Tests.{
  World, backends, phase, cached, laws, start, coherent, gen, handler, follow, get-IsUp, self,
  real_url,
}

-- Every text is the host of a URL, and every URL is written alike.
abbrev lib : UrlLib
lib = record {
  trim_space = λ s. s;
  to_lower = λ s. s;
  parse = λ s. ok (record { scheme = "http"; host = s; rest = "" });
  hostname = λ u. u.host;
  url_string = λ u. "http://x";
  parse_ip = λ h. none;
}

abbrev api : Deps World
api = record handler { lib = lib }

abbrev post : Request
post = record follow { code = ""; body = "x" }

real : (raw url : String) → normalize_url lib raw ≡ ok url → url ≢ tombstone
unfolding normalize_url
real raw url e f = elim (Bool-cases (str_eq raw "")) [
  | inl blank ↦ absurd (let k = rw blank at e in cc)
  | inr there ↦
      (let k = rw there at e in real_url (let same : url ≡ "http://x" = cc in sym same ∙ f))
]

abbrev made : World
made = (create_link api post start).1

up : IsUp backends phase made
unfolding create_link Shortener.create create_loop normalize_url caching_store Cache.create
    resilient_store Resilience.create execute filled is_successful postgres Store.create statement
    is_text insert_link insert_into find_link created make_link
up = record { failures = 0; is_closed = refl; answers = refl }

told : told_code (create_link api post start).0.body ≡ some "b"
unfolding create_link Shortener.create create_loop normalize_url caching_store Cache.create
    resilient_store Resilience.create execute filled is_successful postgres Store.create statement
    is_text insert_link insert_into find_link created make_link
told = refl

create_link-redirect_example :
    (raw url : String) × (api.decode "x" ≡ ok raw)
    × (normalize_url lib raw ≡ ok url)
    × ((create_link api post start).0.status ≡ 201)
    × ((redirect api (record follow { code = "b" }) made).0.status ≡ 302)
    × ((redirect api (record follow { code = "b" }) made).0.location ≡ some (api.location url))
create_link-redirect_example =
    create_link-redirect backends cached phase laws gen self get-IsUp (λ hit w up. up) api post
      (record follow { code = "b" }) "b" start refl real coherent refl refl told up refl
