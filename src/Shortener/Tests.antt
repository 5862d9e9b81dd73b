-- ===== src/Shortener/Tests.antt =====
-- The domain over a small world: a store that refuses the first codes, and a fixed URL library.
use shortn.Prelude.{ℕ, ◌+◌, ◌≡◌, refl, ◌↔◌, true, none, some, [], arith, ltb, str_eq, if◌then◌else◌}
use shortn.Error.{sentinel, err_code_exists, err_invalid_url, message, errorf_after}
use shortn.Act.{ok, err}
use shortn.Shortener.{Link, Service, draft, create_loop, create}
use shortn.Shortener.Url.{Url, v4, UrlLib, is_blocked_ip, normalize_url}
use shortn.Shortener.Url.Accepts.{IsAccepted, normalize_url-eq-ok_iff}
use shortn.Shortener.Url.Ranges.{IsRefused, is_blocked_ip_iff}
use shortn.Shortener.Create.{Creates, create-eq_iff}

-- Two URLs parse: a web page, and one at an address of the link-local range.
abbrev page : Url
page = record { scheme = "HTTP"; host = "a.b"; rest = "/x" }

abbrev metadata : Url
metadata = record { scheme = "http"; host = "169.254.169.254"; rest = "/" }

abbrev lib : UrlLib
lib = record {
  trim_space = λ s. s;
  to_lower = λ s. if str_eq s "HTTP" then "http" else s;
  parse = λ s.
      if str_eq s "HTTP://a.b/x"
      then ok page
      else if str_eq s "meta"
      then ok metadata
      else err (message "parse");
  hostname = λ u. u.host;
  url_string = λ u. if str_eq u.host "a.b" then "http://a.b/x" else "other";
  parse_ip = λ h. if str_eq h "169.254.169.254" then some (v4 169 254 169 254) else none;
}

normalize_url_test :
    (normalize_url lib "HTTP://a.b/x" ≡ ok "http://a.b/x")
    × (normalize_url lib "meta"
        ≡ err (errorf_after (sentinel err_invalid_url) "destination address is not allowed"))
    × (normalize_url lib "" ≡ err (errorf_after (sentinel err_invalid_url) "url is empty"))
    × (normalize_url lib "zz" ≡ err (errorf_after (sentinel err_invalid_url) "parse"))
unfolding normalize_url is_blocked_ip
normalize_url_test = (refl, refl, refl, refl)

-- The world counts the calls of the generator. The store refuses codes until the world is 5.
abbrev inserted : Link
inserted = record (draft "c" "http://a.b/x") { id = 9 }

abbrev service : ℕ → Service ℕ
service free = record {
  store = record {
    create = λ link n.
        if ltb n free
        then (err (sentinel err_code_exists), n)
        else (ok (record link { id = 9 }), n);
    get_by_code = λ code n. (err (message "unused"), n);
    get_stats = λ code n. (err (message "unused"), n);
    list = λ limit offset n. (ok [], n);
    delete = λ code n. (ok tt, n);
  };
  idgen = record { generate = λ n. (ok "c", n + 1) };
}

create_test :
    (create (service 3) lib "HTTP://a.b/x" 0 ≡ (ok inserted, 3))
    × (create (service 6) lib "HTTP://a.b/x" 0
        ≡ (err (message "could not generate a unique code after 5 attempts"), 5))
unfolding create create_loop normalize_url is_blocked_ip
create_test = (refl, refl)

create-eq_iff_example :
    (create (service 3) lib "HTTP://a.b/x" 0 ≡ (ok inserted, 3))
    ↔ Creates (service 3) lib "HTTP://a.b/x" 0 (ok inserted) 3
create-eq_iff_example = create-eq_iff (service 3) lib "HTTP://a.b/x" 0 (ok inserted) 3

normalize_url-eq-ok_iff_example :
    (normalize_url lib "HTTP://a.b/x" ≡ ok "http://a.b/x")
    ↔ IsAccepted lib "HTTP://a.b/x" "http://a.b/x"
normalize_url-eq-ok_iff_example = normalize_url-eq-ok_iff lib "HTTP://a.b/x" "http://a.b/x"

is_blocked_ip_iff_example : (is_blocked_ip (v4 172 31 0 1) ≡ true) ↔ IsRefused (v4 172 31 0 1)
is_blocked_ip_iff_example =
    is_blocked_ip_iff (v4 172 31 0 1) (omega arith, omega arith, omega arith, omega arith)
