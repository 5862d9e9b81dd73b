-- ===== src/Shortener/Url/Accepts.antt =====
-- Which URLs normalizeURL accepts, what it returns for them, and the error for all others.
use shortn.Prelude.{String, ◌≡◌, ◌≢◌, ◌⊎◌, false, arith, eq_iff, str_eq, Bool-cases, inl, inr, ◌↔◌}
use shortn.Act.{ok, Result-cases}
use shortn.Shortener.Url.{
  Url, UrlLib, is_blocked, lower_scheme, lower_host, check_url, check_parsed, normalize_url,
}

module _ (lib : UrlLib) where
  abbrev pub lowered : Url → Url
  lowered u = lower_host lib (lower_scheme lib u)

  -- An absolute http or https URL with a host that is no literal of a refused range, and its
  -- normal form: scheme and host in lower case.
  pub record IsAccepted (raw normal : String) : Type 0 where
    pub url : Url
    pub parsed : lib.parse (lib.trim_space raw) ≡ ok url
    pub given : lib.trim_space raw ≢ ""
    pub web : ((lowered url).scheme ≡ "http") ⊎ ((lowered url).scheme ≡ "https")
    pub hosted : url.host ≢ ""
    pub allowed : is_blocked (lib.parse_ip (lib.hostname (lowered url))) ≡ false
    pub printed : normal ≡ lib.url_string (lowered url)

  -- The checks on a URL that parses, read back from their success.
  checked :
      (u : Url) (normal : String)
      → check_url lib u ≡ ok normal
      → (((lowered u).scheme ≡ "http") ⊎ ((lowered u).scheme ≡ "https"))
        × (u.host ≢ "")
        × (is_blocked (lib.parse_ip (lib.hostname (lowered u))) ≡ false)
        × (normal ≡ lib.url_string (lowered u))
  unfolding check_url
  checked u normal h =
      ground (
        arith,
        eq_iff (lowered u).scheme "http",
        eq_iff (lowered u).scheme "https",
        eq_iff u.host "",
      )

  IsAccepted-of_ok :
      (raw normal : String) → normalize_url lib raw ≡ ok normal → IsAccepted raw normal
  unfolding normalize_url
  IsAccepted-of_ok raw normal h = elim (Bool-cases (str_eq (lib.trim_space raw) "")) [
    | inl empty ↦ absurd (let k = rw (empty, normalize_url) at h in cc)
    | inr given ↦ elim (Result-cases (lib.parse (lib.trim_space raw))) [
      | inl (u, p) ↦
          let (web, hosted, allowed, printed) =
            checked u normal (rw (given, p, normalize_url, check_parsed) at h) in
          record {
            url = u;
            parsed = p;
            given = ground (arith, eq_iff (lib.trim_space raw) "");
            web = web;
            hosted = hosted;
            allowed = allowed;
            printed = printed;
          }
      | inr (e, p) ↦ ground arith
    ]
  ]

  check_url_of_parts :
      (u : Url)
      → (((lowered u).scheme ≡ "http") ⊎ ((lowered u).scheme ≡ "https"))
      → (u.host ≢ "")
      → (is_blocked (lib.parse_ip (lib.hostname (lowered u))) ≡ false)
      → check_url lib u ≡ ok (lib.url_string (lowered u))
  unfolding check_url
  check_url_of_parts u w h a =
      ground (
        arith,
        eq_iff (lowered u).scheme "http",
        eq_iff (lowered u).scheme "https",
        eq_iff u.host "",
      )

  ok_of_IsAccepted :
      (raw normal : String) → IsAccepted raw normal → normalize_url lib raw ≡ ok normal
  unfolding normalize_url check_parsed
  ok_of_IsAccepted raw normal a = ground (
    arith,
    eq_iff (lib.trim_space raw) "",
    check_url_of_parts a.url a.web a.hosted a.allowed,
    a.parsed,
    a.printed,
    a.given,
  )

  -- For any URL library, normalizeURL accepts exactly the URLs that are not blank, parse, have
  -- the scheme http or https in any case, have a host, and whose host is no blocked address, and
  -- gives the URL printed with scheme and host in lower case.
  pub normalize_url-eq-ok_iff :
      (raw normal : String) → (normalize_url lib raw ≡ ok normal) ↔ IsAccepted raw normal
  normalize_url-eq-ok_iff raw normal = (IsAccepted-of_ok raw normal, ok_of_IsAccepted raw normal)
