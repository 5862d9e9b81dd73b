-- ===== src/Shortener/Url.antt =====
-- normalizeURL and isBlockedIP. Parsing and printing of URLs and of IP literals belong to net/url,
-- net and strings: they are the parameter `UrlLib`.
pub mod Accepts
pub mod Ranges
use shortn.Prelude.{
  ℕ, ◌/◌, ◌^◌, String, Bool, false, ◌&&◌, ◌||◌, not, Option, none, some, ◌==◌, str_eq,
  if◌then◌else◌,
}
use shortn.Error.{sentinel, err_invalid_url, error_text, errorf_after}
use shortn.Act.{Result, ok, err}

-- url.URL: the two fields that the program reads and writes, and all others as one.
pub record Url : Type 0 where
  pub scheme : String
  pub host : String
  pub rest : String

-- net.IP as net.ParseIP returns it: the four bytes of an IPv4 address (also of one mapped into
-- IPv6), or the 16 bytes of any other address read as one number.
pub data Ip : Type 0 where
  v4 : ℕ → ℕ → ℕ → ℕ → Ip
  v6 : ℕ → Ip

pub record UrlLib : Type 0 where
  pub trim_space : String → String
  pub to_lower : String → String
  pub parse : String → Result Url
  pub hostname : Url → String
  pub url_string : Url → String
  pub parse_ip : String → Option Ip

-- The classes of package net, by their leading bits.
is_loopback : Ip → Bool
is_loopback (v4 a b c d) = a == 127
is_loopback (v6 n) = n == 1

is_private : Ip → Bool
is_private (v4 a b c d) = a == 10 || ((a == 172 && (b / 16) == 1) || (a == 192 && b == 168))
is_private (v6 n) = (n / 2 ^ 121) == 0x7e

is_link_local_unicast : Ip → Bool
is_link_local_unicast (v4 a b c d) = a == 169 && b == 254
is_link_local_unicast (v6 n) = (n / 2 ^ 118) == 0x3fa

is_unspecified : Ip → Bool
is_unspecified (v4 a b c d) = (a == 0 && b == 0) && (c == 0 && d == 0)
is_unspecified (v6 n) = n == 0

is_multicast : Ip → Bool
is_multicast (v4 a b c d) = (a / 16) == 14
is_multicast (v6 n) = (n / 2 ^ 120) == 0xff

unfoldable pub is_blocked_ip : Ip → Bool
unfolding is_loopback is_private is_link_local_unicast is_unspecified is_multicast
is_blocked_ip ip =
    is_loopback ip
    || (is_private ip || (is_link_local_unicast ip || (is_unspecified ip || is_multicast ip)))

-- `ip != nil && isBlockedIP(ip)`
abbrev pub is_blocked : Option Ip → Bool
is_blocked none = false
is_blocked (some ip) = is_blocked_ip ip

abbrev invalid : String → Result String
invalid why = err (errorf_after (sentinel err_invalid_url) why)

module _ (lib : UrlLib) where
  abbrev pub lower_scheme : Url → Url
  lower_scheme u = record u { scheme = lib.to_lower u.scheme }

  abbrev pub lower_host : Url → Url
  lower_host u = record u { host = lib.to_lower u.host }

  -- The checks on a URL that parses.
  check_url : Url → Result String
  check_url parsed =
      let u = lower_scheme parsed in
      let v = lower_host u in
      if not (str_eq u.scheme "http") && not (str_eq u.scheme "https")
      then invalid "scheme must be http or https"
      else if str_eq u.host ""
      then invalid "missing host"
      else if is_blocked (lib.parse_ip (lib.hostname v))
      then invalid "destination address is not allowed"
      else ok (lib.url_string v)

  check_parsed : Result Url → Result String
  unfolding check_url
  check_parsed (err e) = invalid (error_text e)
  check_parsed (ok u) = check_url u

  unfoldable pub normalize_url : String → Result String
  unfolding check_parsed
  normalize_url raw =
      let trimmed = lib.trim_space raw in
      if str_eq trimmed "" then invalid "url is empty" else check_parsed (lib.parse trimmed)
