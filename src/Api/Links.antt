-- ===== src/Api/Links.antt =====
-- internal/http/links.go: the handlers of the public and the admin endpoints.
use Prim.Native.String.{◌++◌}
use shortn.Prelude.{
  String, Bool, true, false, ◌||◌, Option, none, some, List, map, str_eq, if◌then◌else◌,
}
use shortn.Prelude.Int.{ℤ, pos, ltb_ℤ}
use shortn.Error.{
  GoError, err_invalid_url, err_not_found, err_deadline_exceeded, err_unavailable, errors_is,
  error_text,
}
use shortn.Act.{Result, ok, err, Act}
use shortn.Shortener.{Time, Link, ClickBucket, Stats, Service}
use shortn.Shortener
use shortn.Shortener.Url.{UrlLib}
use shortn.Events.{LinkClicked}
use shortn.Api.{
  Request, BucketResponse, LinkSummary, no_body, created_body, stats_body, links_body, link_body,
  Response, write, write_json, write_error, Handler, call, respond,
}

abbrev pub default_list_limit : ℤ
default_list_limit = pos 50

abbrev pub max_list_limit : ℤ
max_list_limit = pos 100

-- handler: the service, the click publisher and the idempotency store. `decode` is the JSON
-- decoder into createRequest, `atoi` strconv.Atoi, `event_id` and `now` what uuid.NewString and
-- time.Now give for a request.
pub record Deps (W : Type 0) : Type 0 where
  pub svc : Service W
  pub lib : UrlLib
  pub idem_get : String → Act W (Option String)
  pub idem_set : String → String → Act W Bool
  pub publish : LinkClicked → Act W (Unit {0})
  pub decode : String → Result String
  pub atoi : String → Option ℤ
  -- the Location header of http.Redirect: the URL, with what is not ASCII escaped
  pub location : String → String
  pub event_id : W → String
  pub now : W → Time

abbrev pub service_unavailable : GoError → Bool
service_unavailable e = errors_is e err_deadline_exceeded || errors_is e err_unavailable

abbrev pub short_url : Request → String → String
short_url r code = (((if r.tls then "https" else "http") ++ "://") ++ r.host) ++ ("/" ++ code)

abbrev pub write_created_link : Request → Link → Response
write_created_link r link = write_json 201 (
    created_body
      (record { code = link.code; short_url = short_url r link.code; long_url = link.long_url }))

-- The answers to an error, by the order of the checks in the handlers.
abbrev pub unavailable_or : String → GoError → Response
unavailable_or why e =
    if service_unavailable e
    then write_error 503 "service temporarily unavailable"
    else write_error 500 why

abbrev pub missing_or : String → GoError → Response
missing_or why e =
    if errors_is e err_not_found
    then write_error 404 "no link for that code"
    else unavailable_or why e

-- queryInt
unfoldable pub parsed_int : ℤ → Option ℤ → ℤ
parsed_int def none = def
parsed_int def (some n) = n

module _ {W : Type 0} (h : Deps W) where
  unfoldable pub query_int : String → ℤ → ℤ
  unfolding parsed_int
  query_int v def = if str_eq v "" then def else parsed_int def (h.atoi v)

  unfoldable pub replayed : Request → Result Link → Handler W
  replayed r (err e) = respond (write_error 500 "could not load link")
  replayed r (ok link) = respond (write_created_link r link)

  unfoldable pub respond_with_code : Request → String → Handler W
  unfolding replayed
  respond_with_code r code = call (Shortener.resolve h.svc code) (replayed r)

  -- After a lost claim: the winner's link, if its code can be read.
  unfoldable pub winner : Request → Link → Result (Option String) → Handler W
  winner r link (ok (some code)) = respond_with_code r code
  winner r link (ok none) = respond (write_created_link r link)
  winner r link (err e) = respond (write_created_link r link)

  unfoldable pub claimed : Request → Link → Result Bool → Handler W
  unfolding winner
  claimed r link (err e) = respond (write_created_link r link)
  claimed r link (ok true) = respond (write_created_link r link)
  claimed r link (ok false) = call (h.idem_get r.idempotency_key) (winner r link)

  unfoldable pub made : Request → Result Link → Handler W
  unfolding claimed
  made r (err e) = respond (
      if errors_is e err_invalid_url
      then write_error 400 (error_text e)
      else unavailable_or "could not create link" e)
  made r (ok link) =
      if str_eq r.idempotency_key ""
      then respond (write_created_link r link)
      else call (h.idem_set r.idempotency_key link.code) (claimed r link)

  unfoldable pub make_link : Request → String → Handler W
  unfolding made
  make_link r url = call (Shortener.create h.svc h.lib url) (made r)

  unfoldable pub looked_up : Request → String → Result (Option String) → Handler W
  looked_up r url (ok (some code)) = respond_with_code r code
  looked_up r url (ok none) = make_link r url
  looked_up r url (err e) = make_link r url

  unfoldable pub decoded : Request → Result String → Handler W
  unfolding looked_up
  decoded r (err e) = respond (write_error 400 "request body must be valid JSON")
  decoded r (ok url) =
      if str_eq url ""
      then respond (write_error 400 "url is required")
      else if str_eq r.idempotency_key ""
      then make_link r url
      else call (h.idem_get r.idempotency_key) (looked_up r url)

  unfoldable pub create_link : Request → Handler W
  unfolding decoded
  create_link r = decoded r (h.decode r.body)

  -- The event of a click; the publisher runs after the response and its error is dropped.
  abbrev pub click : Request → W → LinkClicked
  click r w = record {
    event_id = h.event_id w;
    code = r.code;
    timestamp = h.now w;
    referrer = r.referer;
    user_agent = r.user_agent;
    version = 1;
  }

  unfoldable pub resolved : Request → Result Link → Handler W
  resolved r (err e) w = respond (missing_or "could not resolve link" e) w
  resolved r (ok link) w = (
    record (write 302 (link_body link.long_url)) { location = some (h.location link.long_url) },
    (h.publish (click r w) w).1,
  )

  unfoldable pub redirect : Request → Handler W
  unfolding resolved
  redirect r = call (Shortener.resolve h.svc r.code) (resolved r)

  bucket_response : ClickBucket → BucketResponse
  bucket_response b = record { bucket = b.bucket; count = b.count }

  counted : Result Stats → Handler W
  unfolding bucket_response
  counted (err e) = respond (unavailable_or "could not get stats" e)
  counted (ok s) = respond (
      write_json 200 (
        stats_body
          (record { code = s.code; total = s.total; series = map bucket_response s.series })))

  unfoldable pub stats : Request → Handler W
  unfolding counted
  stats r = call (Shortener.stats h.svc r.code) counted

  -- The bounds of listLinks on ?limit and ?offset.
  unfoldable pub page_limit : Request → ℤ
  page_limit r =
      let n = query_int r.limit default_list_limit in
      if ltb_ℤ n (pos 1) || ltb_ℤ max_list_limit n then default_list_limit else n

  unfoldable pub page_offset : Request → ℤ
  page_offset r = let n = query_int r.offset (pos 0) in if ltb_ℤ n (pos 0) then pos 0 else n

  unfoldable pub summary : Request → Link → LinkSummary
  summary r l = record {
    code = l.code;
    short_url = short_url r l.code;
    long_url = l.long_url;
    created_at = l.created_at;
  }

  unfoldable pub listed : Request → Result (List Link) → Handler W
  unfolding summary
  listed r (err e) = respond (unavailable_or "could not list links" e)
  listed r (ok links) = respond (write_json 200 (links_body (map (summary r) links)))

  unfoldable pub list_links : Request → Handler W
  unfolding listed
  list_links r = call (Shortener.list h.svc (page_limit r) (page_offset r)) (listed r)

  deleted : Result (Unit {0}) → Handler W
  deleted (err e) = respond (missing_or "could not delete link" e)
  deleted (ok _) = respond (write 204 no_body)

  unfoldable pub delete_link : Request → Handler W
  unfolding deleted
  delete_link r = call (Shortener.delete h.svc r.code) deleted
