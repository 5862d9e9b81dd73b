-- ===== src/Api/Middleware.antt =====
-- internal/http/middleware.go and ratelimit.go: what stands in front of the handlers.
use Prim.Native.Char.{code}
use Prim.Native.String.{[], ◌∷◌}
use shortn.Prelude.{
  ℕ, ◌+◌, ◌==◌, String, Bool, true, false, ◌||◌, not, Option, none, some, str_eq, ltb,
  if◌then◌else◌,
}
use shortn.Act.{Result, ok, err, Act}
use shortn.Shortener.{Time}
use shortn.Ratelimit.{ceil_div}
use shortn.Api.{Request, write_error, Handler, call, respond}

-- ServedByMiddleware
abbrev pub served_by : {W : Type 0} → String → (Request → Handler W) → Request → Handler W
served_by instance_id next r w =
    let (a, w') = next r w in (record a { served_by = some instance_id }, w')

-- context.WithTimeout keeps a deadline that comes earlier.
abbrev pub earlier : Time → Option Time → Time
earlier t none = t
earlier t (some u) = if ltb u t then u else t

-- The request with the deadline that is `d` after a time.
abbrev pub with_timeout : Time → Request → Request
with_timeout t r = record r { deadline = some (earlier t r.deadline) }

-- TimeoutMiddleware; `now` is the clock. A dependency that is still running at the deadline returns
-- the context's error.
abbrev pub timeout_middleware :
    {W : Type 0} → (W → Time) → ℕ → (Request → Handler W) → Request → Handler W
timeout_middleware now d next r w = next (with_timeout (now w + d) r) w

-- What RouteTagMiddleware calls of OpenTelemetry: whether the context has a labeler, adding the route
-- to it, and naming the span.
pub record Tracing (W : Type 0) : Type 0 where
  pub has_labeler : W → Bool
  pub add_route : String → W → W
  pub set_name : String → W → W

abbrev pub tagged : {W : Type 0} → Tracing W → String → W → W
tagged t pattern w =
    if str_eq pattern ""
    then w
    else t.set_name pattern (if t.has_labeler w then t.add_route pattern w else w)

-- RouteTagMiddleware, with the pattern of the route that chi has matched.
abbrev pub route_tag_middleware :
    {W : Type 0} → Tracing W → String → (Request → Handler W) → Request → Handler W
route_tag_middleware t pattern next r w = let (a, w') = next r w in (a, tagged t pattern w')

unfoldable pub traceable_route : Request → Bool
traceable_route r =
    if str_eq r.path "/healthz" || (str_eq r.path "/readyz" || str_eq r.path "/metrics")
    then false
    else true

-- AdminAuthMiddleware
unfoldable pub admin_auth : {W : Type 0} → String → (Request → Handler W) → Request → Handler W
admin_auth admin_key next r =
    if str_eq admin_key "" || not (str_eq r.admin_key admin_key)
    then respond (write_error 401 "admin authentication required")
    else next r

-- parts[len(parts)-1] of strings.Split(xff, ","): what stands behind the last comma.
unfoldable pub behind_comma : String → Option String
behind_comma [] = none
behind_comma (c ∷ s) = elim (behind_comma s) [
  | some t ↦ some t
  | none ↦ if code c == b',' then some s else none
]

unfoldable pub or_whole : String → Option String → String
or_whole s none = s
or_whole s (some t) = t

unfoldable pub last_part : String → String
unfolding behind_comma or_whole
last_part s = or_whole s (behind_comma s)

-- clientIP. `trim` is strings.TrimSpace, `split_host_port` the host of net.SplitHostPort.
host_or_addr : String → Result String → String
host_or_addr addr (ok host) = host
host_or_addr addr (err e) = addr

unfoldable pub client_ip : (String → String) → (String → Result String) → Request → String
unfolding host_or_addr
client_ip trim split_host_port r =
    let ip = trim (last_part r.forwarded_for) in
    let peer = host_or_addr r.remote_addr (split_host_port r.remote_addr) in
    if str_eq r.forwarded_for "" then peer else if str_eq ip "" then peer else ip

-- retryAfterSeconds, of a wait in milliseconds
unfoldable pub retry_after_seconds : ℕ → ℕ
retry_after_seconds ms = let s = ceil_div ms 1000 in if ltb 1 s then s else 1

-- RateLimitMiddleware; `allow` is Limiter.Allow at the client's address.
unfoldable pub limited :
    {W : Type 0} → (Request → Handler W) → Request → Result (Bool × ℕ) → Handler W
limited next r (err e) = next r
limited next r (ok (true, wait)) = next r
limited next r (ok (false, wait)) = respond (record (write_error 429 "rate limit exceeded") {
  retry_after = some (retry_after_seconds wait);
})

unfoldable pub rate_limit :
    {W : Type 0}
    → (String → Act W (Bool × ℕ))
    → (Request → String)
    → (Request → Handler W)
    → Request
    → Handler W
unfolding limited
rate_limit allow ip next r = call (allow (ip r)) (limited next r)
