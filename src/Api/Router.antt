-- ===== src/Api/Router.antt =====
-- internal/http/router.go: which middleware stands in front of which handler. chi matches a request
-- to a route, or to none; otelhttp is the parameter `instrument`.
use shortn.Prelude.{ℕ, String, Bool, Option, none, some, if◌then◌else◌}
use shortn.Act.{Result, ok, err, Act}
use shortn.Api.{Request, text, write, write_error, Handler, call, respond}
use shortn.Api.Links.{Deps, create_link, redirect, stats, list_links, delete_link}
use shortn.Api.Middleware.{
  served_by, timeout_middleware, Tracing, route_tag_middleware, traceable_route, admin_auth,
  rate_limit,
}

-- The routes of the public listener, by method and pattern.
pub data Route : Type 0 where
  post_links : Route
  get_code : Route
  get_stats : Route
  get_links : Route
  delete_code : Route

-- The pattern of the matched route, empty if there is none.
unfoldable pub pattern : Option Route → String
pattern none = ""
pattern (some post_links) = "/api/links"
pattern (some get_code) = "/{code}"
pattern (some get_stats) = "/api/links/{code}/stats"
pattern (some get_links) = "/api/links"
pattern (some delete_code) = "/api/links/{code}"

-- RouterDeps. `allow` is Limiter.Allow, `client` clientIP; `tracing`, `instrument` and `unmatched` are
-- OpenTelemetry's and chi's.
pub record RouterDeps (W : Type 0) : Type 0 where
  pub handler : Deps W
  pub allow : String → Act W (Bool × ℕ)
  pub client : Request → String
  pub instance_id : String
  pub admin_key : String
  pub request_timeout : ℕ
  pub tracing : Tracing W
  pub instrument : (Request → Handler W) → Request → Handler W
  pub unmatched : Request → Handler W

-- The routes of the operational listener.
pub data OpsRoute : Type 0 where
  get_healthz get_readyz get_metrics : OpsRoute

module _ {W : Type 0} where
  unfoldable pub grouped : RouterDeps W → Route → Request → Handler W
  grouped d post_links = create_link d.handler
  grouped d get_code = redirect d.handler
  grouped d get_stats = stats d.handler
  grouped d get_links = admin_auth d.admin_key (list_links d.handler)
  grouped d delete_code = admin_auth d.admin_key (delete_link d.handler)

  -- The group behind the rate limiter, or chi's own answer.
  abbrev pub matched : RouterDeps W → Option Route → Request → Handler W
  matched d none = d.unmatched
  matched d (some route) = rate_limit d.allow d.client (grouped d route)

  -- The router, with the middleware that every request passes.
  unfoldable pub new_router : RouterDeps W → Option Route → Request → Handler W
  unfolding pattern
  new_router d at = served_by d.instance_id (
      timeout_middleware d.handler.now d.request_timeout
        (route_tag_middleware d.tracing (pattern at) (matched d at)))

  -- otelhttp.NewHandler with its filter.
  unfoldable pub new_handler : RouterDeps W → Option Route → Request → Handler W
  new_handler d at r =
      if traceable_route r then d.instrument (new_router d at) r else new_router d at r

  unfoldable pub healthz : Handler W
  healthz = respond (write 200 (text "ok"))

  pinged : Result (Unit {0}) → Handler W
  pinged (err e) = respond (write_error 503 "not ready")
  pinged (ok _) = respond (write 200 (text "ok"))

  unfoldable pub readyz : Act W (Unit {0}) → Handler W
  unfolding pinged
  readyz ping = call ping pinged

  -- NewOpsRouter: the operational listener, over the pool's Ping and the page of metrics.
  unfoldable pub new_ops_router : Act W (Unit {0}) → (W → String) → OpsRoute → Handler W
  new_ops_router ping metrics get_healthz = healthz
  new_ops_router ping metrics get_readyz = readyz ping
  new_ops_router ping metrics get_metrics = λ w. respond (write 200 (text (metrics w))) w
