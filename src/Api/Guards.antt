-- ===== src/Api/Guards.antt =====
-- What the limiter and the admin key let through to the handlers.
use shortn.Prelude.{
  ℕ, ◌+◌, ◌*◌, ◌≤◌, String, Bool, true, false, ◌≡◌, ◌≢◌, refl, ◌⊎◌, inl, inr, some, arith,
  Bool-cases, str_eq, eq_iff,
}
use shortn.Error.{GoError}
use shortn.Act.{Result, ok, err, Act}
use shortn.Api.Links.{list_links, delete_link}
use shortn.Ratelimit.Steps.{ceil_div-ge}
use shortn.Api.{Request, Response, write_error, Handler}
use shortn.Api.Middleware.{
  with_timeout, tagged, admin_auth, limited, rate_limit, retry_after_seconds,
}
use shortn.Api.Router.{
  Route, post_links, get_code, get_stats, get_links, delete_code, RouterDeps, pattern, grouped,
  new_router,
}

-- The header tells at least one second, and no less than the wait.
retry_after_seconds-ge :
    (ms : ℕ) → (1 ≤ retry_after_seconds ms) × (ms ≤ retry_after_seconds ms * 1000)
unfolding retry_after_seconds
retry_after_seconds-ge ms = ground (arith, ceil_div-ge ms 1000 (omega arith))

-- The answer to a request that the limiter refuses.
abbrev refusal : ℕ → Response
refusal wait = record (write_error 429 "rate limit exceeded") {
  retry_after = some (retry_after_seconds wait);
}

-- The two routes behind the admin key.
pub data IsAdmin : Route → Type 0 where
  lists : IsAdmin get_links
  deletes : IsAdmin delete_code

-- The request carries the operator's key, and there is one.
abbrev pub IsOperator : String → Request → Type 0
IsOperator admin_key r = (admin_key ≢ "") × (r.admin_key ≡ admin_key)

-- The limiter lets a request through, or fails.
abbrev pub LetsThrough : Result (Bool × ℕ) → Type 0
LetsThrough reply = ((wait : ℕ) × (reply ≡ ok (true, wait))) ⊎ ((e : GoError) × (reply ≡ err e))

limiter_cases :
    (reply : Result (Bool × ℕ)) → ((wait : ℕ) × (reply ≡ ok (false, wait))) ⊎ LetsThrough reply
limiter_cases (ok (true, wait)) = inr (inl (wait, refl))
limiter_cases (ok (false, wait)) = inl (wait, refl)
limiter_cases (err e) = inr (inr (e, refl))

module _ {W : Type 0} where
  admin_auth-refused :
      (admin_key : String) (next : Request → Handler W) (r : Request)
      → ¬ IsOperator admin_key r
      → admin_auth admin_key next r ≡ (λ w. (write_error 401 "admin authentication required", w))
  unfolding admin_auth
  admin_auth-refused admin_key next r h = elim (Bool-cases (str_eq admin_key "")) [
    | inl none_set ↦ rw none_set
    | inr set ↦ elim (Bool-cases (str_eq r.admin_key admin_key)) [
      | inr other ↦ rw (set, other)
      | inl same ↦
          absurd
            (h (ground (arith, eq_iff admin_key ""), ground (arith, eq_iff r.admin_key admin_key)))
    ]
  ]

  -- The request goes on to the handler, or is refused.
  limited-cases :
      (next : Request → Handler W) (r : Request) (v : W) (a : Result (Bool × ℕ))
      → (limited next r a v ≡ next r v) ⊎ ((wait : ℕ) × (limited next r a v ≡ (refusal wait, v)))
  unfolding limited
  limited-cases next r v (err e) = inl refl
  limited-cases next r v (ok (true, wait)) = inl refl
  limited-cases next r v (ok (false, wait)) = inr (wait, refl)

  rate_limit-cases :
      (allow : String → Act W (Bool × ℕ)) (ip : Request → String) (next : Request → Handler W)
      (r : Request) (w : W)
      → let v = (allow (ip r) w).1 in
        (rate_limit allow ip next r w ≡ next r v)
        ⊎ ((wait : ℕ) × (rate_limit allow ip next r w ≡ (refusal wait, v)))
  unfolding rate_limit
  rate_limit-cases allow ip next r w = limited-cases next r (allow (ip r) w).1 (allow (ip r) w).0

  grouped-refused :
      (d : RouterDeps W) (route : Route) (r : Request) (w : W)
      → IsAdmin route
      → ¬ IsOperator d.admin_key r
      → grouped d route r w ≡ (write_error 401 "admin authentication required", w)
  unfolding grouped
  grouped-refused d post_links r w admin h = elim admin [ ]
  grouped-refused d get_code r w admin h = elim admin [ ]
  grouped-refused d get_stats r w admin h = elim admin [ ]
  grouped-refused d get_links r w lists h =
      rw (admin_auth-refused d.admin_key (list_links d.handler) r h)
  grouped-refused d delete_code r w deletes h =
      rw (admin_auth-refused d.admin_key (delete_link d.handler) r h)

  -- The request as the handlers get it.
  abbrev pub bounded : RouterDeps W → Request → W → Request
  bounded d r w = with_timeout (d.handler.now w + d.request_timeout) r

  -- A route behind the admin key answers a request without it with 401, or 429 if the limiter
  -- refuses it, and nothing but the limiter and the tags of the route's pattern is called; this
  -- holds of every request if no key is configured.
  pub new_router-unauthorized :
      (d : RouterDeps W) (route : Route) (r : Request) (w : W)
      → IsAdmin route
      → ¬ IsOperator d.admin_key r
      → let (a, w') = new_router d (some route) r w in
        ((a.status ≡ 401) ⊎ (a.status ≡ 429))
        × (w' ≡ tagged d.tracing (pattern (some route)) (d.allow (d.client (bounded d r w)) w).1)
  unfolding new_router
  new_router-unauthorized d route r w admin h =
      let r' = bounded d r w in
      let v = (d.allow (d.client r') w).1 in
      elim (rate_limit-cases d.allow d.client (grouped d route) r' w) [
        | inl p ↦ rw (p, grouped-refused d route r' v admin h) (inl refl, refl)
        | inr (wait, p) ↦ rw p (inr refl, refl)
      ]

  -- On every route a request that the limiter refuses is answered with 429, with a Retry-After
  -- of at least one second and no shorter than the wait, and nothing else is called but the tags
  -- of the route's pattern; one that it lets through, and any while it fails, is answered by the
  -- route's handler, under the deadline of the router, with the name of the instance.
  pub new_router-limiter :
      (d : RouterDeps W) (route : Route) (r : Request) (w : W)
      → let (reply, u) = d.allow (d.client (bounded d r w)) w in
        let (a, v) = new_router d (some route) r w in
        let (b, x) = grouped d route (bounded d r w) u in
        ((wait : ℕ) × (reply ≡ ok (false, wait))
          × (v ≡ tagged d.tracing (pattern (some route)) u)
          × (a.status ≡ 429)
          × ((seconds : ℕ) × (a.retry_after ≡ some seconds)
              × (1 ≤ seconds)
              × (wait ≤ seconds * 1000)))
        ⊎ (LetsThrough reply
            × (a ≡ record b { served_by = some d.instance_id })
            × (v ≡ tagged d.tracing (pattern (some route)) x))
  unfolding new_router rate_limit limited
  new_router-limiter d route r w = elim (limiter_cases (d.allow (d.client (bounded d r w)) w).0) [
    | inl (wait, p) ↦
        let (least, enough) = retry_after_seconds-ge wait in
        rw p (inl (wait, refl, refl, refl, (retry_after_seconds wait, refl, least, enough)))
    | inr (inl (wait, p)) ↦ rw p (inr (inl (wait, refl), refl, refl))
    | inr (inr (e, p)) ↦ rw p (inr (inr (e, refl), refl, refl))
  ]
