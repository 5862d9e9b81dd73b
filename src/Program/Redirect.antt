-- ===== src/Program/Redirect.antt =====
-- A redirect through the whole stack.
use shortn.Prelude.{
  is_text, ℕ, ◌==◌, String, ◌≡◌, refl, ap, ◌∙◌, ◌⊎◌, inl, inr, Bool, true, false, Bool-cases,
  Option, none, some, [], str_eq,
}
use shortn.Error.{GoError, sentinel, err_not_found, errors_is}
use shortn.Act.{Act, Result, ok, err, Outcome-cases}
use shortn.Shortener.{draft, Link, IdGenerator}
use shortn.Store.{get_by_code}
use shortn.Store.Analytics.{postgres}
use shortn.Resilience.{settings, resilient_store}
use shortn.Resilience.Laws.{Phase, closed}
use shortn.Resilience.Reads.{get_by_code_closed}
use shortn.Cache.{key, tombstone, from_cached, load_and_cache}
use shortn.Cache
use shortn.Cache.Coherent.{IsQuiet, IsCoherent, IsCoherent-quiet}
use shortn.Cache.Reads.{load_found, load_missing, get_hit, get_miss, get_by_code-IsServed}
use shortn.Events.{LinkClicked}
use shortn.Config.{Config}
use shortn.Ratelimit.{allow}
use shortn.Api.Middleware.{client_ip, rate_limit, limited}
use shortn.Api.Guards.{bounded}
use shortn.Api.Router.{get_code, new_router, grouped}
use shortn.Api.{Request, Response}
use shortn.Api.Links.{Deps, redirect}
use shortn.Prelude.Int.{ℤ}
use shortn.Api.Redirects.{
  IsRedirect, moved, missing, failed, redirect-IsRedirect, redirect_found, redirect_failed,
  lookup-eq,
}
use shortn.Program.{Edge, router_deps, Backends, svc, resilient, caching}
use shortn.Program.Lookup.{stored_in, get_by_code-final}
use shortn.Program.Stack.{StackLaws, stored, caching-env}

-- The server answers, and the breaker is closed.
pub record IsUp {W : Type 0} (b : Backends W) (phase : W → Phase) (w : W) : Type 0 where
  pub failures : ℕ
  pub is_closed : phase w ≡ closed failures
  pub answers : (b.db w).trips ≡ []

module _ {W : Type 0} (b : Backends W) (entry : W → String → Option String) (phase : W → Phase)
    (laws : StackLaws b entry phase) where
  redirect-stack :
      (h : Deps W) (gen : IdGenerator W) (r : Request) (w : W)
      → h.svc ≡ svc b gen
      → IsCoherent entry (stored b entry phase laws) w
      → IsRedirect h.location (stored_in (b.db w) r.code) (redirect h r w).0
  redirect-stack h gen r w same c =
      redirect-IsRedirect h (caching b) entry (stored b entry phase laws) r w
        (caching-env b entry phase laws) (ap (λ s. s.store) same) c

  IsRedirect-served :
      (location : String → String) (found : Option String) (a : Response) (id : String)
      → IsRedirect location found a
      → IsRedirect location found (record a { served_by = some id })
  IsRedirect-served location found a id (moved url p q l) = moved url p q l
  IsRedirect-served location found a id (missing p q) = missing p q
  IsRedirect-served location found a id (failed q) = failed q

  -- Over the whole stack of limiter, cache, breaker with retries and Postgres, from an agreeing
  -- cache, a GET of a code is refused with 429 or is a 302 to the URL of its row, a 404 only if
  -- no row has the code, and else a 503 or a 500.
  pub get_code-IsRedirect :
      (x : Edge W) (gen : IdGenerator W) (publish : LinkClicked → Act W (Unit {0})) (burst rps : ℤ)
      (cfg : Config) (r : Request) (w : W)
      → IsCoherent entry (stored b entry phase laws) w
      → IsQuiet entry
          (stored b entry phase laws)
          w
          (x.run_bucket burst rps (client_ip x.trim x.split_host_port r) w).1
      → ((new_router (router_deps x b gen publish burst rps cfg) (some get_code) r w).0.status
          ≡ 429)
        ⊎ IsRedirect x.location
            (stored_in (b.db w) r.code)
            (new_router (router_deps x b gen publish burst rps cfg) (some get_code) r w).0
  unfolding new_router grouped rate_limit limited allow client_ip
  get_code-IsRedirect x gen publish burst rps cfg r w c quiet =
      let deps = router_deps x b gen publish burst rps cfg in
      let ip = client_ip x.trim x.split_host_port r in
      let u = (x.run_bucket burst rps ip w).1 in
      let right = IsRedirect-served x.location _ _ cfg.instance_id (
        redirect-stack deps.handler gen (bounded deps r w) u refl
          (IsCoherent-quiet entry (stored b entry phase laws) quiet c)) in
      let right' = rw (quiet.kept r.code) at right in
      elim (Outcome-cases (x.run_bucket burst rps ip w)) [
        | inl (reply, p) ↦ elim (Bool-cases (reply.allowed == 1)) [
          | inl passes ↦ rw (p, passes) (inr right')
          | inr refuses ↦ rw (p, refuses) (inl refl)
        ]
        | inr (e, p) ↦ rw p (inr right')
      ]

  -- The outcome of a lookup that is final.
  abbrev IsSettled : Result Link → Type 0
  IsSettled r =
      ((l : Link) × (r ≡ ok l)) ⊎ ((e : GoError) × (r ≡ err e) × (errors_is e err_not_found ≡ true))

  from_cached-IsSettled : (code val : String) → IsSettled (from_cached code val)
  from_cached-IsSettled code val = elim (Bool-cases (str_eq val tombstone)) [
    | inl absent ↦ inr (sentinel err_not_found, rw absent refl, refl)
    | inr there ↦ inl (draft code val, rw there refl)
  ]

  resilient-final :
      (code : String) (w : W)
      → IsUp b phase w
      → is_text code ≡ true
      → ((l : Link) × (((resilient_store (resilient b)).get_by_code code w).0 ≡ ok l))
        ⊎ (((resilient_store (resilient b)).get_by_code code w).0 ≡ err (sentinel err_not_found))
  unfolding resilient_store postgres
  resilient-final code w up text =
      let final = get_by_code-final code (b.db w) up.answers text in
      let same =
        get_by_code_closed (IsQuiet entry (stored b entry phase laws)) (resilient b) phase
          (laws.breaker settings) (laws.retries 20 300) code (get_by_code code (b.db w)).0 w _
          up.failures up.is_closed refl final in
      elim final [ inl (l, p) ↦ inl (l, same ∙ p) | inr p ↦ inr (same ∙ p) ]

  load-IsSettled :
      (code : String) (w : W)
      → IsUp b phase w
      → is_text code ≡ true
      → IsSettled (load_and_cache (caching b) code w).0
  load-IsSettled code w up text =
      let s = caching b in
      let v = (s.next.get_by_code code w).1 in
      elim (resilient-final code w up text) [
        | inl (l, p) ↦
            let shape : s.next.get_by_code code w ≡ (ok l, v) =
              ap (λ (x : Result Link). (x, v)) p in
            inl (l, rw (load_found s code l w v shape) refl)
        | inr p ↦
            let shape : s.next.get_by_code code w ≡ (err (sentinel err_not_found), v) =
              ap (λ (x : Result Link). (x, v)) p in
            inr (sentinel err_not_found, rw (load_missing s code _ w v shape refl) refl, refl)
      ]

  module _ (get_up : (k : String) (w : W) → IsUp b phase w → IsUp b phase (b.rdb.get k w).1)
      (count_up : (hit : Bool) (w : W) → IsUp b phase w → IsUp b phase (b.count hit w)) where
    lookup-IsSettled :
        (code : String) (w : W)
        → IsUp b phase w
        → is_text code ≡ true
        → IsSettled (Cache.get_by_code (caching b) code w).0
    lookup-IsSettled code w up text =
        let s = caching b in
        let v = (b.rdb.get (key code) w).1 in
        elim (Outcome-cases (b.rdb.get (key code) w)) [
          | inl (val, p) ↦ rw (get_hit s code val w v p) (from_cached-IsSettled code val)
          | inr (e, p) ↦
              rw (get_miss s code e w v p, laws.flight_runs code (load_and_cache s code))
                (load-IsSettled code (b.count false v) (count_up false v (get_up (key code) w up))
                  text)
        ]

    -- While Postgres answers and the breaker is closed, from an agreeing cache, a redirect of a
    -- code without a NUL through the stack is a 302 to the URL of the row with the code, or,
    -- exactly where no row has it, a 404; whether Redis answers or fails.
    pub redirect-answers :
        (h : Deps W) (gen : IdGenerator W) (r : Request) (w : W)
        → h.svc ≡ svc b gen
        → IsCoherent entry (stored b entry phase laws) w
        → IsUp b phase w
        → is_text r.code ≡ true
        → ((url : String) × (stored_in (b.db w) r.code ≡ some url)
            × ((redirect h r w).0.status ≡ 302)
            × ((redirect h r w).0.location ≡ some (h.location url)))
          ⊎ ((stored_in (b.db w) r.code ≡ none) × ((redirect h r w).0.status ≡ 404))
    redirect-answers h gen r w same c up text =
        let s = caching b in
        let v = (Cache.get_by_code s r.code w).1 in
        let served =
          get_by_code-IsServed s entry (stored b entry phase laws) (caching-env b entry phase laws)
            r.code w c in
        let lookup = lookup-eq h.svc s r.code w (ap (λ s. s.store) same) in
        elim (lookup-IsSettled r.code w up text) [
          | inl (l, p) ↦
              let shape : Cache.get_by_code s r.code w ≡ (ok l, v) =
                ap (λ (x : Result Link). (x, v)) p in
              let answer = rw p at served.answer in
              rw (redirect_found h r l w v (lookup ∙ shape))
                (inl (l.long_url, answer.0, refl, refl))
          | inr (e, p, absent) ↦
              let shape : Cache.get_by_code s r.code w ≡ (err e, v) =
                ap (λ (x : Result Link). (x, v)) p in
              let answer = rw p at served.answer in
              rw (redirect_failed h r e w v (lookup ∙ shape), absent) (inr (answer absent, refl))
        ]
