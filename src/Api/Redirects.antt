-- ===== src/Api/Redirects.antt =====
-- The redirect, over any store and over the cache.
use shortn.Prelude.{String, true, ◌≡◌, refl, ap, ◌∙◌, ◌⊎◌, inl, inr, Option, none, some, Bool-cases}
use shortn.Error.{GoError, err_not_found, errors_is}
use shortn.Act.{ok, err, Act, Outcome-cases}
use shortn.Shortener.{Link, LinkStore, Service, resolve}
use shortn.Events.{LinkClicked}
use shortn.Cache.{CachingStore, get_by_code, caching_store}
use shortn.Cache.Coherent.{IsCoherent, CacheEnv}
use shortn.Cache.Reads.{get_by_code-IsServed}
use shortn.Api.{Request, Response, link_body, write}
use shortn.Api.Links.{Deps, service_unavailable, missing_or, click, resolved, redirect}

-- A redirect that is right for the URL a code stands for: 302 to that URL, 404 only if there is
-- none, and else 503 or 500.
pub data IsRedirect (location : String → String) (found : Option String) (a : Response)
    : Type 0 where
  moved :
      (url : String)
      → found ≡ some url
      → a.status ≡ 302
      → a.location ≡ some (location url)
      → IsRedirect location found a
  missing : found ≡ none → a.status ≡ 404 → IsRedirect location found a
  failed : (a.status ≡ 503) ⊎ (a.status ≡ 500) → IsRedirect location found a

missing_or-status :
    (why : String) (e : GoError)
    → ((errors_is e err_not_found ≡ true) × ((missing_or why e).status ≡ 404))
      ⊎ (((missing_or why e).status ≡ 503) ⊎ ((missing_or why e).status ≡ 500))
missing_or-status why e = elim (Bool-cases (errors_is e err_not_found)) [
  | inl absent ↦ inl (absent, rw absent)
  | inr other ↦ elim (Bool-cases (service_unavailable e)) [
    | inl unavailable ↦ inr (inl (rw (other, unavailable)))
    | inr broken ↦ inr (inr (rw (other, broken)))
  ]
]

-- http.Redirect at status 302
abbrev pub found_at : String → String → Response
found_at location url = record (write 302 (link_body url)) { location = some location }

module _ {W : Type 0} where
  pub redirect_found :
      (h : Deps W) (r : Request) (link : Link) (w v : W)
      → resolve h.svc r.code w ≡ (ok link, v)
      → redirect h r w
        ≡ (found_at (h.location link.long_url) link.long_url, (h.publish (click h r v) v).1)
  unfolding redirect resolved
  redirect_found h r link w v p = rw p

  pub redirect_failed :
      (h : Deps W) (r : Request) (e : GoError) (w v : W)
      → resolve h.svc r.code w ≡ (err e, v)
      → redirect h r w ≡ (missing_or "could not resolve link" e, v)
  unfolding redirect resolved
  redirect_failed h r e w v p = rw p

  -- The answer of a redirect does not depend on the publisher, and unless it is a 302 nothing
  -- but the lookup is called.
  redirect-publish :
      (h : Deps W) (publish : LinkClicked → Act W (Unit {0})) (r : Request) (w : W)
      → ((redirect (record h { publish = publish }) r w).0 ≡ (redirect h r w).0)
        × (((redirect h r w).0.status ≡ 302) ⊎ ((redirect h r w).1 ≡ (resolve h.svc r.code w).1))
  redirect-publish h publish r w =
      let v = (resolve h.svc r.code w).1 in
      elim (Outcome-cases (resolve h.svc r.code w)) [
        | inl (link, p) ↦
            rw
              (
                redirect_found h r link w v p,
                redirect_found (record h { publish = publish }) r link w v p,
              )
              (refl, inl refl)
        | inr (e, p) ↦
            rw
              (
                redirect_failed h r e w v p,
                redirect_failed (record h { publish = publish }) r e w v p,
              )
              (refl, inr refl)
      ]

  pub lookup-eq :
      (svc : Service W) (s : CachingStore W) (code : String) (w : W)
      → svc.store ≡ caching_store s
      → resolve svc code w ≡ get_by_code s code w
  unfolding resolve caching_store
  lookup-eq svc s code w same = ap (λ (st : LinkStore W). st.get_by_code code w) same

  -- Over the cache, from an agreeing one, a redirect is a 302 to the URL the source holds, a 404
  -- only for a code without one, and else a 503 or a 500.
  pub redirect-IsRedirect :
      (h : Deps W) (s : CachingStore W) (entry stored : W → String → Option String) (r : Request)
      (w : W)
      → CacheEnv s entry stored
      → h.svc.store ≡ caching_store s
      → IsCoherent entry stored w
      → IsRedirect h.location (stored w r.code) (redirect h r w).0
  redirect-IsRedirect h s entry stored r w env same c =
      let served = get_by_code-IsServed s entry stored env r.code w c in
      let v = (get_by_code s r.code w).1 in
      elim (Outcome-cases (get_by_code s r.code w)) [
        | inl (link, p) ↦
            let answer = rw p at served.answer in
            rw (redirect_found h r link w v (lookup-eq h.svc s r.code w same ∙ p))
              (moved link.long_url answer.0 refl refl)
        | inr (e, p) ↦
            let answer = rw p at served.answer in
            rw (redirect_failed h r e w v (lookup-eq h.svc s r.code w same ∙ p))
              (elim (missing_or-status "could not resolve link" e) [
                | inl (absent, is404) ↦ missing (answer absent) is404
                | inr other ↦ failed other
              ])
      ]
