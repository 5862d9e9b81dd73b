-- ===== src/Api/Told.antt =====
-- The code that the answer to a create tells, and where it comes from.
use shortn.Prelude.{
  true, String, ◌≡◌, ◌≢◌, refl, inl, inr, Option, none, some, Bool-cases, str_eq, if◌then◌else◌,
}
use shortn.Error.{GoError, err_invalid_url, errors_is, error_text}
use shortn.Act.{ok, Result-cases, Outcome-cases}
use shortn.Shortener.{Link}
use shortn.Shortener
use shortn.Api.{
  Request, Body, no_body, text, error_body, created_body, stats_body, links_body, link_body,
  Response, write_error,
}
use shortn.Api.Links.{
  Deps, service_unavailable, unavailable_or, write_created_link, made, make_link, decoded,
  create_link,
}

-- The code that a created link is answered with.
abbrev pub told_code : Body → Option String
told_code (created_body c) = some c.code
told_code no_body = none
told_code (text s) = none
told_code (error_body why) = none
told_code (stats_body s) = none
told_code (links_body ls) = none
told_code (link_body url) = none

-- The answer to a create that failed.
abbrev pub refusal : GoError → Response
refusal e =
    if errors_is e err_invalid_url
    then write_error 400 (error_text e)
    else unavailable_or "could not create link" e

pub refusal_told : (e : GoError) (c : String) → told_code (refusal e).body ≢ some c
refusal_told e c t = elim (Bool-cases (errors_is e err_invalid_url)) [
  | inl invalid ↦ (let u = rw invalid at t in cc)
  | inr other ↦ elim (Bool-cases (service_unavailable e)) [
    | inl busy ↦ (let u = rw (other, busy) at t in cc)
    | inr broken ↦ (let u = rw (other, broken) at t in cc)
  ]
]

module _ {W : Type 0} (h : Deps W) (r : Request) where
  -- A create that is answered with the link it made.
  pub record IsCreated (w : W) (a : Response) (u : W) : Type 0 where
    pub raw : String
    pub link : Link
    pub decodes : h.decode r.body ≡ ok raw
    pub creates : Shortener.create h.svc h.lib raw w ≡ (ok link, u)
    pub answer : a ≡ write_created_link r link

  make_link-IsCreated :
      (raw code : String) (w : W)
      → h.decode r.body ≡ ok raw
      → str_eq r.idempotency_key "" ≡ true
      → told_code (make_link h r raw w).0.body ≡ some code
      → IsCreated w (make_link h r raw w).0 (make_link h r raw w).1
  unfolding make_link made
  make_link-IsCreated raw code w d plain t =
      elim (Outcome-cases (Shortener.create h.svc h.lib raw w)) [
        | inl (link, p) ↦
            rw (p, plain)
              (record { raw = raw; link = link; decodes = d; creates = p; answer = refl })
        | inr (e, p) ↦ absurd (refusal_told e code (rw p at t))
      ]

  -- Without an Idempotency-Key a code is told only of a link that was created.
  pub create_link-IsCreated :
      (code : String) (w : W)
      → str_eq r.idempotency_key "" ≡ true
      → told_code (create_link h r w).0.body ≡ some code
      → IsCreated w (create_link h r w).0 (create_link h r w).1
  unfolding create_link decoded
  create_link-IsCreated code w plain t = elim (Result-cases (h.decode r.body)) [
    | inr (e, d) ↦ absurd (let k = rw d at t in cc)
    | inl (raw, d) ↦ elim (Bool-cases (str_eq raw "")) [
      | inl blank ↦ absurd (let k = rw (d, blank) at t in cc)
      | inr there ↦
          let k = rw (d, there, plain) at t in
          rw (d, there, plain) (make_link-IsCreated raw code w d plain k)
    ]
  ]
