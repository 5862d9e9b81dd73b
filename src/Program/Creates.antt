-- ===== src/Program/Creates.antt =====
-- A create through the whole stack, and the redirect that follows it.
mod Tests
use shortn.Prelude.{
  ℕ, String, is_text, Bool, str_eq, eq_iff, ◌≡◌, ◌≢◌, refl, sym, ap, ◌∙◌, inl, inr, true, Option,
  none, some, arith, Bool-cases,
}
use shortn.Error.{errors_is, err_code_exists}
use shortn.Act.{outcome_fst, outcome_snd, Result, ok, err, Result-cases}
use shortn.Redis.{Fades}
use shortn.Shortener.{Link, draft, IdGenerator, Service, max_create_retries}
use shortn.Shortener
use shortn.Shortener.Url.{Url, UrlLib, normalize_url}
use shortn.Shortener.Create.{
  Collides, Collisions, none_yet, one_more, Inserts, Last, accepted, generator_failed, store_failed,
  exhausted, Ends, Creates, refused, ran, create-eq_iff,
}
use shortn.Resilience.Laws.{Phase}
use shortn.Cache.{key, tombstone, caching_store}
use shortn.Cache
use shortn.Cache.Coherent.{IsQuiet, IsQuiet-trans, IsCoherent, IsCoherent-quiet}
use shortn.Cache.Writes.{create-IsCoherent}
use shortn.Api.{Request, Response}
use shortn.Api.Links.{Deps, create_link, redirect}
use shortn.Api.Told.{told_code, IsCreated, create_link-IsCreated}
use shortn.Program.{Backends, svc, caching}
use shortn.Program.Lookup.{stored_in}
use shortn.Program.Stack.{StackLaws, stored, caching-env}
use shortn.Program.Writes.{create-IsWrite, create_taken, create_made, write-env}
use shortn.Program.Redirect.{IsUp, redirect-answers}

module _ {W : Type 0} (b : Backends W) (entry : W → String → Option String) (phase : W → Phase)
    (laws : StackLaws b entry phase) (gen : IdGenerator W)
    (gen_quiet : (w : W) → IsQuiet entry (stored b entry phase laws) w (gen.generate w).1) where
  abbrev source : W → String → Option String
  source = stored b entry phase laws

  -- The store's Create as the service calls it is that of the breaker over Postgres.
  svc_create :
      (link : Link) (w : W) → (svc b gen).store.create link w ≡ (caching b).next.create link w
  unfolding caching_store Cache.create
  svc_create link w = refl

  generated-IsQuiet :
      (w v : W) (code : String) → gen.generate w ≡ (ok code, v) → IsQuiet entry source w v
  generated-IsQuiet w v code e = rw (outcome_snd e) at (gen_quiet w)

  Collides-IsQuiet :
      (url : String) (w v : W) → Collides (svc b gen) url w v → IsQuiet entry source w v
  Collides-IsQuiet url w v c =
      let link = draft c.code url in
      let e = sym (svc_create link c.between) ∙ c.refused in
      IsQuiet-trans entry source (generated-IsQuiet w c.between c.code c.generated) (
        rw (outcome_snd e) at (
          create_taken b entry phase laws link c.between c.error _ _ (outcome_fst e) c.taken
            (create-IsWrite b entry phase laws link c.between)))

  Collisions-IsQuiet :
      (url : String) (n : ℕ) {w v : W} → Collisions (svc b gen) url n w v → IsQuiet entry source w v
  Collisions-IsQuiet url n {w} none_yet = record { kept = λ c. refl; faded = λ k. inl refl }
  Collisions-IsQuiet url n (one_more {n = m} {w} {v} c cs) =
      IsQuiet-trans entry source (Collides-IsQuiet url w v c) (Collisions-IsQuiet url m cs)

  -- What a create leaves that succeeds.
  record IsMade (url : String) (link : Link) (u : W) : Type 0 where
    coherent : IsCoherent entry source u
    held : source u link.code ≡ some url
    same : link.long_url ≡ url
    text : is_text link.code ≡ true

  Inserts-IsMade :
      (url : String) (link : Link) (w u : W)
      → Inserts (svc b gen) url link w u
      → IsCoherent entry source w
      → entry w (key link.code) ≡ none
      → url ≢ tombstone
      → IsMade url link u
  unfolding Cache.create
  Inserts-IsMade url link w u i c absent real =
      let made = draft i.code url in
      let v = i.between in
      let q = generated-IsQuiet w v i.code i.generated in
      let e = sym (svc_create made v) ∙ i.inserted in
      let (there, same, to, text) =
        create_made b entry phase laws made link v _ _ (outcome_fst e)
          (create-IsWrite b entry phase laws made v) in
      let empty : entry v (key i.code) ≡ none =
        ground (arith, q.faded (key i.code), same, absent) in
      record {
        coherent =
            create-IsCoherent (caching b) entry source (write-env b entry phase laws) made link v u
              (IsCoherent-quiet entry source q c) e empty real;
        held = rw same (ap (λ (x : W). source x i.code) (sym (outcome_snd e)) ∙ there);
        same = to;
        text = ap is_text same ∙ text;
      }

  Last-IsMade :
      (n k : ℕ) (url : String) (link : Link) (w : W) (r : Result Link) (u : W)
      → r ≡ ok link
      → Last (svc b gen) n k url w r u
      → IsCoherent entry source w
      → entry w (key link.code) ≡ none
      → url ≢ tombstone
      → IsMade url link u
  Last-IsMade n k url link w r u e (accepted l h i f) c absent real =
      let same : l ≡ link = let k = sym f ∙ e in cc in
      Inserts-IsMade url link w u (rw same at i) c absent real
  Last-IsMade n k url link w r u e (generator_failed x h g f) c absent real =
      absurd (let k = sym f ∙ e in cc)
  Last-IsMade n k url link w r u e (store_failed code v x h g p q f) c absent real =
      absurd (let k = sym f ∙ e in cc)
  Last-IsMade n k url link w r u e (exhausted h g f) c absent real =
      absurd (let k = sym f ∙ e in cc)

  -- The URL of a created link is the normal form of the one that was sent.
  Creates-IsMade :
      (lib : UrlLib) (raw : String) (link : Link) (w : W) (r : Result Link) (u : W)
      → r ≡ ok link
      → Creates (svc b gen) lib raw w r u
      → IsCoherent entry source w
      → entry w (key link.code) ≡ none
      → ((url : String) → normalize_url lib raw ≡ ok url → url ≢ tombstone)
      → (url : String) × (normalize_url lib raw ≡ ok url) × IsMade url link u
  Creates-IsMade lib raw link w r u e (refused x h f g) c absent real =
      absurd (let k = sym f ∙ e in cc)
  Creates-IsMade lib raw link w r u e (ran url h ends) c absent real =
      let q = Collisions-IsQuiet url ends.collisions ends.collided in
      (
        url,
        h,
        Last-IsMade max_create_retries ends.collisions url link ends.before r u e ends.last
            (IsCoherent-quiet entry source q c) (ground (arith, q.faded (key link.code), absent))
            (real url h),
      )

  module _ (get_up : (k : String) (w : W) → IsUp b phase w → IsUp b phase (b.rdb.get k w).1)
      (count_up : (hit : Bool) (w : W) → IsUp b phase w → IsUp b phase (b.count hit w)) where
    -- Over the whole stack, from an agreeing cache: a create without an Idempotency-Key that is
    -- answered with a code is answered with 201, and a redirect of that code right after it with
    -- 302 to the normal form of the URL that was sent; if nothing was cached for the code,
    -- Postgres answers and the breaker is closed after the create, the generator touches neither
    -- links nor entries, and no normal form is the tombstone.
    pub create_link-redirect :
        (h : Deps W) (r follow : Request) (code : String) (w : W)
        → h.svc ≡ svc b gen
        → ((raw url : String) → normalize_url h.lib raw ≡ ok url → url ≢ tombstone)
        → IsCoherent entry source w
        → entry w (key code) ≡ none
        → r.idempotency_key ≡ ""
        → told_code (create_link h r w).0.body ≡ some code
        → IsUp b phase (create_link h r w).1
        → follow.code ≡ code
        → (raw url : String) × (h.decode r.body ≡ ok raw)
          × (normalize_url h.lib raw ≡ ok url)
          × ((create_link h r w).0.status ≡ 201)
          × ((redirect h follow (create_link h r w).1).0.status ≡ 302)
          × ((redirect h follow (create_link h r w).1).0.location ≡ some (h.location url))
    create_link-redirect h r follow code w same real c absent plain told up asks =
        let u = (create_link h r w).1 in
        let keyless : str_eq r.idempotency_key "" ≡ true =
          ground (arith, eq_iff r.idempotency_key "") in
        let i = create_link-IsCreated h r code w keyless told in
        let named : i.link.code ≡ code = let k = rw i.answer at told in cc in
        let e = sym (ap (λ (s : Service W). Shortener.create s h.lib i.raw w) same) ∙ i.creates in
        let (url, normal, m) =
          Creates-IsMade h.lib i.raw i.link w (ok i.link) u refl
            ((create-eq_iff (svc b gen) h.lib i.raw w (ok i.link) u).0 e) c
            (ap (λ (x : String). entry w (key x)) named ∙ absent) (real i.raw) in
        let there : source u follow.code ≡ some url = ap (source u) (asks ∙ sym named) ∙ m.held in
        let followed : ((redirect h follow u).0.status ≡ 302)
            × ((redirect h follow u).0.location ≡ some (h.location url)) =
          elim (redirect-answers b entry phase laws get_up count_up h gen follow u same m.coherent
            up (ap is_text (asks ∙ sym named) ∙ m.text)) [
              | inl (found, held, status, location) ↦ (
                status,
                location
                    ∙ ap (λ (x : String). some (h.location x)) (let k = sym held ∙ there in cc),
              )
              | inr (gone, status) ↦ absurd (let k = sym gone ∙ there in cc)
            ] in
        (
          i.raw,
          url,
          i.decodes,
          normal,
          ap (λ (a : Response). a.status) i.answer,
          followed.0,
          followed.1,
        )
