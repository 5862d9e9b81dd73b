-- ===== src/Shortener/Create.antt =====
-- Service.Create: what a created link is, when a link is created, and how much work is done.
use mathlib.Core.Path.{subst}
use shortn.Prelude.{
  ℕ, zero, suc, ◌≤◌, ◌<◌, String, ◌≡◌, refl, ◌∙◌, ◌↔◌, inl, inr, true, false, arith, Bool-cases,
}
use shortn.Error.{GoError, err_code_exists, errors_is, errorf}
use shortn.Act.{Result, ok, err, Outcome-cases, Result-cases}
use shortn.Shortener.{Link, Service, draft, max_create_retries, no_unique_code, create_loop, create}
use shortn.Shortener.Url.{UrlLib, normalize_url}

module _ {W : Type 0} (s : Service W) where
  -- A round in which the generated code was taken: it leads from one world to another.
  pub record Collides (url : String) (w w' : W) : Type 0 where
    pub code : String
    pub between : W
    pub generated : s.idgen.generate w ≡ (ok code, between)
    pub error : GoError
    pub refused : s.store.create (draft code url) between ≡ (err error, w')
    pub taken : errors_is error err_code_exists ≡ true

  -- A number of rounds, each with a collision.
  pub data Collisions (url : String) : ℕ → W → W → Type 0 where
    none_yet : {w : W} → Collisions url zero w w
    one_more :
        {n : ℕ} {w v w' : W}
        → Collides url w v
        → Collisions url n v w'
        → Collisions url (suc n) w w'

  -- A round in which the store accepted the link.
  pub record Inserts (url : String) (link : Link) (w w' : W) : Type 0 where
    pub code : String
    pub between : W
    pub generated : s.idgen.generate w ≡ (ok code, between)
    pub inserted : s.store.create (draft code url) between ≡ (ok link, w')

  -- How the loop ends in the world `v` that `k` collisions led to, of the `n` rounds allowed.
  pub data Last (n k : ℕ) (url : String) (v : W) (r : Result Link) (w' : W) : Type 0 where
    accepted : (link : Link) → k < n → Inserts url link v w' → r ≡ ok link → Last n k url v r w'
    generator_failed :
        (e : GoError)
        → k < n
        → s.idgen.generate v ≡ (err e, w')
        → r ≡ err (errorf "generating code" e)
        → Last n k url v r w'
    store_failed :
        (code : String) (u : W) (e : GoError)
        → k < n
        → s.idgen.generate v ≡ (ok code, u)
        → s.store.create (draft code url) u ≡ (err e, w')
        → errors_is e err_code_exists ≡ false
        → r ≡ err (errorf "persisting link" e)
        → Last n k url v r w'
    exhausted : k ≡ n → w' ≡ v → r ≡ err no_unique_code → Last n k url v r w'

  -- A whole run of the loop: some collisions, then one of the four ends.
  pub record Ends (n : ℕ) (url : String) (w : W) (r : Result Link) (w' : W) : Type 0 where
    pub collisions : ℕ
    pub before : W
    pub collided : Collisions url collisions w before
    pub last : Last n collisions url before r w'

  round-Collides :
      (n : ℕ) (url : String) (w w' : W)
      → Collides url w w'
      → create_loop s (suc n) url w ≡ create_loop s n url w'
  unfolding create_loop
  round-Collides n url w w' c = rw (c.generated, c.refused, c.taken)

  Last-round :
      (n : ℕ) (url : String) (v : W) (r : Result Link) (w' : W)
      → Last n 0 url v r w'
      → create_loop s n url v ≡ (r, w')
  unfolding create_loop
  Last-round zero url v r w' (exhausted _ e h) = cc
  Last-round zero url v r w' (accepted link h i e) = absurd (omega arith)
  Last-round zero url v r w' (generator_failed x h g e) = absurd (omega arith)
  Last-round zero url v r w' (store_failed code u x h g p q e) = absurd (omega arith)
  Last-round (suc n) url v r w' (exhausted h _ _) = absurd (omega arith)
  Last-round (suc n) url v r w' (accepted link h i e) = rw (i.generated, i.inserted, e)
  Last-round (suc n) url v r w' (generator_failed x h g e) = rw (g, e)
  Last-round (suc n) url v r w' (store_failed code u x h g p q e) = rw (g, p, q, e)

  Last-pred :
      (n k : ℕ) (url : String) (v : W) (r : Result Link) (w' : W)
      → Last (suc n) (suc k) url v r w'
      → Last n k url v r w'
  Last-pred n k url v r w' (accepted link h i e) = accepted link (omega arith) i e
  Last-pred n k url v r w' (generator_failed x h g e) = generator_failed x (omega arith) g e
  Last-pred n k url v r w' (store_failed code u x h g p q e) =
      store_failed code u x (omega arith) g p q e
  Last-pred n k url v r w' (exhausted h e f) = exhausted (omega arith) e f

  Last-suc :
      (n k : ℕ) (url : String) (v : W) (r : Result Link) (w' : W)
      → Last n k url v r w'
      → Last (suc n) (suc k) url v r w'
  Last-suc n k url v r w' (accepted link h i e) = accepted link (omega arith) i e
  Last-suc n k url v r w' (generator_failed x h g e) = generator_failed x (omega arith) g e
  Last-suc n k url v r w' (store_failed code u x h g p q e) =
      store_failed code u x (omega arith) g p q e
  Last-suc n k url v r w' (exhausted h e f) = exhausted (omega arith) e f

  Last-le :
      (n k : ℕ) (url : String) (v : W) (r : Result Link) (w' : W) → Last n k url v r w' → k ≤ n
  Last-le n k url v r w' (accepted link h i e) = omega arith
  Last-le n k url v r w' (generator_failed x h g e) = omega arith
  Last-le n k url v r w' (store_failed code u x h g p q e) = omega arith
  Last-le n k url v r w' (exhausted h e f) = omega arith

  loop_of_Last :
      (n k : ℕ) (url : String) (w v : W) (r : Result Link) (w' : W)
      → Collisions url k w v
      → Last n k url v r w'
      → create_loop s n url w ≡ (r, w')
  loop_of_Last n zero url w v r w' none_yet l = Last-round n url w r w' l
  loop_of_Last zero (suc k) url w v r w' (one_more c cs) l =
      absurd (omega (arith, Last-le zero (suc k) url v r w' l))
  loop_of_Last (suc n) (suc k) url w v r w' (one_more {v = u} c cs) l =
      round-Collides n url w u c ∙ loop_of_Last n k url u v r w' cs (Last-pred n k url v r w' l)

  -- One more round in front.
  Ends-Collides :
      (n : ℕ) (url : String) (w u : W) (r : Result Link) (w' : W)
      → Collides url w u
      → Ends n url u r w'
      → Ends (suc n) url w r w'
  Ends-Collides n url w u r w' c e = record {
    collisions = suc e.collisions;
    before = e.before;
    collided = one_more c e.collided;
    last = Last-suc n e.collisions url e.before r w' e.last;
  }

  Ends-now :
      (n : ℕ) (url : String) (w : W) (r : Result Link) (w' : W)
      → Last n 0 url w r w'
      → Ends n url w r w'
  Ends-now n url w r w' l = record { collisions = 0; before = w; collided = none_yet; last = l }

  Ends-loop :
      (n : ℕ) (url : String) (w : W)
      → Ends n url w (create_loop s n url w).0 (create_loop s n url w).1
  unfolding create_loop
  Ends-loop zero url w = Ends-now zero url w _ _ (exhausted refl refl refl)
  Ends-loop (suc n) url w = elim (Outcome-cases (s.idgen.generate w)) [
    | inr (e, g) ↦ rw g (Ends-now (suc n) url w _ _ (generator_failed e (omega arith) g refl))
    | inl (code, g) ↦
        let u = (s.idgen.generate w).1 in
        elim (Outcome-cases (s.store.create (draft code url) u)) [
          | inl (link, p) ↦
              rw (g, p)
                (Ends-now (suc n) url w _ _ (
                  accepted link (omega arith)
                    (record { code = code; between = u; generated = g; inserted = p }) refl))
          | inr (e, p) ↦ elim (Bool-cases (errors_is e err_code_exists)) [
            | inl taken ↦
                let c : Collides url w (s.store.create (draft code url) u).1 = record {
                  code = code;
                  between = u;
                  generated = g;
                  error = e;
                  refused = p;
                  taken = taken;
                } in
                rw (round-Collides n url w _ c) (
                  Ends-Collides n url w _ _ _ c
                    (Ends-loop n url (s.store.create (draft code url) u).1))
            | inr other ↦
                rw (g, p, other)
                  (Ends-now (suc n) url w _ _ (store_failed code u e (omega arith) g p other refl))
          ]
        ]
  ]

  -- A run of Create: the URL is refused and nothing else happens, or the loop runs on its normal form.
  pub data Creates (lib : UrlLib) (raw : String) (w : W) (r : Result Link) (w' : W) : Type 0 where
    refused :
        (e : GoError) → normalize_url lib raw ≡ err e → r ≡ err e → w' ≡ w → Creates lib raw w r w'
    ran :
        (url : String)
        → normalize_url lib raw ≡ ok url
        → Ends max_create_retries url w r w'
        → Creates lib raw w r w'

  Creates-create :
      (lib : UrlLib) (raw : String) (w : W)
      → Creates lib raw w (create s lib raw w).0 (create s lib raw w).1
  unfolding create
  Creates-create lib raw w = elim (Result-cases (normalize_url lib raw)) [
    | inl (url, h) ↦ rw h (ran url h (Ends-loop max_create_retries url w))
    | inr (e, h) ↦ rw h (refused e h refl refl)
  ]

  create_of_Creates :
      (lib : UrlLib) (raw : String) (w : W) (r : Result Link) (w' : W)
      → Creates lib raw w r w'
      → create s lib raw w ≡ (r, w')
  unfolding create
  create_of_Creates lib raw w r w' (refused e h p q) = rw (h, p, q)
  create_of_Creates lib raw w r w' (ran url h e) =
      rw h (loop_of_Last max_create_retries e.collisions url w e.before r w' e.collided e.last)

  -- Create gives a result and a world exactly when a run of at most five rounds does: the URL is
  -- refused with nothing else done, or after some collisions a code is accepted, a dependency
  -- fails, or all rounds are used up.
  pub create-eq_iff :
      (lib : UrlLib) (raw : String) (w : W) (r : Result Link) (w' : W)
      → (create s lib raw w ≡ (r, w')) ↔ Creates lib raw w r w'
  create-eq_iff lib raw w r w' = (
    λ e. subst (λ p. Creates lib raw w p.0 p.1) e (Creates-create lib raw w),
    create_of_Creates lib raw w r w',
  )
