-- ===== src/Api/Idempotent.antt =====
-- Creates with an Idempotency-Key, while other requests may claim the same key at any time.
mod Tests
use shortn.Prelude.{
  ℕ, String, Bool, true, false, ◌≡◌, ◌≢◌, refl, sym, ◌∙◌, ◌⊎◌, inl, inr, Option, none, some, arith,
  Bool-cases, Option-cases, str_eq, eq_iff, if◌then◌else◌,
}
use shortn.Error.{GoError, sentinel, err_invalid_url, err_redis_nil, errors_is, error_text}
use shortn.Act.{Result, ok, err, Result-cases, Outcome-cases}
use shortn.Shortener.{Link, resolve}
use shortn.Shortener
use shortn.Idempotency.{Store, redis_key, recorded, get, set}
use shortn.Api.{
  Request, Body, no_body, text, error_body, created_body, stats_body, links_body, link_body,
  Response, write_error,
}
use shortn.Api.Told.{told_code, refusal, refusal_told}
use shortn.Api.Links.{
  Deps, service_unavailable, unavailable_or, write_created_link, replayed, respond_with_code,
  winner, claimed, made, make_link, looked_up, decoded, create_link,
}

-- The handler with the idempotency store.
abbrev pub wired : {W : Type 0} → Deps W → Store W → Deps W
wired h s = record h { idem_get = get s; idem_set = set s }

module _ {W : Type 0} (h : Deps W) (s : Store W) (entry : W → String → Option String) where
  -- Keys that are taken stay as they are: nothing overwrites one, and none expires.
  abbrev pub Keeps : W → W → Type 0
  Keeps w w' = (k v : String) → entry w k ≡ some v → entry w' k ≡ some v

  -- Redis answers each command; what happens between two commands may take further keys.
  pub record IdemEnv : Type 0 where
    pub get_keeps : (k : String) (w : W) → Keeps w (s.rdb.get k w).1
    pub get_ok :
        (k : String) {v : String} {w w' : W} → s.rdb.get k w ≡ (ok v, w') → entry w' k ≡ some v
    pub get_taken :
        (k : String) {v : String} {e : GoError} {w w' : W}
        → s.rdb.get k w ≡ (err e, w')
        → entry w k ≢ some v
    pub get_nil :
        (k : String) {e : GoError} {w w' : W}
        → s.rdb.get k w ≡ (err e, w')
        → errors_is e err_redis_nil ≡ true
    pub set_keeps : (k v : String) (w : W) → Keeps w (s.rdb.set_nx k v s.ttl w).1
    pub set_won :
        (k v : String) {w w' : W} → s.rdb.set_nx k v s.ttl w ≡ (ok true, w') → entry w' k ≡ some v
    pub set_lost :
        (k v : String) {w w' : W}
        → s.rdb.set_nx k v s.ttl w ≡ (ok false, w')
        → (u : String) × (entry w' k ≡ some u)
    pub set_answers :
        (k v : String) {e : GoError} {w w' : W} → s.rdb.set_nx k v s.ttl w ≢ (err e, w')
    pub create_keeps : (url : String) (w : W) → Keeps w (Shortener.create h.svc h.lib url w).1
    pub resolve_keeps : (code : String) (w : W) → Keeps w (resolve h.svc code w).1
    pub resolve_code :
        (code : String) (link : Link) (w w' : W)
        → resolve h.svc code w ≡ (ok link, w')
        → link.code ≡ code

  -- What a request leaves: the keys that were taken, and under its own the code it is answered with.
  pub record IsRecorded (k : String) (w : W) (a : Response) (w' : W) : Type 0 where
    pub kept : Keeps w w'
    pub told : (code : String) → told_code a.body ≡ some code → entry w' k ≡ some code

  IsRecorded-later :
      (k : String) {u w w' : W} {a : Response}
      → Keeps u w
      → IsRecorded k w a w'
      → IsRecorded k u a w'
  IsRecorded-later k q t = record { kept = λ j v e. t.kept j v (q j v e); told = t.told }

  module _ (env : IdemEnv) (r : Request) where
    respond_with_code-IsRecorded :
        (code : String) (w : W)
        → entry w (redis_key r.idempotency_key) ≡ some code
        → IsRecorded
            (redis_key r.idempotency_key)
            w
            (respond_with_code (wired h s) r code w).0
            (respond_with_code (wired h s) r code w).1
    unfolding respond_with_code replayed
    respond_with_code-IsRecorded code w known =
        let v = (resolve h.svc code w).1 in
        let kept = env.resolve_keeps code w in
        elim (Outcome-cases (resolve h.svc code w)) [
          | inl (link, p) ↦ rw p (record {
            kept = kept;
            told = λ c e. kept _ code known ∙ (let same = env.resolve_code code link w v p in cc);
          })
          | inr (e, p) ↦ rw p (record { kept = kept; told = λ c e. cc })
        ]

    wins :
        (link : Link) (w : W)
        → entry w (redis_key r.idempotency_key) ≡ some link.code
        → IsRecorded (redis_key r.idempotency_key) w (write_created_link r link) w
    wins link w known = record { kept = λ k v e. e; told = λ c e. known ∙ e }

    -- The claim was lost, so the key is taken.
    winner-IsRecorded :
        (link : Link) (u : String) (w : W)
        → entry w (redis_key r.idempotency_key) ≡ some u
        → let (found, v) = get s r.idempotency_key w in
          IsRecorded
            (redis_key r.idempotency_key)
            w
            (winner (wired h s) r link found v).0
            (winner (wired h s) r link found v).1
    unfolding winner get recorded
    winner-IsRecorded link u w taken =
        let k = redis_key r.idempotency_key in
        let v = (s.rdb.get k w).1 in
        elim (Outcome-cases (s.rdb.get k w)) [
          | inl (code, p) ↦ rw p (
              IsRecorded-later k (env.get_keeps k w)
                (respond_with_code-IsRecorded code v (env.get_ok k p)))
          | inr (e, p) ↦ absurd (env.get_taken k p taken)
        ]

    claimed-IsRecorded :
        (link : Link) (w : W)
        → let (won, v) = set s r.idempotency_key link.code w in
          IsRecorded
            (redis_key r.idempotency_key)
            w
            (claimed (wired h s) r link won v).0
            (claimed (wired h s) r link won v).1
    unfolding claimed set
    claimed-IsRecorded link w =
        let k = redis_key r.idempotency_key in
        let v = (s.rdb.set_nx k link.code s.ttl w).1 in
        let kept = env.set_keeps k link.code w in
        elim (Outcome-cases (s.rdb.set_nx k link.code s.ttl w)) [
          | inr (e, p) ↦ absurd (env.set_answers k link.code p)
          | inl (won, p) ↦ elim (Bool-cases won) [
            | inl first ↦
                rw (p, first)
                  (IsRecorded-later k kept (wins link v (env.set_won k link.code (rw first at p))))
            | inr second ↦
                let (u, taken) = env.set_lost k link.code (rw second at p) in
                rw (p, second) (IsRecorded-later k kept (winner-IsRecorded link u v taken))
          ]
        ]

    module _ (keyed : str_eq r.idempotency_key "" ≡ false) where
      make_link-IsRecorded :
          (url : String) (w : W)
          → IsRecorded
              (redis_key r.idempotency_key)
              w
              (make_link (wired h s) r url w).0
              (make_link (wired h s) r url w).1
      unfolding make_link made
      make_link-IsRecorded url w =
          let k = redis_key r.idempotency_key in
          let v = (Shortener.create h.svc h.lib url w).1 in
          let kept = env.create_keeps url w in
          elim (Outcome-cases (Shortener.create h.svc h.lib url w)) [
            | inl (link, p) ↦ rw (p, keyed) (IsRecorded-later k kept (claimed-IsRecorded link v))
            | inr (e, p) ↦ rw p (record { kept = kept; told = λ c t. absurd (refusal_told e c t) })
          ]

      looked_up-IsRecorded :
          (url : String) (w : W)
          → let (found, v) = get s r.idempotency_key w in
            IsRecorded
              (redis_key r.idempotency_key)
              w
              (looked_up (wired h s) r url found v).0
              (looked_up (wired h s) r url found v).1
      unfolding looked_up get recorded
      looked_up-IsRecorded url w =
          let k = redis_key r.idempotency_key in
          let v = (s.rdb.get k w).1 in
          elim (Outcome-cases (s.rdb.get k w)) [
            | inl (code, p) ↦ rw p (
                IsRecorded-later k (env.get_keeps k w)
                  (respond_with_code-IsRecorded code v (env.get_ok k p)))
            | inr (e, p) ↦
                rw (p, env.get_nil k p)
                  (IsRecorded-later k (env.get_keeps k w) (make_link-IsRecorded url v))
          ]

      create_link-IsRecorded :
          (w : W)
          → IsRecorded
              (redis_key r.idempotency_key)
              w
              (create_link (wired h s) r w).0
              (create_link (wired h s) r w).1
      unfolding create_link decoded
      create_link-IsRecorded w = elim (Result-cases (h.decode r.body)) [
        | inr (e, p) ↦ rw p (record { kept = λ k v t. t; told = λ c t. cc })
        | inl (url, p) ↦ elim (Bool-cases (str_eq url "")) [
          | inl blank ↦ rw (p, blank) (record { kept = λ k v t. t; told = λ c t. cc })
          | inr given ↦ rw (p, given, keyed) (looked_up-IsRecorded url w)
        ]
      ]

  -- While Redis answers and no key expires, if a create with an Idempotency-Key is answered with
  -- a code, a later create with that key that is answered with a code gets the same one,
  -- whatever other requests claim in between or while the handlers run.
  pub create_link-same_code :
      (first second : Request) (w u : W) (code : String)
      → IdemEnv
      → first.idempotency_key ≢ ""
      → second.idempotency_key ≡ first.idempotency_key
      → Keeps (create_link (wired h s) first w).1 u
      → told_code (create_link (wired h s) first w).0.body ≡ some code
      → told_code (create_link (wired h s) second u).0.body ≢ none
      → told_code (create_link (wired h s) second u).0.body ≡ some code
  create_link-same_code first second w u code env keyed same later p created =
      let fresh : str_eq first.idempotency_key "" ≡ false =
        ground (arith, eq_iff first.idempotency_key "") in
      let a = create_link-IsRecorded env first fresh w in
      let b = create_link-IsRecorded env second (rw same fresh) u in
      elim (Option-cases (told_code (create_link (wired h s) second u).0.body)) [
        | inl silent ↦ absurd (created silent)
        | inr (d, q) ↦
            let told = b.told d q in let kept = b.kept _ code (later _ code (a.told code p)) in cc
      ]
