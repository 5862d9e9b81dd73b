-- ===== src/Cache/Reads.antt =====
-- GetByCode of the cache answers as the source of truth would, and keeps the cache in agreement.
use shortn.Prelude.{
  String, Bool, true, false, ◌≡◌, refl, inl, inr, ◌∙◌, sym, Option, none, some, arith, Bool-cases,
  Option-cases, str_eq, eq_iff,
}
use shortn.Error.{GoError, sentinel, err_not_found, err_redis_nil, errors_is}
use shortn.Act.{Result, ok, err, Outcome-cases}
use shortn.Shortener.{Link}
use shortn.Cache.{
  CachingStore, tombstone, negative_ttl, key, from_cached, load_and_cache, get_by_code,
}
use shortn.Cache.Coherent.{
  IsQuiet, IsQuiet-trans, IsCoherent, IsCoherent-quiet, CacheEnv, set-IsCoherent,
}

-- A right answer to a lookup: the URL that is stored, or ErrNotFound only if none is. Any other
-- error says nothing of the link.
abbrev pub Answers : Option String → String → Result Link → Type 0
Answers found code (ok link) = (found ≡ some link.long_url) × (link.code ≡ code)
Answers found code (err e) = errors_is e err_not_found ≡ true → found ≡ none

module _ {W : Type 0} (s : CachingStore W) where
  pub load_found :
      (code : String) (link : Link) (w v : W)
      → s.next.get_by_code code w ≡ (ok link, v)
      → load_and_cache s code w ≡ (ok link, (s.cache.set (key code) link.long_url s.ttl v).1)
  unfolding load_and_cache
  load_found code link w v p = rw p

  pub load_missing :
      (code : String) (e : GoError) (w v : W)
      → s.next.get_by_code code w ≡ (err e, v)
      → errors_is e err_not_found ≡ true
      → load_and_cache s code w
        ≡ (err (sentinel err_not_found), (s.cache.set (key code) tombstone negative_ttl v).1)
  unfolding load_and_cache
  load_missing code e w v p h = rw (p, h)

  pub load_failed :
      (code : String) (e : GoError) (w v : W)
      → s.next.get_by_code code w ≡ (err e, v)
      → errors_is e err_not_found ≡ false
      → load_and_cache s code w ≡ (err e, v)
  unfolding load_and_cache
  load_failed code e w v p h = rw (p, h)

  pub get_hit :
      (code val : String) (w v : W)
      → s.cache.get (key code) w ≡ (ok val, v)
      → get_by_code s code w ≡ (from_cached code val, s.count true v)
  unfolding get_by_code
  get_hit code val w v p = rw p

  -- A miss and an error of Redis go the same way.
  pub get_miss :
      (code : String) (e : GoError) (w v : W)
      → s.cache.get (key code) w ≡ (err e, v)
      → get_by_code s code w ≡ s.flight code (load_and_cache s code) (s.count false v)
  unfolding get_by_code
  get_miss code e w v p = elim (Bool-cases (errors_is e err_redis_nil)) [
    | inl absent ↦ rw (p, absent)
    | inr broken ↦ rw (p, broken)
  ]

module _ {W : Type 0} (s : CachingStore W) (entry stored : W → String → Option String) where
  pub record IsServed (code : String) (w : W) (r : Result Link) (w' : W) : Type 0 where
    pub answer : Answers (stored w code) code r
    pub kept : (c : String) → stored w' c ≡ stored w c
    pub coherent : IsCoherent entry stored w'

  IsServed-later :
      (code : String) {u w : W} {r : Result Link} {w' : W}
      → IsQuiet entry stored u w
      → IsServed code w r w'
      → IsServed code u r w'
  IsServed-later code {u} {w} {r} q t = record {
    answer = rw (sym (q.kept code)) t.answer;
    kept = λ c. t.kept c ∙ q.kept c;
    coherent = t.coherent;
  }

  module _ (env : CacheEnv s entry stored) where
    load-IsServed :
        (code : String) (w : W)
        → IsCoherent entry stored w
        → IsServed code w (load_and_cache s code w).0 (load_and_cache s code w).1
    load-IsServed code w c =
        let v = (s.next.get_by_code code w).1 in
        let q = env.read_quiet code w in
        let cv = IsCoherent-quiet entry stored q c in
        elim (Outcome-cases (s.next.get_by_code code w)) [
          | inl (link, p) ↦
              let (found, same) = env.read_found code p in
              rw (load_found s code link w v p) (record {
                answer = (found, same);
                kept = λ d. env.set_stored (key code) link.long_url s.ttl d v ∙ q.kept d;
                coherent =
                    set-IsCoherent s entry stored env code link.long_url s.ttl v
                      (ground (arith, found, q.kept code)) cv;
              })
          | inr (e, p) ↦ elim (Bool-cases (errors_is e err_not_found)) [
            | inl absent ↦
                let missing = env.read_missing code p absent in
                rw (load_missing s code e w v p absent) (record {
                  answer = λ _. missing;
                  kept = λ d. env.set_stored (key code) tombstone negative_ttl d v ∙ q.kept d;
                  coherent =
                      set-IsCoherent s entry stored env code tombstone negative_ttl v
                        (ground (arith, missing, q.kept code)) cv;
                })
            | inr other ↦
                rw (load_failed s code e w v p other)
                  (record { answer = λ h. cc; kept = q.kept; coherent = cv })
          ]
        ]

    get-IsQuiet :
        (code : String) (hit : Bool) (w : W)
        → IsQuiet entry stored w (s.count hit (s.cache.get (key code) w).1)
    get-IsQuiet code hit w =
        IsQuiet-trans entry stored
          (record {
            kept = λ c. env.get_stored (key code) c w;
            faded = env.redis.get_keeps (key code) w;
          })
          (env.count_quiet hit (s.cache.get (key code) w).1)

    hit_answer :
        (code val : String) (w : W)
        → IsCoherent entry stored w
        → entry w (key code) ≡ some val
        → Answers (stored w code) code (from_cached code val)
    hit_answer code val w c e = elim (Bool-cases (str_eq val tombstone)) [
      | inl absent ↦ rw absent (λ _. ground (
        arith,
        eq_iff val tombstone,
        c.agree code val,
        c.real code val,
        Option-cases (stored w code),
      ))
      | inr real ↦ rw real (
        ground (arith, eq_iff val tombstone, c.agree code val, Option-cases (stored w code)),
        refl,
      )
    ]

    -- From an agreeing cache, GetByCode returns a stored URL or ErrNotFound only for an absent
    -- code, whether Redis hits, misses or fails; the source is unchanged and the cache still
    -- agrees.
    pub get_by_code-IsServed :
        (code : String) (w : W)
        → IsCoherent entry stored w
        → IsServed code w (get_by_code s code w).0 (get_by_code s code w).1
    get_by_code-IsServed code w c =
        let v = (s.cache.get (key code) w).1 in
        elim (Outcome-cases (s.cache.get (key code) w)) [
          | inl (val, p) ↦
              let q = get-IsQuiet code true w in
              rw (get_hit s code val w v p) (record {
                answer = hit_answer code val w c (env.redis.get_ok (key code) p);
                kept = q.kept;
                coherent = IsCoherent-quiet entry stored q c;
              })
          | inr (e, p) ↦
              let q = get-IsQuiet code false w in
              rw (get_miss s code e w v p, env.flight_runs code (load_and_cache s code))
                (IsServed-later code q
                  (load-IsServed code (s.count false v) (IsCoherent-quiet entry stored q c)))
        ]
