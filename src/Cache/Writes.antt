-- ===== src/Cache/Writes.antt =====
-- Delete and Create of the cache: what they do to the source of truth and to cached entries.
use shortn.Prelude.{String, ◌≡◌, ◌∙◌, ◌≢◌, inl, inr, Option, none, some, arith}
use shortn.Error.{GoError, sentinel, err_not_found}
use shortn.Act.{outcome_fst, ok, err, Outcome-cases}
use shortn.Redis.{Fades}
use shortn.Shortener.{Link}
use shortn.Cache.{CachingStore, tombstone, key, create, get_by_code, delete}
use shortn.Cache.Coherent.{IsCoherent, IsCoherent-change, CacheEnv}

-- What the cache relies on when the wrapped store writes.
pub record WriteEnv {W : Type 0} (s : CachingStore W) (entry stored : W → String → Option String)
    : Type 0 where
  pub reads : CacheEnv s entry stored
  pub delete_entry : (code : String) (w : W) → Fades entry w (s.next.delete code w).1
  pub delete_gone :
      (code : String) {w w' : W} → s.next.delete code w ≡ (ok tt, w') → stored w' code ≡ none
  pub delete_others :
      (code c : String) (w : W) → c ≢ code → stored (s.next.delete code w).1 c ≡ stored w c
  pub create_entry : (link : Link) (w : W) → Fades entry w (s.next.create link w).1
  pub create_stored :
      (link : Link) {made : Link} {w w' : W}
      → s.next.create link w ≡ (ok made, w')
      → stored w' link.code ≡ some link.long_url
  pub create_others :
      (link : Link) (c : String) (w : W)
      → c ≢ link.code
      → stored (s.next.create link w).1 c ≡ stored w c

module _ {W : Type 0} (s : CachingStore W) where
  delete_done :
      (code : String) (w : W)
      → (s.next.delete code w).0 ≡ ok tt
      → delete s code w ≡ (ok tt, (s.cache.del (key code) (s.next.delete code w).1).1)
  unfolding delete
  delete_done code w h = rw h

  -- Whatever Redis does, Delete reports what the source of truth reports, and a refused delete
  -- does nothing else.
  pub delete_outcome :
      (code : String) (w : W)
      → ((delete s code w).0 ≡ (s.next.delete code w).0)
        × ((e : GoError)
            → (s.next.delete code w).0 ≡ err e
            → delete s code w ≡ s.next.delete code w)
  delete_outcome code w = elim (Outcome-cases (s.next.delete code w)) [
    | inl (_, p) ↦
        let done = delete_done code w (outcome_fst p) in
        (rw (done, p), λ e h. absurd (let k = outcome_fst p in cc))
    | inr (x, p) ↦ (unfold delete in rw p, λ e h. unfold delete in rw p)
  ]

  module _ (entry stored : W → String → Option String) (env : WriteEnv s entry stored) where
    -- From an agreeing cache, when the row is deleted and Redis confirms the removal, neither
    -- the source nor the cache holds the code any more, and the cache agrees with the source.
    pub delete-IsCoherent :
        (code : String) (w : W)
        → IsCoherent entry stored w
        → (s.next.delete code w).0 ≡ ok tt
        → (s.cache.del (key code) (s.next.delete code w).1).0 ≡ ok tt
        → (stored (delete s code w).1 code ≡ none)
          × (entry (delete s code w).1 (key code) ≡ none)
          × IsCoherent entry stored (delete s code w).1
    delete-IsCoherent code w c gone dropped =
        let v = (s.next.delete code w).1 in
        let p : s.next.delete code w ≡ (ok tt, v) = (λ i. (gone i, v)) in
        let x = (s.cache.del (key code) v).1 in
        let q : s.cache.del (key code) v ≡ (ok tt, x) = (λ i. (dropped i, x)) in
        let missing = env.delete_gone code p in
        let kept = λ (d : String). env.reads.del_stored (key code) d v in
        let empty = env.reads.redis.del_ok (key code) q in
        rw (delete_done code w gone) (
          kept code ∙ missing,
          empty,
          IsCoherent-change entry stored code (λ d other. kept d ∙ env.delete_others code d w other)
              (λ d. ground (
                arith,
                env.delete_entry code w (key d),
                env.reads.redis.del_keeps (key code) v (key d),
              ))
              empty (λ url e. absurd (let k = kept code in cc)) c,
        )

    -- A lookup that follows a successful Create and hits a negative entry answers ErrNotFound
    -- for a link that is stored.
    pub create-get_by_code_hidden :
        (link made : Link) (w u v : W)
        → create s link w ≡ (ok made, u)
        → s.cache.get (key link.code) u ≡ (ok tombstone, v)
        → (stored u link.code ≡ some link.long_url)
          × ((get_by_code s link.code u).0 ≡ err (sentinel err_not_found))
    unfolding create get_by_code
    create-get_by_code_hidden link made w u v made_it hit = (env.create_stored link made_it, rw hit)

    -- From an agreeing cache that holds nothing for the new code, a Create that succeeds with a
    -- URL other than the tombstone leaves an agreeing cache.
    pub create-IsCoherent :
        (link made : Link) (w u : W)
        → IsCoherent entry stored w
        → create s link w ≡ (ok made, u)
        → entry w (key link.code) ≡ none
        → link.long_url ≢ tombstone
        → IsCoherent entry stored u
    unfolding create
    create-IsCoherent link made w u c made_it absent real =
        IsCoherent-change entry stored link.code
          (λ d other. ground (arith, env.create_others link d w other))
          (λ d. ground (arith, env.create_entry link w (key d)))
          (ground (arith, env.create_entry link w (key link.code)))
          (λ url e. ground (arith, env.create_stored link made_it)) c
