-- ===== src/Cache/Coherent.antt =====
-- The cache and the source of truth: what they are assumed to do to the world, and when the
-- cache agrees with the source.
use text.Mathlib.TextLemmas.{append_cancel_left}
use shortn.Prelude.{
  ℕ, String, Bool, true, Bool-cases, str_eq, eq_iff, ◌≡◌, ◌≢◌, ◌⊎◌, inl, inr, ◌∙◌, Option, none,
  some, arith,
}
use shortn.Error.{GoError, err_not_found, errors_is}
use shortn.Act.{ok, err, Act}
use shortn.Redis.{RedisLaws, Fades}
use shortn.Shortener.{Link}
use shortn.Cache.{CachingStore, tombstone, key}

-- The value that stands for what the source holds.
abbrev pub cached_value : Option String → String
cached_value none = tombstone
cached_value (some url) = url

module _ {W : Type 0} (entry stored : W → String → Option String) where
  -- Nothing is written to the source or to the cache; cached entries may expire.
  pub record IsQuiet (w w' : W) : Type 0 where
    pub kept : (code : String) → stored w' code ≡ stored w code
    pub faded : Fades entry w w'

  pub record IsCoherent (w : W) : Type 0 where
    pub agree : (code v : String) → entry w (key code) ≡ some v → v ≡ cached_value (stored w code)
    pub real : (code url : String) → stored w code ≡ some url → url ≢ tombstone

  pub IsQuiet-trans : {u v w : W} → IsQuiet u v → IsQuiet v w → IsQuiet u w
  IsQuiet-trans p q = record {
    kept = λ code. q.kept code ∙ p.kept code;
    faded = λ k. ground (arith, p.faded k, q.faded k);
  }

  pub IsCoherent-quiet : {w w' : W} → IsQuiet w w' → IsCoherent w → IsCoherent w'
  IsCoherent-quiet q c = record {
    agree = λ code v e. ground (arith, q.kept code, q.faded (key code), c.agree code v);
    real = λ code url e. ground (arith, q.kept code, c.real code url);
  }

-- What the cache relies on: Redis and the wrapped store are apart, a read of the store answers
-- from what is stored, and a lookup that shares its flight with no other runs by itself.
pub record CacheEnv {W : Type 0} (s : CachingStore W) (entry stored : W → String → Option String)
    : Type 0 where
  pub redis : RedisLaws s.cache entry
  pub get_stored : (k c : String) (w : W) → stored (s.cache.get k w).1 c ≡ stored w c
  pub set_stored :
      (k v : String) (ttl : ℕ) (c : String) (w : W)
      → stored (s.cache.set k v ttl w).1 c ≡ stored w c
  pub del_stored : (k c : String) (w : W) → stored (s.cache.del k w).1 c ≡ stored w c
  pub count_quiet : (hit : Bool) (w : W) → IsQuiet entry stored w (s.count hit w)
  pub flight_runs : (code : String) (load : Act W Link) → s.flight code load ≡ load
  pub read_quiet : (code : String) (w : W) → IsQuiet entry stored w (s.next.get_by_code code w).1
  pub read_found :
      (code : String) {link : Link} {w w' : W}
      → s.next.get_by_code code w ≡ (ok link, w')
      → (stored w code ≡ some link.long_url) × (link.code ≡ code)
  pub read_missing :
      (code : String) {w w' : W} {e : GoError}
      → s.next.get_by_code code w ≡ (err e, w')
      → errors_is e err_not_found ≡ true
      → stored w code ≡ none

pub key_injective : (a b : String) → key a ≡ key b → a ≡ b
key_injective a b e = append_cancel_left "link:" a b e

module _ {W : Type 0} (s : CachingStore W) (entry stored : W → String → Option String) where
  -- A write of the right value keeps the cache in agreement.
  pub set-IsCoherent :
      CacheEnv s entry stored
      → (code v : String) (ttl : ℕ) (w : W) → v ≡ cached_value (stored w code)
      → IsCoherent entry stored w
      → IsCoherent entry stored (s.cache.set (key code) v ttl w).1
  set-IsCoherent env code v ttl w right c = record {
    agree = λ d u e. elim (Bool-cases (str_eq d code)) [
      | inl same ↦ ground (
        arith,
        eq_iff d code,
        env.set_stored (key code) v ttl code w,
        env.redis.set_writes (key code) v ttl w,
        c.agree code u,
        right,
      )
      | inr other ↦ ground (
        arith,
        env.set_stored (key code) v ttl d w,
        env.redis.set_keeps (key code) v ttl w (key d)
            (λ e. absurd (let same = (eq_iff d code).1 (key_injective d code e) in cc)),
        c.agree d u,
      )
    ];
    real = λ d url e. ground (arith, env.set_stored (key code) v ttl d w, c.real d url);
  }

module _ {W : Type 0} (entry stored : W → String → Option String) (code : String) {w w' : W} where
  -- A change of the source at one code, with nothing cached for it.
  pub IsCoherent-change :
      ((c : String) → c ≢ code → stored w' c ≡ stored w c)
      → ((c : String) → (entry w' (key c) ≡ entry w (key c)) ⊎ (entry w' (key c) ≡ none))
      → entry w' (key code) ≡ none
      → ((url : String) → stored w' code ≡ some url → url ≢ tombstone)
      → IsCoherent entry stored w
      → IsCoherent entry stored w'
  IsCoherent-change others faded empty fresh c = record {
    agree = λ d v e. elim (Bool-cases (str_eq d code)) [
      | inl same ↦ ground (arith, eq_iff d code)
      | inr other ↦ ground (
        arith,
        others d (λ e. absurd (let same = (eq_iff d code).1 e in cc)),
        faded d,
        c.agree d v,
      )
    ];
    real = λ d url e. elim (Bool-cases (str_eq d code)) [
      | inl same ↦ ground (arith, eq_iff d code, fresh url)
      | inr other ↦
          ground
            (arith, others d (λ e. absurd (let same = (eq_iff d code).1 e in cc)), c.real d url)
    ];
  }
