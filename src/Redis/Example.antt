-- ===== src/Redis/Example.antt =====
-- A Redis for tests that answers at once and forgets nothing, in any world that has a place for its
-- keys.
use shortn.Prelude.{
  String, ◌≡◌, ◌≢◌, refl, inl, ap, sym, ◌∙◌, Option, none, some, arith, str_eq, eq_iff, true,
  if◌then◌else◌,
}
use text.Mathlib.TextPositions.{eq_refl}
use shortn.Error.{sentinel, err_redis_nil}
use shortn.Act.{Result, ok, err}
use shortn.Redis.{Redis, RedisLaws}

abbrev pub Table : Type 0
Table = String → Option String

abbrev update : Table → String → Option String → Table
update t k v j = if str_eq j k then v else t j

update_self : (t : Table) (k : String) (v : Option String) → update t k v k ≡ v
update_self t k v = rw eq_refl

update_other : (t : Table) (k j : String) (v : Option String) → j ≢ k → update t k v j ≡ t j
update_other t k j v other = ground (arith, eq_iff j k)

module _ {W : Type 0} (cached : W → Table) (set_cached : Table → W → W) where
  abbrev get_in : W → Option String → Result String × W
  get_in w none = (err (sentinel err_redis_nil), w)
  get_in w (some v) = (ok v, w)

  abbrev pub redis : Redis W
  redis = record {
    get = λ k w. get_in w (cached w k);
    set = λ k v ttl w. (ok tt, set_cached (update (cached w) k (some v)) w);
    set_nx = λ k v ttl w. (ok true, set_cached (update (cached w) k (some v)) w);
    del = λ k w. (ok tt, set_cached (update (cached w) k none) w);
  }

  pub get_world : (k : String) (w : W) → (redis.get k w).1 ≡ w
  get_world k w = get_in_world (cached w k) w
    where
      get_in_world : (o : Option String) (w : W) → (get_in w o).1 ≡ w
      get_in_world none w = refl
      get_in_world (some x) w = refl

  get_in_ok : (o : Option String) (w w' : W) (v : String) → get_in w o ≡ (ok v, w') → o ≡ some v
  get_in_ok none w w' v e = cc
  get_in_ok (some x) w w' v e = ground arith

  module _ (cached_set : (t : Table) (w : W) → cached (set_cached t w) ≡ t) where
    set_at : (t : Table) (w : W) (k : String) → cached (set_cached t w) k ≡ t k
    set_at t w k = ap (λ (u : Table). u k) (cached_set t w)

    pub redis_laws : RedisLaws redis cached
    redis_laws = record {
      get_ok = λ k {v} {w} {w'} e. get_in_ok (cached w k) w w' v e;
      get_keeps = λ k w j. inl (ap (λ (u : W). cached u j) (get_world k w));
      set_writes = λ k v ttl w. inl (set_at _ w k ∙ update_self (cached w) k (some v));
      set_keeps =
          λ k v ttl w j other. inl (set_at _ w j ∙ update_other (cached w) k j (some v) other);
      del_ok = λ k {w} {w'} e.
          ap (λ (p : Result (Unit {0}) × W). cached p.1 k) (sym e)
          ∙ set_at _ w k
          ∙ update_self (cached w) k none;
      del_keeps = λ k w j. ground (arith, eq_iff j k, set_at (update (cached w) k none) w j);
    }
