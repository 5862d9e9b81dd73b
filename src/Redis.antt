-- ===== src/Redis.antt =====
-- The Redis client that internal/cache, internal/idempotency, internal/idgen and
-- internal/ratelimit share. Redis and go-redis are not part of the program: a command is a
-- parameter, and `RedisLaws` states what the documentation says of it. Time to live is in
-- milliseconds.
pub mod Example
use shortn.Prelude.{ℕ, String, Bool, ◌≡◌, ◌≢◌, ◌⊎◌, Option, none, some}
use shortn.Act.{Act, ok}

pub record Redis (W : Type 0) : Type 0 where
  -- GET; a missing key is the error redis.Nil
  pub get : String → Act W String
  pub set : String → String → ℕ → Act W (Unit {0})
  -- SET NX; true if the key was set
  pub set_nx : String → String → ℕ → Act W Bool
  pub del : String → Act W (Unit {0})

-- From one world to another no entry is written, but entries may expire.
abbrev pub Fades : {W : Type 0} → (W → String → Option String) → W → W → Type 0
Fades entry w w' = (k : String) → (entry w' k ≡ entry w k) ⊎ (entry w' k ≡ none)

-- The same at every key but one.
abbrev pub FadesBut : {W : Type 0} → (W → String → Option String) → String → W → W → Type 0
FadesBut entry j w w' = (k : String) → k ≢ j → (entry w' k ≡ entry w k) ⊎ (entry w' k ≡ none)

-- `entry w k` is the value that Redis holds at the key, if it has not expired. A command that
-- fails may have been carried out or not.
pub record RedisLaws {W : Type 0} (r : Redis W) (entry : W → String → Option String) : Type 0 where
  pub get_ok : (k : String) {v : String} {w w' : W} → r.get k w ≡ (ok v, w') → entry w k ≡ some v
  pub get_keeps : (k : String) (w : W) → Fades entry w (r.get k w).1
  pub set_writes :
      (k v : String) (ttl : ℕ) (w : W)
      → (entry (r.set k v ttl w).1 k ≡ some v)
        ⊎ ((entry (r.set k v ttl w).1 k ≡ entry w k) ⊎ (entry (r.set k v ttl w).1 k ≡ none))
  pub set_keeps : (k v : String) (ttl : ℕ) (w : W) → FadesBut entry k w (r.set k v ttl w).1
  pub del_ok : (k : String) {w w' : W} → r.del k w ≡ (ok tt, w') → entry w' k ≡ none
  pub del_keeps : (k : String) (w : W) → Fades entry w (r.del k w).1
