-- ===== src/Idempotency.antt =====
-- internal/idempotency/idempotency.go: the code that an Idempotency-Key produced.
use Prim.Native.String.{◌++◌}
use shortn.Prelude.{ℕ, String, Bool, Option, none, some, if◌then◌else◌}
use shortn.Error.{err_redis_nil, errors_is}
use shortn.Act.{Result, ok, err, Act, pure, fail, attempt, ◌>>=◌}
use shortn.Redis.{Redis}

-- Store
pub record Store (W : Type 0) : Type 0 where
  pub rdb : Redis W
  pub ttl : ℕ

abbrev pub redis_key : String → String
redis_key key = "idempo:" ++ key

module _ {W : Type 0} where
  unfoldable pub recorded : Result String → Act W (Option String)
  recorded (ok code) = pure (some code)
  recorded (err e) = if errors_is e err_redis_nil then pure none else fail e

  unfoldable pub get : Store W → String → Act W (Option String)
  unfolding recorded
  get s key = do reply ← attempt (s.rdb.get (redis_key key)); recorded reply

  unfoldable pub set : Store W → String → String → Act W Bool
  set s key code = s.rdb.set_nx (redis_key key) code s.ttl
