-- ===== src/Idgen/Lease.antt =====
-- internal/idgen/lease.go: a worker id leased from Redis. The heartbeat's ticker and the stop channel
-- are the steps of Lease/Cluster; logging is left out. Times are in milliseconds.
pub mod Laws
pub mod Acquired
pub mod Cluster
pub mod Joins
pub mod Exclusive
mod Tests
use Prim.Native.String.{◌++◌}
use shortn.Prelude.{
  ℕ, zero, suc, ◌+◌, ◌%◌, ◌^◌, String, Bool, true, false, Option, none, some, str_eq, leb,
  if◌then◌else◌,
}
use shortn.Error.{GoError, message, errorf}
use shortn.Act.{Result, ok, err, Act, pure, fail, attempt, ◌>>=◌}
use shortn.Redis.{Redis}
use shortn.Idgen.Snowflake.{max_worker_id}

abbrev pub worker_key_prefix : String
worker_key_prefix = "shortn:worker:"

abbrev pub lease_ttl : ℕ
lease_ttl = 30_000

abbrev pub heartbeat_interval : ℕ
heartbeat_interval = 10_000

-- What Redis holds at a slot's key: the owner, and the time at which the key is gone.
pub record Held : Type 0 where
  pub owner : String
  pub expires : ℕ

-- redis.call("get", KEYS[1]) == ARGV[1], at time `now`
unfoldable pub is_owner : ℕ → String → Option Held → Bool
is_owner now owner none = false
is_owner now owner (some h) = if leb h.expires now then false else str_eq h.owner owner

-- PEXPIRE
unfoldable pub extended : ℕ → Option Held → Option Held
extended until none = none
extended until (some h) = some (record h { expires = until })

-- renewScript and releaseScript at time `now`: the reply, and what the key holds then.
unfoldable pub renew_script : ℕ → String → ℕ → Option Held → ℕ × Option Held
unfolding is_owner extended
renew_script now owner ttl held =
    if is_owner now owner held then (1, extended (now + ttl) held) else (0, held)

unfoldable pub release_script : ℕ → String → Option Held → ℕ × Option Held
unfolding is_owner
release_script now owner held = if is_owner now owner held then (1, none) else (0, held)

pub record WorkerLease : Type 0 where
  pub worker_id : ℕ
  pub key : String
  pub owner : String

-- `itoa` is strconv.Itoa.
abbrev pub slot_key : (ℕ → String) → ℕ → String
slot_key itoa slot = worker_key_prefix ++ itoa slot

module _ {W : Type 0} (rdb : Redis W) (itoa : ℕ → String) (owner : String) where
  -- The body of the loop, before the slots that are left.
  unfoldable pub claimed : ℕ → Act W WorkerLease → Result Bool → Act W WorkerLease
  claimed slot rest (err e) = fail (errorf "acquire worker id: redis unreachable" e)
  claimed slot rest (ok false) = rest
  claimed slot rest (ok true) =
      pure (record { worker_id = slot % 2 ^ 16; key = slot_key itoa slot; owner = owner })

  -- The loop, with so many slots left from `slot` on.
  unfoldable pub claim_from : ℕ → ℕ → Act W WorkerLease
  unfolding claimed
  claim_from zero slot =
      fail (message "acquire worker id: no free slot in [0,1023] — too many instances")
  claim_from (suc left) slot = do
    taken ← attempt (rdb.set_nx (slot_key itoa slot) owner lease_ttl)
    claimed slot (claim_from left (slot + 1)) taken

  unfoldable pub acquire_worker_id : Act W WorkerLease
  acquire_worker_id = claim_from (max_worker_id + 1) 0

-- One beat of the heartbeat: the renewal's reply or error, which is only logged. `run_renew` is
-- renewScript.Run at a key, an owner and a time to live.
abbrev pub Renew : Type 0 → Type 0
Renew W = String → String → ℕ → Act W ℕ

abbrev pub beat : {W : Type 0} → Renew W → WorkerLease → Act W ℕ
beat run_renew l = run_renew l.key l.owner lease_ttl

-- Release. `run_release` is releaseScript.Run at a key and an owner.
unfoldable pub freed : {W : Type 0} → Result ℕ → Act W (Unit {0})
freed (ok n) = pure tt
freed (err e) = fail (errorf "release worker id" e)

unfoldable pub release : {W : Type 0} → (String → String → Act W ℕ) → WorkerLease → Act W (Unit {0})
unfolding freed
release run_release l = do reply ← attempt (run_release l.key l.owner); freed reply
