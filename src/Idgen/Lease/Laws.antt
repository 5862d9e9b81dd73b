-- ===== src/Idgen/Lease/Laws.antt =====
-- What Redis does with the slots: SET NX as documented, and each script in one step.
use shortn.Prelude.{ℕ, ◌+◌, ◌≤◌, ◌≡◌, ◌≢◌, ◌⊎◌, String, true, false, Option, none, some}
use shortn.Error.{GoError}
use shortn.Act.{ok, err, Act}
use shortn.Redis.{Redis}
use shortn.Idgen.Lease.{Held, Renew, renew_script, release_script}

-- The key is gone at this time.
abbrev pub IsGone : ℕ → Option Held → Type 0
IsGone now none = Unit
IsGone now (some h) = h.expires ≤ now

-- `held w k` is what Redis keeps at a key in the world `w`, with the time at which it is gone, and
-- `now w` is the time on Redis's clock.
module _ {W : Type 0} (held : W → String → Option Held) (now : W → ℕ) where
  -- A command at a time between the worlds before and after it.
  abbrev pub Within : W → W → ℕ → Type 0
  Within w w' t = (now w ≤ t) × (t ≤ now w')

  -- Every other key is as it was.
  abbrev pub Elsewhere : String → W → W → Type 0
  Elsewhere k w w' = (j : String) → j ≢ k → held w' j ≡ held w j

  -- SET NX is carried out: at a key that was gone.
  pub record IsClaimed (k v : String) (ttl : ℕ) (w w' : W) : Type 0 where
    pub at : ℕ
    pub within : Within w w' at
    pub free : IsGone at (held w k)
    pub set : held w' k ≡ some (record { owner = v; expires = at + ttl })
    pub elsewhere : Elsewhere k w w'

  -- Nothing is written, and time goes on.
  pub record IsKept (w w' : W) : Type 0 where
    pub later : now w ≤ now w'
    pub same : (j : String) → held w' j ≡ held w j

  -- A script at one key, carried out with this reply.
  pub record IsRun (script : ℕ → Option Held → ℕ × Option Held) (k : String) (n : ℕ) (w w' : W)
      : Type 0 where
    pub at : ℕ
    pub within : Within w w' at
    pub reply : n ≡ (script at (held w k)).0
    pub left : held w' k ≡ (script at (held w k)).1
    pub elsewhere : Elsewhere k w w'

  -- A command that fails may have been carried out or not.
  pub record SlotLaws (rdb : Redis W) (run_renew : Renew W)
      (run_release : String → String → Act W ℕ) : Type 0 where
    pub set_nx_true :
        (k v : String) (ttl : ℕ) (w : W)
        → (rdb.set_nx k v ttl w).0 ≡ ok true
        → IsClaimed k v ttl w (rdb.set_nx k v ttl w).1
    pub set_nx_false :
        (k v : String) (ttl : ℕ) (w : W)
        → (rdb.set_nx k v ttl w).0 ≡ ok false
        → IsKept w (rdb.set_nx k v ttl w).1
    pub set_nx_err :
        (k v : String) (ttl : ℕ) (w : W) (e : GoError)
        → (rdb.set_nx k v ttl w).0 ≡ err e
        → IsClaimed k v ttl w (rdb.set_nx k v ttl w).1 ⊎ IsKept w (rdb.set_nx k v ttl w).1
    pub renew_ok :
        (k v : String) (ttl : ℕ) (w : W) (n : ℕ)
        → (run_renew k v ttl w).0 ≡ ok n
        → IsRun (λ t. renew_script t v ttl) k n w (run_renew k v ttl w).1
    pub renew_err :
        (k v : String) (ttl : ℕ) (w : W) (e : GoError)
        → (run_renew k v ttl w).0 ≡ err e
        → ((n : ℕ) × IsRun (λ t. renew_script t v ttl) k n w (run_renew k v ttl w).1)
          ⊎ IsKept w (run_renew k v ttl w).1
    pub release_ok :
        (k v : String) (w : W) (n : ℕ)
        → (run_release k v w).0 ≡ ok n
        → IsRun (λ t. release_script t v) k n w (run_release k v w).1
    pub release_err :
        (k v : String) (w : W) (e : GoError)
        → (run_release k v w).0 ≡ err e
        → ((n : ℕ) × IsRun (λ t. release_script t v) k n w (run_release k v w).1)
          ⊎ IsKept w (run_release k v w).1
