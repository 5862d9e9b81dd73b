-- ===== src/Idgen/Lease/Tests.antt =====
-- Two pods on a Redis that answers at once.
use Prim.Native.String.{[] as empty, ◌∷◌ as ◌∷s◌}
use text.Mathlib.TextPositions.{eq_refl}
use shortn.Prelude.{
  ℕ, zero, suc, ◌+◌, ◌≤◌, ◌≡◌, ◌≢◌, refl, sym, ap, inl, inr, String, Bool, true, false, Bool-cases,
  Option, none, some, arith, leb, str_eq, eq_iff, if◌then◌else◌,
}
use shortn.Error.{GoError, message}
use shortn.Act.{Result, ok, err, Act}
use shortn.Redis.{Redis}
use shortn.Idgen.Snowflake.{max_worker_id}
use shortn.Idgen.Lease.{
  Held, lease_ttl, WorkerLease, slot_key, Renew, renew_script, release_script, claim_from, claimed,
  acquire_worker_id,
}
use shortn.Idgen.Lease.Laws.{IsGone, IsClaimed, IsKept, SlotLaws}
use shortn.Idgen.Lease.Acquired.{Ends, acquire_worker_id-Ends}
use shortn.Idgen.Lease.Cluster.{Pod, Pods, set_pod, joins, AreOnTime, Run, started, next_event}
use shortn.Idgen.Lease.Exclusive.{worker_id-distinct}

record World : Type 0 where
  slots : String → Option Held
  time : ℕ

abbrev update : (String → Option Held) → String → Option Held → String → Option Held
update t k v j = if str_eq j k then v else t j

abbrev is_live : ℕ → Option Held → Bool
is_live now none = false
is_live now (some h) = if leb h.expires now then false else true

abbrev set_nx : String → String → ℕ → Act World Bool
set_nx k v ttl w = if is_live w.time (w.slots k) then (ok false, w) else (
  ok true,
  record w { slots = update w.slots k (some (record { owner = v; expires = w.time + ttl })) },
)

abbrev rdb : Redis World
rdb = record {
  get = λ k w. (err (message "unused"), w);
  set = λ k v ttl w. (ok tt, w);
  set_nx = set_nx;
  del = λ k w. (ok tt, w);
}

abbrev run_renew : Renew World
run_renew k v ttl w =
    let (n, left) = renew_script w.time v ttl (w.slots k) in
    (ok n, record w { slots = update w.slots k left })

abbrev run_release : String → String → Act World ℕ
run_release k v w =
    let (n, left) = release_script w.time v (w.slots k) in
    (ok n, record w { slots = update w.slots k left })

abbrev held : World → String → Option Held
held w = w.slots

abbrev now : World → ℕ
now w = w.time

free_of_dead : (t : ℕ) (h : Option Held) → is_live t h ≡ false → IsGone t h
free_of_dead t none e = tt
free_of_dead t (some h) e = ground arith

set_nx_true :
    (k v : String) (ttl : ℕ) (w : World)
    → (set_nx k v ttl w).0 ≡ ok true
    → IsClaimed held now k v ttl w (set_nx k v ttl w).1
set_nx_true k v ttl w e = elim (Bool-cases (is_live w.time (w.slots k))) [
  | inl live ↦ absurd (let q = rw live at e in cc)
  | inr dead ↦ rw dead (record {
    at = w.time;
    within = (omega arith, omega arith);
    free = free_of_dead w.time (w.slots k) dead;
    set = rw (eq_refl k);
    elsewhere = λ j other. ground (arith, eq_iff j k);
  })
]

set_nx_false :
    (k v : String) (ttl : ℕ) (w : World)
    → (set_nx k v ttl w).0 ≡ ok false
    → IsKept held now w (set_nx k v ttl w).1
set_nx_false k v ttl w e = elim (Bool-cases (is_live w.time (w.slots k))) [
  | inl live ↦ rw live (record { later = omega arith; same = λ j. refl })
  | inr dead ↦ absurd (let q = rw dead at e in cc)
]

set_nx_answers : (k v : String) (ttl : ℕ) (w : World) (e : GoError) → (set_nx k v ttl w).0 ≢ err e
set_nx_answers k v ttl w e p = elim (Bool-cases (is_live w.time (w.slots k))) [
  | inl live ↦ (let q = rw live at p in cc)
  | inr dead ↦ (let q = rw dead at p in cc)
]

abbrev reply_or : ℕ → Result ℕ → ℕ
reply_or d (ok n) = n
reply_or d (err e) = d

laws : SlotLaws held now rdb run_renew run_release
laws = record {
  set_nx_true = set_nx_true;
  set_nx_false = set_nx_false;
  set_nx_err = λ k v ttl w e p. absurd (set_nx_answers k v ttl w e p);
  renew_ok = λ k v ttl w n e. record {
    at = w.time;
    within = (omega arith, omega arith);
    reply = sym (ap (reply_or 0) e);
    left = rw (eq_refl k);
    elsewhere = λ j other. ground (arith, eq_iff j k);
  };
  renew_err = λ k v ttl w e p. cc;
  release_ok = λ k v w n e. record {
    at = w.time;
    within = (omega arith, omega arith);
    reply = sym (ap (reply_or 0) e);
    left = rw (eq_refl k);
    elsewhere = λ j other. ground (arith, eq_iff j k);
  };
  release_err = λ k v w e p. cc;
}

-- A stroke for each unit.
strokes : ℕ → String
strokes zero = empty
strokes (suc n) = "|" ∷s strokes n

strokes_injective : (m n : ℕ) → strokes m ≡ strokes n → m ≡ n
unfolding strokes
strokes_injective zero zero e = refl
strokes_injective zero (suc n) e = cc
strokes_injective (suc m) zero e = cc
strokes_injective (suc m) (suc n) e = omega (arith, strokes_injective m n (cc))

abbrev world : World
world = record { slots = λ k. none; time = 0 }

-- The slot that each of two pods is given.
abbrev lease_a : WorkerLease
lease_a = record { worker_id = 0; key = slot_key strokes 0; owner = "a" }

abbrev lease_b : WorkerLease
lease_b = record { worker_id = 1; key = slot_key strokes 1; owner = "b" }

abbrev world_a : World
world_a = record world {
  slots =
      update world.slots (slot_key strokes 0) (some (record { owner = "a"; expires = lease_ttl }));
}

abbrev world_b : World
world_b = record world_a {
  slots =
      update world_a.slots (slot_key strokes 1)
        (some (record { owner = "b"; expires = lease_ttl }));
}

first_claim : acquire_worker_id rdb strokes "a" world ≡ (ok lease_a, world_a)
unfolding acquire_worker_id claim_from claimed strokes
first_claim = refl

second_claim : acquire_worker_id rdb strokes "b" world_a ≡ (ok lease_b, world_b)
unfolding acquire_worker_id claim_from claimed strokes
second_claim = refl

abbrev pod_a : Pod
pod_a = record { lease = lease_a; renewed = 0 }

abbrev pod_b : Pod
pod_b = record { lease = lease_b; renewed = 0 }

abbrev pods_a : Pods
pods_a = set_pod (λ name. none) "a" (some pod_a)

abbrev pods_b : Pods
pods_b = set_pod pods_a "b" (some pod_b)

at_start :
    (w : World) (pods : Pods)
    → w.time ≡ 0
    → AreOnTime held now rdb strokes run_renew run_release w pods
at_start w pods e name p f = omega (arith, e)

both_join : Run held now rdb strokes run_renew run_release world (λ name. none) world_b pods_b
both_join =
    next_event
      (next_event started (joins "a" lease_a refl first_claim refl)
        (at_start world_a (λ name. none) refl) (at_start world_a pods_a refl))
      (joins "b" lease_b refl second_claim refl) (at_start world_b pods_a refl)
      (at_start world_b pods_b refl)

worker_id-distinct_example : (0 ≤ max_worker_id) × (pod_a.lease.worker_id ≢ pod_b.lease.worker_id)
worker_id-distinct_example =
    worker_id-distinct held now rdb strokes run_renew run_release laws strokes_injective "a" "b"
      pod_a pod_b both_join
      (λ e. absurd (let q : str_eq "a" "b" ≡ true = (eq_iff "a" "b").1 e in cc)) refl refl

-- The first slot is held, and the second is leased.
acquire_worker_id-Ends_example :
    Ends held now rdb strokes "b" 0 1024 world_a
      (acquire_worker_id rdb strokes "b" world_a).0
      (acquire_worker_id rdb strokes "b" world_a).1
acquire_worker_id-Ends_example = acquire_worker_id-Ends held now rdb strokes "b" laws world_a
