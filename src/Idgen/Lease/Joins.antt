-- ===== src/Idgen/Lease/Joins.antt =====
-- What a pod that joins, or is refused, does to the others.
use shortn.Prelude.{
  ℕ, ◌+◌, ◌%◌, ◌^◌, ◌<◌, ◌≡◌, ◌≢◌, refl, sym, ap, ◌∙◌, String, Option, none, some, arith,
}
use shortn.Error.{GoError}
use shortn.Act.{Result, ok, err, Act}
use shortn.Redis.{Redis}
use shortn.Idgen.Snowflake.{max_worker_id}
use shortn.Idgen.Lease.{Held, lease_ttl, WorkerLease, slot_key, Renew, acquire_worker_id}
use shortn.Idgen.Lease.Laws.{SlotLaws}
use shortn.Idgen.Lease.Acquired.{IsAcquired, Ends, acquired, failed, claim_from-Ends}
use shortn.Idgen.Lease.Cluster.{
  Pod, Pods, set_pod, AreOnTime, IsHeld, IsExclusive, IsHeld-later, set-ne, Touched-later,
  IsHeld-Touched, set_pod-IsExclusive,
}

module _ {W : Type 0} (held : W → String → Option Held) (now : W → ℕ) (rdb : Redis W)
    (itoa : ℕ → String) (run_renew : Renew W) (run_release : String → String → Act W ℕ)
    (laws : SlotLaws held now rdb run_renew run_release)
    (inj : (m n : ℕ) → itoa m ≡ itoa n → m ≡ n) where
  abbrev pub Holds : String → Pod → W → Type 0
  Holds name p w = IsHeld held now rdb itoa run_renew run_release name p w

  abbrev pub Exclusive : W → Pods → Type 0
  Exclusive w pods = IsExclusive held now rdb itoa run_renew run_release w pods

  abbrev pub OnTime : W → Pods → Type 0
  OnTime w pods = AreOnTime held now rdb itoa run_renew run_release w pods

  -- The new pod holds its slot.
  joined-Holds :
      (name : String) (w : W) {l : WorkerLease} {w' : W}
      → IsAcquired held now rdb itoa name 0 (max_worker_id + 1) w l w'
      → Holds name (record { lease = l; renewed = now w }) w'
  joined-Holds name w a =
      let small : a.number % 2 ^ 16 ≡ a.number = omega (arith, a.below) in
      let later = Touched-later held now rdb itoa run_renew run_release a.touched in
      rw a.lease (record {
        bounded = omega (arith, a.below);
        own = refl;
        keyed = rw small;
        until = a.set.at + lease_ttl;
        there = a.set.set;
        past = omega (arith, later, a.set.within.0, a.set.within.1);
        lasts = omega (arith, later, a.set.within.0);
      })

  -- A pod that is on time keeps its slot while another one joins, and it is not the new one's.
  beside-Holds :
      (name other : String) (q : Pod) (w : W) {l : WorkerLease} {w' : W}
      → IsAcquired held now rdb itoa name 0 (max_worker_id + 1) w l w'
      → now w' < q.renewed + lease_ttl
      → Holds other q w
      → Holds other q w' × (l.worker_id ≢ q.lease.worker_id)
  beside-Holds name other q w {l} a soon h =
      let small : a.number % 2 ^ 16 ≡ a.number = omega (arith, a.below) in
      let before =
        IsHeld-Touched held now rdb itoa run_renew run_release other q a.touched
          (omega (arith, a.set.within.0, a.set.within.1)) h in
      let apart = set-ne held now rdb itoa run_renew run_release other q _ _ _ before soon a.set in
      (
        IsHeld-later held now rdb itoa run_renew run_release other q
            (a.set.elsewhere q.lease.key apart) (omega (arith, a.set.within.0, a.set.within.1))
            before,
        λ e. apart (
            h.keyed
            ∙ ap (λ (x : ℕ). slot_key itoa x)
                (sym e ∙ ap (λ (x : WorkerLease). x.worker_id) a.lease ∙ small)),
      )

  -- How a search for a slot ends, at the world that it leaves.
  pub acquire-Ends :
      (name : String) (w : W) {r : Result WorkerLease} {w' : W}
      → acquire_worker_id rdb itoa name w ≡ (r, w')
      → Ends held now rdb itoa name 0 (max_worker_id + 1) w r w'
  unfolding acquire_worker_id
  acquire-Ends name w p =
      rw p at (claim_from-Ends held now rdb itoa name laws (max_worker_id + 1) 0 w)

  pub joins-Exclusive :
      (name : String) (l : WorkerLease) (w : W) (pods : Pods) {w' : W}
      → Exclusive w pods
      → OnTime w' pods
      → pods name ≡ none
      → Ends held now rdb itoa name 0 (max_worker_id + 1) w (ok l) w'
      → Exclusive w' (set_pod pods name (some (record { lease = l; renewed = now w })))
  joins-Exclusive name l w pods x soon free (failed e p why t) = cc
  joins-Exclusive name l w pods x soon free (acquired l' p a) =
      let same : l ≡ l' = cc in
      let b = rw (← same) at a in
      set_pod-IsExclusive held now rdb itoa run_renew run_release name _ pods x
        (λ other q differs e.
          (beside-Holds name other q w b (soon other q e) (x.holds other q e)).0)
        (λ q e.
          (let is_new = joined-Holds name w b in
            let at : record { lease = l; renewed = now w } ≡ q = cc in rw (← at) is_new))
        (λ q other q' e differs f.
          (let apart = (beside-Holds name other q' w b (soon other q' f) (x.holds other q' f)).1 in
            let at : record { lease = l; renewed = now w } ≡ q = cc in rw (← at) apart))

  -- A search that fails takes no pod's slot.
  pub refused-Exclusive :
      (w : W) (pods : Pods) (name : String) (e : GoError) {w' : W}
      → Exclusive w pods
      → OnTime w' pods
      → Ends held now rdb itoa name 0 (max_worker_id + 1) w (err e) w'
      → Exclusive w' pods
  refused-Exclusive w pods name e x soon (acquired l p a) = cc
  refused-Exclusive w pods name e x soon (failed e' p why t) = record {
    holds = λ other q f.
        IsHeld-Touched held now rdb itoa run_renew run_release other q t (soon other q f)
          (x.holds other q f);
    distinct = x.distinct;
  }
