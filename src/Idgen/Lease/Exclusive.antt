-- ===== src/Idgen/Lease/Exclusive.antt =====
-- Every event of the cluster keeps the worker ids exclusive.
use shortn.Prelude.{
  ℕ, ◌+◌, ◌≤◌, ◌<◌, ◌≡◌, ◌≢◌, sym, ◌∙◌, inl, inr, String, Option, none, some, arith,
}
use shortn.Act.{outcome_fst, outcome_snd, Result, ok, err, Act, Outcome-cases}
use shortn.Redis.{Redis}
use shortn.Idgen.Snowflake.{max_worker_id}
use shortn.Idgen.Lease.{Held, lease_ttl, Renew, renew_script, beat, release, freed}
use shortn.Idgen.Lease.Laws.{IsRun, SlotLaws, Elsewhere}
use shortn.Idgen.Lease.Acquired.{slot_key_injective}
use shortn.Idgen.Lease.Joins.{joins-Exclusive, refused-Exclusive, acquire-Ends}
use shortn.Idgen.Lease.Cluster.{
  Pod, Pods, set_pod, renewed_by, Step, joins, refused, beats, leaves, dies, waits, AreOnTime, Run,
  started, next_event, IsHeld, IsExclusive, IsHeld-later, set_pod-IsExclusive, renewed_by-lease,
  renewed_lem,
}

module _ {W : Type 0} (held : W → String → Option Held) (now : W → ℕ) (rdb : Redis W)
    (itoa : ℕ → String) (run_renew : Renew W) (run_release : String → String → Act W ℕ)
    (laws : SlotLaws held now rdb run_renew run_release)
    (inj : (m n : ℕ) → itoa m ≡ itoa n → m ≡ n) where
  abbrev Holds : String → Pod → W → Type 0
  Holds name p w = IsHeld held now rdb itoa run_renew run_release name p w

  abbrev Exclusive : W → Pods → Type 0
  Exclusive w pods = IsExclusive held now rdb itoa run_renew run_release w pods

  abbrev OnTime : W → Pods → Type 0
  OnTime w pods = AreOnTime held now rdb itoa run_renew run_release w pods

  -- A command on one pod's slot leaves the slots of the others.
  other-Holds :
      (name other : String) (p q : Pod) {w : W} (pods : Pods) {w' : W}
      → Exclusive w pods
      → pods name ≡ some p
      → other ≢ name
      → pods other ≡ some q
      → Elsewhere held now p.lease.key w w'
      → now w ≤ now w'
      → Holds other q w'
  other-Holds name other p q pods x mine differs theirs e later =
      let hp = x.holds name p mine in
      let hq = x.holds other q theirs in
      let apart : q.lease.key ≢ p.lease.key = (λ k.
        x.distinct other name q p differs theirs mine
          (slot_key_injective itoa inj _ _ (sym hq.keyed ∙ k ∙ hp.keyed))) in
      IsHeld-later held now rdb itoa run_renew run_release other q (e q.lease.key apart) later hq

  -- The pod itself after its script was carried out.
  renewed-Holds :
      (name : String) (p : Pod) (n t : ℕ) {w w' : W}
      → Holds name p w
      → now w' < p.renewed + lease_ttl
      → IsRun held now (λ u. renew_script u p.lease.owner lease_ttl) p.lease.key n w w'
      → p.renewed ≤ t
      → t ≤ now w
      → (n ≡ 1) × Holds name (record p { renewed = t }) w'
  renewed-Holds name p n t h soon run low high =
      let (one, there) = renewed_lem held now rdb itoa run_renew run_release name p n h soon run in
      (
        one,
        record {
          bounded = h.bounded;
          own = h.own;
          keyed = h.keyed;
          until = run.at + lease_ttl;
          there = there;
          past = omega (arith, high, run.within.0, run.within.1);
          lasts = omega (arith, high, run.within.0);
        },
      )

  beat-Holds :
      (name : String) (p : Pod) (r : Result ℕ) {w w' : W}
      → Holds name p w
      → now w' < p.renewed + lease_ttl
      → beat run_renew p.lease w ≡ (r, w')
      → Holds name (renewed_by (now w) r p) w'
        × (now w ≤ now w')
        × Elsewhere held now p.lease.key w w'
  beat-Holds name p (ok n) {w} h soon q =
      let run = rw q at (laws.renew_ok p.lease.key p.lease.owner lease_ttl w n (outcome_fst q)) in
      let (one, holds) = renewed-Holds name p n (now w) h soon run h.past (omega arith) in
      (rw one holds, omega (arith, run.within.0, run.within.1), run.elsewhere)
  beat-Holds name p (err e) {w} h soon q =
      elim (rw q at (laws.renew_err p.lease.key p.lease.owner lease_ttl w e (outcome_fst q))) [
        | inl (n, run) ↦
            let holds = (renewed-Holds name p n p.renewed h soon run (omega arith) h.past).1 in
            (holds, omega (arith, run.within.0, run.within.1), run.elsewhere)
        | inr k ↦ (
          IsHeld-later held now rdb itoa run_renew run_release name p (k.same p.lease.key) k.later
              h,
          k.later,
          λ j _. k.same j,
        )
      ]

  beats-Exclusive :
      (name : String) (p : Pod) (r : Result ℕ) (w : W) (pods : Pods) {w' : W}
      → Exclusive w pods
      → OnTime w' pods
      → pods name ≡ some p
      → beat run_renew p.lease w ≡ (r, w')
      → Exclusive w' (set_pod pods name (some (renewed_by (now w) r p)))
  beats-Exclusive name p r w pods x soon mine q =
      let (holds, later, elsewhere) =
        beat-Holds name p r (x.holds name p mine) (soon name p mine) q in
      set_pod-IsExclusive held now rdb itoa run_renew run_release name _ pods x
        (λ other q' differs e. other-Holds name other p q' pods x mine differs e elsewhere later)
        (λ p' e. (let at : renewed_by (now w) r p ≡ p' = cc in rw (← at) holds))
        (λ p' other q' e differs f.
          (let at : renewed_by (now w) r p ≡ p' = cc in
            rw (← at, renewed_by-lease held now rdb itoa run_renew run_release (now w) r p)
              (x.distinct name other p q' (λ s. differs (sym s)) mine f)))

  -- A release touches no other slot.
  release-Elsewhere :
      (p : Pod) (r : Result (Unit {0})) {w w' : W}
      → release run_release p.lease w ≡ (r, w')
      → (now w ≤ now w') × Elsewhere held now p.lease.key w w'
  unfolding release freed
  release-Elsewhere p r {w} q = elim (Outcome-cases (run_release p.lease.key p.lease.owner w)) [
    | inl (n, e) ↦
        let world = outcome_snd (rw e at q) in
        let run = rw world at (laws.release_ok p.lease.key p.lease.owner w n (outcome_fst e)) in
        (omega (arith, run.within.0, run.within.1), run.elsewhere)
    | inr (x, e) ↦
        let world = outcome_snd (rw e at q) in
        elim (rw world at (laws.release_err p.lease.key p.lease.owner w x (outcome_fst e))) [
          | inl (n, run) ↦ (omega (arith, run.within.0, run.within.1), run.elsewhere)
          | inr k ↦ (k.later, λ j _. k.same j)
        ]
  ]

  removed-Exclusive :
      (name : String) (w : W) (pods : Pods) {w' : W}
      → Exclusive w pods
      → ((other : String) (q : Pod) → other ≢ name → pods other ≡ some q → Holds other q w')
      → Exclusive w' (set_pod pods name none)
  removed-Exclusive name w pods x others =
      set_pod-IsExclusive held now rdb itoa run_renew run_release name none pods x others
        (λ p e. cc) (λ p other q e. cc)

  Step-Exclusive :
      {w : W} {pods : Pods} {w' : W} {pods' : Pods}
      → Step held now rdb itoa run_renew run_release w pods w' pods'
      → OnTime w' pods
      → Exclusive w pods
      → Exclusive w' pods'
  Step-Exclusive {w} {pods} (joins name l free a e) soon x = rw e (
      joins-Exclusive held now rdb itoa run_renew run_release laws inj name l w pods x soon free
        (acquire-Ends held now rdb itoa run_renew run_release laws inj name w a))
  Step-Exclusive {w} {pods} (refused name f a e) soon x = rw e (
      refused-Exclusive held now rdb itoa run_renew run_release laws inj w pods name f x soon
        (acquire-Ends held now rdb itoa run_renew run_release laws inj name w a))
  Step-Exclusive {w} {pods} (beats name p r mine q e) soon x =
      rw e (beats-Exclusive name p r w pods x soon mine q)
  Step-Exclusive {w} {pods} (leaves name p r mine q e) soon x =
      let (later, elsewhere) = release-Elsewhere p r q in
      rw e (
        removed-Exclusive name w pods x
          (λ other q' differs f. other-Holds name other p q' pods x mine differs f elsewhere later))
  Step-Exclusive {w} {pods} (dies name same e) soon x =
      rw (e, same) (removed-Exclusive name w pods x (λ other q differs f. x.holds other q f))
  Step-Exclusive {w} {pods} (waits k e) soon x = rw e (record {
    holds = λ other q f.
        IsHeld-later held now rdb itoa run_renew run_release other q (k.same q.lease.key) k.later
          (x.holds other q f);
    distinct = x.distinct;
  })

  Run-Exclusive :
      {w : W} {pods : Pods} {w' : W} {pods' : Pods}
      → Run held now rdb itoa run_renew run_release w pods w' pods'
      → Exclusive w pods
      → Exclusive w' pods'
  Run-Exclusive started x = x
  Run-Exclusive (next_event run step before after) x =
      Step-Exclusive step before (Run-Exclusive run x)

  -- In a run of pods that join, are refused, renew, leave, die and wait, in any order, from a
  -- world with none, as long as every pod has renewed its lease less than the time to live ago,
  -- two pods under different names have different worker ids, each at most 1023.
  pub worker_id-distinct :
      {w w' : W} {pods : Pods} (a b : String) (p q : Pod)
      → Run held now rdb itoa run_renew run_release w (λ name. none) w' pods
      → a ≢ b
      → pods a ≡ some p
      → pods b ≡ some q
      → (p.lease.worker_id ≤ max_worker_id) × (p.lease.worker_id ≢ q.lease.worker_id)
  worker_id-distinct a b p q run differs e f =
      let x = Run-Exclusive run (record { holds = λ name p e. cc; distinct = λ a b p q d e. cc }) in
      ((x.holds a p e).bounded, x.distinct a b p q differs e f)
