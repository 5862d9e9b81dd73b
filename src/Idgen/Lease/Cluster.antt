-- ===== src/Idgen/Lease/Cluster.antt =====
-- Pods that come, renew their leases and go: no two of them have one worker id, as long as each
-- renews in time.
use shortn.Prelude.{
  ℕ, ◌+◌, ◌≤◌, ◌<◌, ◌≡◌, ◌≢◌, refl, sym, ap, ◌∙◌, inl, inr, String, false, Bool-cases, Option, none,
  some, ◌==◌, arith, str_eq, eq_iff, if◌then◌else◌,
}
use text.Mathlib.TextPositions.{eq_refl}
use shortn.Error.{GoError}
use shortn.Act.{Result, ok, err, Act}
use shortn.Redis.{Redis}
use shortn.Idgen.Snowflake.{max_worker_id}
use shortn.Idgen.Lease.{
  Held, lease_ttl, WorkerLease, slot_key, Renew, is_owner, extended, renew_script,
  acquire_worker_id, beat, release,
}
use shortn.Idgen.Lease.Laws.{IsClaimed, IsKept, IsRun}
use shortn.Idgen.Lease.Acquired.{Touched, here, sets, keeps}

-- A running instance: its lease, and the time before its last renewal that succeeded.
pub record Pod : Type 0 where
  pub lease : WorkerLease
  pub renewed : ℕ

-- The instances by their names; INSTANCE_ID is the owner.
abbrev pub Pods : Type 0
Pods = String → Option Pod

abbrev pub set_pod : Pods → String → Option Pod → Pods
set_pod pods name p other = if str_eq other name then p else pods other

abbrev pub renewed_by : ℕ → Result ℕ → Pod → Pod
renewed_by now (ok n) p = if n == 1 then record p { renewed = now } else p
renewed_by now (err e) p = p

-- The owner renews a slot that is not over.
renew_own :
    (t until : ℕ) (owner : String)
    → t < until
    → renew_script t owner lease_ttl (some (record { owner = owner; expires = until }))
      ≡ (1, some (record { owner = owner; expires = t + lease_ttl }))
unfolding renew_script is_owner extended
renew_own t until owner early = ground (arith, eq_refl owner)

module _ {W : Type 0} (held : W → String → Option Held) (now : W → ℕ) (rdb : Redis W)
    (itoa : ℕ → String) (run_renew : Renew W) (run_release : String → String → Act W ℕ) where
  -- One event, from the world and the pods before it to those after it.
  pub data Step (w : W) (pods : Pods) : W → Pods → Type 0 where
    joins :
        {w' : W} {pods' : Pods} (name : String) (l : WorkerLease)
        → pods name ≡ none
        → acquire_worker_id rdb itoa name w ≡ (ok l, w')
        → pods' ≡ set_pod pods name (some (record { lease = l; renewed = now w }))
        → Step w pods w' pods'
    refused :
        {w' : W} {pods' : Pods} (name : String) (e : GoError)
        → acquire_worker_id rdb itoa name w ≡ (err e, w')
        → pods' ≡ pods
        → Step w pods w' pods'
    beats :
        {w' : W} {pods' : Pods} (name : String) (p : Pod) (r : Result ℕ)
        → pods name ≡ some p
        → beat run_renew p.lease w ≡ (r, w')
        → pods' ≡ set_pod pods name (some (renewed_by (now w) r p))
        → Step w pods w' pods'
    leaves :
        {w' : W} {pods' : Pods} (name : String) (p : Pod) (r : Result (Unit {0}))
        → pods name ≡ some p
        → release run_release p.lease w ≡ (r, w')
        → pods' ≡ set_pod pods name none
        → Step w pods w' pods'
    -- A pod that dies, or time that passes.
    dies :
        {w' : W} {pods' : Pods} (name : String)
        → w' ≡ w
        → pods' ≡ set_pod pods name none
        → Step w pods w' pods'
    waits : {w' : W} {pods' : Pods} → IsKept held now w w' → pods' ≡ pods → Step w pods w' pods'

  -- Every pod has renewed less than the time to live ago.
  abbrev pub AreOnTime : W → Pods → Type 0
  AreOnTime w pods = (name : String) (p : Pod) → pods name ≡ some p → now w < p.renewed + lease_ttl

  -- A run of the cluster in which every pod is on time before and after each event.
  pub data Run (w : W) (pods : Pods) : W → Pods → Type 0 where
    started : Run w pods w pods
    next_event :
        {u v : W} {ps qs : Pods}
        → Run w pods u ps
        → Step u ps v qs
        → AreOnTime v ps
        → AreOnTime v qs
        → Run w pods v qs

  -- Redis keeps the pod's slot under the pod's name until the time to live is over.
  pub record IsHeld (name : String) (p : Pod) (w : W) : Type 0 where
    pub bounded : p.lease.worker_id ≤ max_worker_id
    pub own : p.lease.owner ≡ name
    pub keyed : p.lease.key ≡ slot_key itoa p.lease.worker_id
    pub until : ℕ
    pub there : held w p.lease.key ≡ some (record { owner = name; expires = until })
    pub past : p.renewed ≤ now w
    pub lasts : p.renewed + lease_ttl ≤ until

  pub record IsExclusive (w : W) (pods : Pods) : Type 0 where
    pub holds : (name : String) (p : Pod) → pods name ≡ some p → IsHeld name p w
    pub distinct :
        (a b : String) (p q : Pod)
        → a ≢ b
        → pods a ≡ some p
        → pods b ≡ some q
        → p.lease.worker_id ≢ q.lease.worker_id

  -- A command leaves a slot alone, and time goes on.
  pub IsHeld-later :
      (name : String) (p : Pod) {w w' : W}
      → held w' p.lease.key ≡ held w p.lease.key
      → now w ≤ now w'
      → IsHeld name p w
      → IsHeld name p w'
  IsHeld-later name p same later h = record {
    bounded = h.bounded;
    own = h.own;
    keyed = h.keyed;
    until = h.until;
    there = same ∙ h.there;
    past = omega (arith, h.past);
    lasts = h.lasts;
  }

  -- SET NX does not succeed at the slot of a pod that is on time.
  pub set-ne :
      (name : String) (p : Pod) (k x : String) (ttl : ℕ) {w w' : W}
      → IsHeld name p w
      → now w' < p.renewed + lease_ttl
      → IsClaimed held now k x ttl w w'
      → p.lease.key ≢ k
  set-ne name p k x ttl h soon s e =
      let gone = rw (← e, h.there) at s.free in omega (arith, gone, h.lasts, s.within.1)

  pub Touched-later : {w w' : W} → Touched held now w w' → now w ≤ now w'
  Touched-later here = omega arith
  Touched-later (sets k x ttl t s) = omega (arith, Touched-later t, s.within.0, s.within.1)
  Touched-later (keeps t k) = omega (arith, Touched-later t, k.later)

  pub IsHeld-Touched :
      (name : String) (p : Pod) {w w' : W}
      → Touched held now w w'
      → now w' < p.renewed + lease_ttl
      → IsHeld name p w
      → IsHeld name p w'
  IsHeld-Touched name p here soon h = h
  IsHeld-Touched name p (sets k x ttl t s) soon h =
      let before = IsHeld-Touched name p t (omega (arith, s.within.0, s.within.1)) h in
      IsHeld-later name p (s.elsewhere p.lease.key (set-ne name p k x ttl before soon s))
        (omega (arith, s.within.0, s.within.1)) before
  IsHeld-Touched name p (keeps t k) soon h =
      IsHeld-later name p (k.same p.lease.key) k.later
        (IsHeld-Touched name p t (omega (arith, k.later)) h)

  other_name : {name : String} (a : String) → str_eq a name ≡ false → a ≢ name
  other_name {name} a differs e = ground (arith, eq_iff a name)

  -- A pod's slot changes, and the other pods stay as they are.
  pub set_pod-IsExclusive :
      (name : String) (o : Option Pod) (pods : Pods) {w w' : W}
      → IsExclusive w pods
      → ((other : String) (q : Pod) → other ≢ name → pods other ≡ some q → IsHeld other q w')
      → ((p : Pod) → o ≡ some p → IsHeld name p w')
      → ((p : Pod) (other : String) (q : Pod)
          → o ≡ some p
          → other ≢ name
          → pods other ≡ some q
          → p.lease.worker_id ≢ q.lease.worker_id)
      → IsExclusive w' (set_pod pods name o)
  set_pod-IsExclusive name o pods x others own apart = record {
    holds = λ other q e. elim (Bool-cases (str_eq other name)) [
      | inl same ↦ rw ((eq_iff other name).0 same) (own q (rw same at e))
      | inr differs ↦ others other q (other_name other differs) (rw differs at e)
    ];
    distinct = λ a b p q differ e f. elim (Bool-cases (str_eq a name)) [
      | inl same ↦ elim (Bool-cases (str_eq b name)) [
        | inl both ↦ absurd (differ ((eq_iff a name).0 same ∙ sym ((eq_iff b name).0 both)))
        | inr other ↦ apart p b q (rw same at e) (other_name b other) (rw other at f)
      ]
      | inr differs ↦ elim (Bool-cases (str_eq b name)) [
        | inl same ↦
            (λ g. apart q a p (rw same at f) (other_name a differs) (rw differs at e) (sym g))
        | inr differs' ↦ x.distinct a b p q differ (rw differs at e) (rw differs' at f)
      ]
    ];
  }

  pub renewed_by-lease : (t : ℕ) (r : Result ℕ) (p : Pod) → (renewed_by t r p).lease ≡ p.lease
  renewed_by-lease t (ok n) p = ground arith
  renewed_by-lease t (err e) p = refl

  -- The renewal of a pod that is on time is carried out.
  pub renewed_lem :
      (name : String) (p : Pod) (n : ℕ) {w w' : W}
      → IsHeld name p w
      → now w' < p.renewed + lease_ttl
      → (run : IsRun held now (λ t. renew_script t p.lease.owner lease_ttl) p.lease.key n w w')
      → (n ≡ 1)
        × (held w' p.lease.key ≡ some (record { owner = name; expires = run.at + lease_ttl }))
  renewed_lem name p n h soon run =
      let mine = rw (h.own, h.there) at run.reply in
      let left = rw (h.own, h.there) at run.left in
      let script = renew_own run.at h.until name (omega (arith, h.lasts, run.within.1)) in
      (
        mine ∙ ap (λ (x : ℕ × Option Held). x.0) script,
        left ∙ ap (λ (x : ℕ × Option Held). x.1) script,
      )
