-- ===== src/Idgen/Lease/Acquired.antt =====
-- What AcquireWorkerID has done when it returns.
use text.Mathlib.TextLemmas.{append_cancel_left}
use shortn.Prelude.{
  ℕ, zero, suc, ◌+◌, ◌%◌, ◌^◌, ◌≤◌, ◌<◌, ◌≡◌, refl, inl, inr, String, false, Bool-cases, ◌==◌,
  ==_iff, Option, arith,
}
use shortn.Error.{GoError, message, errorf}
use shortn.Act.{outcome_fst, Result, ok, err, Act, Outcome-cases}
use shortn.Redis.{Redis}
use shortn.Idgen.Lease.{
  Held, lease_ttl, WorkerLease, slot_key, Renew, claimed, claim_from, acquire_worker_id,
}
use shortn.Idgen.Lease.Laws.{IsClaimed, IsKept, SlotLaws}

pub slot_key_injective :
    (itoa : ℕ → String)
    → ((m n : ℕ) → itoa m ≡ itoa n → m ≡ n)
    → (m n : ℕ) → slot_key itoa m ≡ slot_key itoa n
    → m ≡ n
slot_key_injective itoa inj m n e =
    inj m n (append_cancel_left "shortn:worker:" (itoa m) (itoa n) e)

module _ {W : Type 0} (held : W → String → Option Held) (now : W → ℕ) where
  -- From one world to another, SET NX was carried out at keys that were gone, and time went on.
  pub data Touched (w : W) : W → Type 0 where
    here : Touched w w
    sets :
        {u v : W} (k x : String) (ttl : ℕ)
        → Touched w u
        → IsClaimed held now k x ttl u v
        → Touched w v
    keeps : {u v : W} → Touched w u → IsKept held now u v → Touched w v

  module _ (rdb : Redis W) (itoa : ℕ → String) (owner : String) where
    -- Each slot from one to another was held by a live pod when it was tried.
    abbrev pub AreRefused : ℕ → ℕ → Type 0
    AreRefused from to =
        (m : ℕ)
        → from ≤ m
        → m < to
        → (u : W) × ((rdb.set_nx (slot_key itoa m) owner lease_ttl u).0 ≡ ok false)

    -- The slot that was claimed, after those before it were refused.
    pub record IsAcquired (slot left : ℕ) (w : W) (l : WorkerLease) (w' : W) : Type 0 where
      pub number : ℕ
      pub from : slot ≤ number
      pub below : number < slot + left
      pub lease :
          l ≡ record { worker_id = number % 2 ^ 16; key = slot_key itoa number; owner = owner }
      pub refused : AreRefused slot number
      pub before : W
      pub touched : Touched w before
      pub set : IsClaimed held now (slot_key itoa number) owner lease_ttl before w'

    Touched-trans : {u v w : W} → Touched u v → Touched v w → Touched u w
    Touched-trans p here = p
    Touched-trans p (sets k x ttl q s) = sets k x ttl (Touched-trans p q) s
    Touched-trans p (keeps q s) = keeps (Touched-trans p q) s

    -- Why the search fails: Redis failed at a slot, or every slot was held.
    pub data IsStopped (slot left : ℕ) (e : GoError) : Type 0 where
      unreachable :
          (m : ℕ) (u : W) (x : GoError)
          → slot ≤ m
          → m < slot + left
          → AreRefused slot m
          → (rdb.set_nx (slot_key itoa m) owner lease_ttl u).0 ≡ err x
          → e ≡ errorf "acquire worker id: redis unreachable" x
          → IsStopped slot left e
      full :
          AreRefused slot (slot + left)
          → e ≡ message "acquire worker id: no free slot in [0,1023] — too many instances"
          → IsStopped slot left e

    -- How the search ends.
    pub data Ends (slot left : ℕ) (w : W) (r : Result WorkerLease) (w' : W) : Type 0 where
      acquired : (l : WorkerLease) → r ≡ ok l → IsAcquired slot left w l w' → Ends slot left w r w'
      failed :
          (e : GoError) → r ≡ err e → IsStopped slot left e → Touched w w' → Ends slot left w r w'

    AreRefused-next :
        (slot to : ℕ) (w : W)
        → (rdb.set_nx (slot_key itoa slot) owner lease_ttl w).0 ≡ ok false
        → AreRefused (slot + 1) to
        → AreRefused slot to
    AreRefused-next slot to w held_here later m low high = elim (Bool-cases (m == slot)) [
      | inl here_it ↦ (w, rw ((==_iff m slot).0 here_it) held_here)
      | inr other ↦ later m (ground (arith, low, other)) high
    ]

    IsStopped-next :
        (slot left : ℕ) (w : W) (e : GoError)
        → (rdb.set_nx (slot_key itoa slot) owner lease_ttl w).0 ≡ ok false
        → IsStopped (slot + 1) left e
        → IsStopped slot (suc left) e
    IsStopped-next slot left w e held_here (unreachable m u x low high before p q) =
        unreachable m u x (omega (arith, low)) (omega (arith, high))
          (AreRefused-next slot m w held_here before) p q
    IsStopped-next slot left w e held_here (full before q) =
        full
          (λ m low high.
            AreRefused-next slot (slot + 1 + left) w held_here before m low (omega (arith, high)))
          q

    Ends-next :
        (slot left : ℕ) (w u : W) {r : Result WorkerLease} {w' : W}
        → (rdb.set_nx (slot_key itoa slot) owner lease_ttl w).0 ≡ ok false
        → IsKept held now w u
        → Ends (slot + 1) left u r w'
        → Ends slot (suc left) w r w'
    Ends-next slot left w u held_here k (failed e p why t) =
        failed e p (IsStopped-next slot left w e held_here why) (Touched-trans (keeps here k) t)
    Ends-next slot left w u held_here k (acquired l p a) = acquired l p (record {
      number = a.number;
      from = omega (arith, a.from);
      below = omega (arith, a.below);
      lease = a.lease;
      refused = AreRefused-next slot a.number w held_here a.refused;
      before = a.before;
      touched = Touched-trans (keeps here k) a.touched;
      set = a.set;
    })

    IsStopped-here :
        (slot left : ℕ) (w : W) (x : GoError)
        → (rdb.set_nx (slot_key itoa slot) owner lease_ttl w).0 ≡ err x
        → IsStopped slot (suc left) (errorf "acquire worker id: redis unreachable" x)
    IsStopped-here slot left w x p =
        unreachable slot w x (omega arith) (omega arith)
          (λ m low high. absurd (omega (arith, low, high))) p refl

    module _ {run_renew : Renew W} {run_release : String → String → Act W ℕ}
        (laws : SlotLaws held now rdb run_renew run_release) where
      pub claim_from-Ends :
          (left slot : ℕ) (w : W)
          → Ends slot left w
              (claim_from rdb itoa owner left slot w).0
              (claim_from rdb itoa owner left slot w).1
      unfolding claim_from claimed
      claim_from-Ends zero slot w =
          failed (message "acquire worker id: no free slot in [0,1023] — too many instances") refl
            (full (λ m low high. absurd (omega (arith, low, high))) refl) here
      claim_from-Ends (suc left) slot w =
          let k = slot_key itoa slot in
          let u = (rdb.set_nx k owner lease_ttl w).1 in
          elim (Outcome-cases (rdb.set_nx k owner lease_ttl w)) [
            | inr (e, p) ↦ elim (laws.set_nx_err k owner lease_ttl w e (outcome_fst p)) [
              | inl s ↦ rw p (
                  failed _ refl (IsStopped-here slot left w e (outcome_fst p))
                    (sets k owner lease_ttl here s))
              | inr s ↦
                  rw p (failed _ refl (IsStopped-here slot left w e (outcome_fst p)) (keeps here s))
            ]
            | inl (b, p) ↦ elim (Bool-cases b) [
              | inl won ↦
                  let q = rw won at p in
                  rw q (
                    acquired _ refl (record {
                      number = slot;
                      from = omega arith;
                      below = omega arith;
                      lease = refl;
                      refused = λ m a c. absurd (omega (arith, a, c));
                      before = w;
                      touched = here;
                      set = laws.set_nx_true k owner lease_ttl w (outcome_fst q);
                    }))
              | inr lost ↦
                  let q = rw lost at p in
                  let full = outcome_fst q in
                  rw q (
                    Ends-next slot left w u full (laws.set_nx_false k owner lease_ttl w full)
                      (claim_from-Ends left (slot + 1) u))
            ]
          ]

      -- AcquireWorkerID leases a slot of the 1024 whose key was gone, for the time to live and
      -- with no other slot written by the success, after every slot below was refused as held;
      -- or fails, because Redis failed at a slot after those below were refused, or because all
      -- were held.
      pub acquire_worker_id-Ends :
          (w : W)
          → Ends 0 1024 w
              (acquire_worker_id rdb itoa owner w).0
              (acquire_worker_id rdb itoa owner w).1
      unfolding acquire_worker_id
      acquire_worker_id-Ends w = claim_from-Ends 1024 0 w
