-- ===== src/Program/Main/Start.antt =====
-- What each stage of the start has checked, and what it has deferred.
use shortn.Prelude.{
  ℕ, zero, suc, ◌+◌, ◌%◌, ◌^◌, ◌≤◌, ◌≡◌, refl, sym, ap, ◌∙◌, ◌⊎◌, inl, inr, String, false,
  Bool-cases, Option, none, some, ◌∷◌, arith, str_eq, eq_iff,
}
use shortn.Prelude.Int.{ℤ, pos, ltb_ℤ}
use shortn.Error.{GoError, message}
use shortn.Act.{outcome_fst, Result-cases, Result, ok, err, Outcome-cases}
use shortn.Observability.{shutdown, setup}
use shortn.Observability.Laws.{setup-providers}
use shortn.Events.{KafkaPublisher, new_kafka_publisher, close}
use shortn.Config.{Config}
use shortn.Idgen.Snowflake.{new_generator}
use shortn.Idgen.Lease.{
  WorkerLease, acquire_worker_id, lease_ttl, slot_key, claim_from, claimed, release,
}
use shortn.Process.{Process}
use shortn.Program.Main.{
  Libraries, App, telemetry, explicit, leased, choose_worker_id, positive, burst_error, rps_error,
  wire, open_pool, open_redis, open_publisher,
}

module _ {W : Type 0} (lib : Libraries W) where
  pub open_pool-deferred :
      (cfg : Config) (p q : Process W)
      → open_pool lib cfg p ≡ (ok tt, q)
      → q.deferred ≡ lib.close_pool ∷ (λ w. (shutdown lib.otel w).1) ∷ p.deferred
  unfolding open_pool
  open_pool-deferred cfg p q e = elim (Outcome-cases (setup lib.otel (telemetry cfg) p.world)) [
    | inr (x, r) ↦ absurd (let k = rw r at e in cc)
    | inl (made, r) ↦
        let k = rw (r, setup-providers lib.otel (telemetry cfg) p.world _ made r) at e in
        ground (arith, k)
  ]

  pub open_redis-deferred :
      (cfg : Config) (p q : Process W)
      → open_redis lib cfg p ≡ (ok tt, q)
      → q.deferred ≡ lib.close_redis ∷ p.deferred
  unfolding open_redis
  open_redis-deferred cfg p q e = ground arith

  open_publisher-deferred :
      (cfg : Config) (p q : Process W) (publisher : KafkaPublisher W)
      → open_publisher lib cfg p ≡ (ok publisher, q)
      → q.deferred ≡ close publisher ∷ p.deferred
  unfolding open_publisher
  open_publisher-deferred cfg p q publisher e =
      elim (Result-cases
        (new_kafka_publisher lib.new_kafka_client (lib.split cfg.kafka_brokers) cfg.kafka_topic)) [
          | inr (x, r) ↦ absurd (let k = rw r at e in cc)
          | inl (made, r) ↦ (let k = rw r at e in ground (arith, k))
        ]

  -- The number that a lease carries fits in the generator's bits.
  claim_from-bound :
      (owner : String) (left slot : ℕ) (w v : W) (l : WorkerLease)
      → slot + left ≤ 1024
      → claim_from lib.rdb lib.itoa owner left slot w ≡ (ok l, v)
      → l.worker_id ≤ 1023
  unfolding claim_from claimed
  claim_from-bound owner zero slot w v l few e = cc
  claim_from-bound owner (suc left) slot w v l few e =
      let k = slot_key lib.itoa slot in
      let u = (lib.rdb.set_nx k owner lease_ttl w).1 in
      let later = claim_from-bound owner left (slot + 1) u v l (omega (arith, few)) in
      elim (Outcome-cases (lib.rdb.set_nx k owner lease_ttl w)) [
        | inr (x, p) ↦ absurd (let q = rw p at e in cc)
        | inl (taken, p) ↦ elim (Bool-cases taken) [
          | inl won ↦ (let q = rw (p, won) at e in ground (arith, q, few))
          | inr lost ↦ (let q = rw (p, lost) at e in later q)
        ]
      ]

  -- The worker id is WORKER_ID, or that of a lease that is given back at the end.
  pub data IsChosen (cfg : Config) (p q : Process W) (wid : ℕ) (lease : Option WorkerLease)
      : Type 0 where
    by_hand :
        lease ≡ none
        → lib.parse_uint cfg.worker_id ≡ ok wid
        → wid ≤ 1023
        → q.deferred ≡ p.deferred
        → IsChosen cfg p q wid lease
    by_lease :
        (l : WorkerLease)
        → lease ≡ some l
        → cfg.worker_id ≡ ""
        → l.worker_id ≡ wid
        → wid ≤ 1023
        → q.deferred ≡ (λ w. (release lib.run_release l w).1) ∷ p.deferred
        → IsChosen cfg p q wid lease

  explicit-IsChosen :
      (cfg : Config) (p q : Process W) (o : Result ℕ) (wid : ℕ) (lease : Option WorkerLease)
      → lib.parse_uint cfg.worker_id ≡ o
      → explicit lib o p ≡ (ok (wid, lease), q)
      → IsChosen cfg p q wid lease
  unfolding explicit
  explicit-IsChosen cfg p q (err x) wid lease f e = cc
  explicit-IsChosen cfg p q (ok n) wid lease f e =
      by_hand (ground arith) (ground arith) (ground arith) (ground arith)

  leased-IsChosen :
      (cfg : Config) (p q : Process W) (wid : ℕ) (lease : Option WorkerLease)
      → cfg.worker_id ≡ ""
      → leased lib cfg.instance_id p ≡ (ok (wid, lease), q)
      → IsChosen cfg p q wid lease
  unfolding leased acquire_worker_id
  leased-IsChosen cfg p q wid lease f e =
      elim (Outcome-cases (claim_from lib.rdb lib.itoa cfg.instance_id 1024 0 p.world)) [
        | inl (l, r) ↦
            let k = rw r at e in
            let small = claim_from-bound cfg.instance_id 1024 0 p.world _ l (omega arith) r in
            by_lease l (ground (arith, k)) f (ground (arith, k)) (ground (arith, k, small))
              (ground (arith, k))
        | inr (x, r) ↦ absurd (let k = rw r at e in cc)
      ]

  pub choose_worker_id-IsChosen :
      (cfg : Config) (p q : Process W) (wid : ℕ) (lease : Option WorkerLease)
      → choose_worker_id lib cfg p ≡ (ok (wid, lease), q)
      → IsChosen cfg p q wid lease
  unfolding choose_worker_id
  choose_worker_id-IsChosen cfg p q wid lease e = elim (Bool-cases (str_eq cfg.worker_id "")) [
    | inl empty ↦
        leased-IsChosen cfg p q wid lease ((eq_iff cfg.worker_id "").0 empty) (rw empty at e)
    | inr given ↦ explicit-IsChosen cfg p q _ wid lease refl (rw given at e)
  ]

  positive-cases :
      (why : String) (o : Result ℤ) (p : Process W)
      → ((n : ℤ) × (positive lib why o p ≡ (ok n, p)) × (ltb_ℤ n (pos 1) ≡ false))
        ⊎ ((e : GoError) × (positive lib why o p ≡ (err e, p)))
  unfolding positive
  positive-cases why (err e) p = inr (_, refl)
  positive-cases why (ok n) p = elim (Bool-cases (ltb_ℤ n (pos 1))) [
    | inl low ↦ inr (message why, rw low refl)
    | inr high ↦ inl (n, rw high refl, high)
  ]

  -- What `wire` has checked.
  pub record IsWired (cfg : Config) (wid : ℕ) (lease : Option WorkerLease) (p : Process W)
      (app : App W) (q : Process W) : Type 0 where
    pub generator : new_generator (wid % 2 ^ 16) ≡ ok app.gen
    pub burst : ltb_ℤ app.burst (pos 1) ≡ false
    pub rps : ltb_ℤ app.rps (pos 1) ≡ false
    pub deferred : q.deferred ≡ close app.publisher ∷ p.deferred
    pub config : app.cfg ≡ cfg
    pub same : app.lease ≡ lease

  named : {x y : App W} → ◌≡◌ {A = Result (App W)} (ok x) (ok y) → x.publisher ≡ y.publisher
  named {x} e = ap (publisher_of x) e
    where
      publisher_of : App W → Result (App W) → KafkaPublisher W
      publisher_of x (ok y) = y.publisher
      publisher_of x (err e) = x.publisher

  pub wire-IsWired :
      (cfg : Config) (wid : ℕ) (lease : Option WorkerLease) (p q : Process W) (app : App W)
      → wire lib cfg (wid, lease) p ≡ (ok app, q)
      → IsWired cfg wid lease p app q
  unfolding wire
  wire-IsWired cfg wid lease p q app e =
      let u = (open_publisher lib cfg p).1 in
      elim (Result-cases (lib.new_sqids cfg.sqids_alphabet)) [
        | inr (x, r) ↦ absurd (let k = rw r at e in cc)
        | inl (encode, r1) ↦
            let e1 = rw r1 at e in
            elim (Result-cases (new_generator (wid % 2 ^ 16))) [
              | inr (x, r) ↦ absurd (let k = rw r at e1 in cc)
              | inl (gen, r2) ↦
                  let e2 = rw r2 at e1 in
                  elim (Outcome-cases (open_publisher lib cfg p)) [
                    | inr (x, r) ↦ absurd (let k = rw r at e2 in cc)
                    | inl (publisher, r3) ↦
                        let e3 = rw r3 at e2 in
                        elim (positive-cases burst_error (lib.atoi cfg.rate_limit_burst) u) [
                          | inr (x, r) ↦ absurd (let k = rw r at e3 in cc)
                          | inl (burst, r4, b) ↦
                              let e4 = rw r4 at e3 in
                              elim (positive-cases rps_error (lib.atoi cfg.rate_limit_rps) u) [
                                | inr (x, r) ↦ absurd (let k = rw r at e4 in cc)
                                | inl (rps, r5, c) ↦
                                    let e5 = rw r5 at e4 in
                                    let wired = outcome_fst e5 in
                                    record {
                                      generator = r2 ∙ ground (arith, wired);
                                      burst = ground (arith, wired, b);
                                      rps = ground (arith, wired, c);
                                      deferred =
                                          sym (
                                            ap (λ (x : Result (App W) × Process W). x.1.deferred)
                                              e5)
                                          ∙ open_publisher-deferred cfg p u publisher r3
                                          ∙ ap (λ (c : KafkaPublisher W). close c ∷ p.deferred)
                                              (named wired);
                                      config = ground (arith, wired);
                                      same = ground (arith, wired);
                                    }
                              ]
                        ]
                  ]
            ]
      ]
