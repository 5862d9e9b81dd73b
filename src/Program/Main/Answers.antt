-- ===== src/Program/Main/Answers.antt =====
-- A start at which what is called answers.
use shortn.Prelude.{
  ℕ, ◌%◌, ◌^◌, ◌≤◌, ◌≡◌, ◌≢◌, refl, sym, ap, ◌∙◌, ◌⊎◌, inl, inr, String, true, false, Option, none,
  some, ◌∷◌, arith, ltb, str_eq, eq_iff,
}
use shortn.Prelude.Int.{ℤ, pos, ltb_ℤ}
use shortn.Act.{Result, ok}
use shortn.Observability.{setup}
use shortn.Events.{KafkaClient, record_delivery_timeout, new_kafka_publisher}
use shortn.Config.{Config, load}
use shortn.Idgen.Snowflake.{Generator, new_generator}
use shortn.Idgen.Lease.{WorkerLease, acquire_worker_id}
use shortn.Process.{Process, began}
use shortn.Program.Main.{
  Libraries, App, explicit, leased, choose_worker_id, parse_level, positive, open_pool, open_redis,
  open_publisher, wire, boot, serve, main,
}
use shortn.Program.Main.Start.{choose_worker_id-IsChosen, by_hand, by_lease}
use shortn.Program.Main.Ends.{IsRunning, refused, served, main-Ends, ended, closed_down}

module _ {W : Type 0} (lib : Libraries W) where
  -- The calls that a start cannot do without. Redis is among them only where a worker id is leased.
  pub record AllAnswer (cfg : Config) : Type 0 where
    pub trace_exporter : (w : W) → (lib.otel.new_trace_exporter cfg.otel_endpoint w).0 ≡ ok tt
    pub metric_exporter : (w : W) → (lib.otel.new_metric_exporter w).0 ≡ ok tt
    pub pool_config : lib.parse_pool_config cfg.database_url ≡ ok tt
    pub new_pool : (w : W) → (lib.new_pool cfg.database_url w).0 ≡ ok tt
    pub ping_pool : (w : W) → (lib.ping_pool w).0 ≡ ok tt
    pub redis_url : lib.parse_redis_url cfg.redis_url ≡ ok tt
    pub worker :
        ((wid : ℕ) × (cfg.worker_id ≢ "") × (lib.parse_uint cfg.worker_id ≡ ok wid) × (wid ≤ 1023))
        ⊎ ((cfg.worker_id ≡ "")
            × ((w : W)
                → (l : WorkerLease) × ((acquire_worker_id lib.rdb lib.itoa cfg.instance_id w).0
                    ≡ ok l)))
    pub encoder : (encode : ℕ → Result String) × (lib.new_sqids cfg.sqids_alphabet ≡ ok encode)
    pub publisher :
        (client : KafkaClient W) × (lib.new_kafka_client
            (lib.split cfg.kafka_brokers)
            cfg.kafka_topic
            record_delivery_timeout
          ≡ ok client)
    pub burst : (n : ℤ) × (lib.atoi cfg.rate_limit_burst ≡ ok n) × (ltb_ℤ n (pos 1) ≡ false)
    pub rps : (n : ℤ) × (lib.atoi cfg.rate_limit_rps ≡ ok n) × (ltb_ℤ n (pos 1) ≡ false)
    pub listen : (a b : String) (w : W) → (lib.listen a b w).0 ≡ ok tt
    pub shutdown : (ms : ℕ) (w : W) → (lib.shutdown ms w).0 ≡ ok tt

  module _ (cfg : Config) (all : AllAnswer cfg) where
    open_pool_answers : (p : Process W) → (q : Process W) × (open_pool lib cfg p ≡ (ok tt, q))
    unfolding open_pool setup
    open_pool_answers p = (
      (open_pool lib cfg p).1,
      rw
          (
            all.trace_exporter p.world,
            all.metric_exporter _,
            all.pool_config,
            all.new_pool _,
            all.ping_pool _,
          )
          refl,
    )

    open_redis_answers : (p : Process W) → (q : Process W) × (open_redis lib cfg p ≡ (ok tt, q))
    unfolding open_redis
    open_redis_answers p = ((open_redis lib cfg p).1, rw all.redis_url refl)

    choose_worker_id_answers :
        (p : Process W)
        → (wid : ℕ) × (lease : Option WorkerLease) × (q : Process W) × (choose_worker_id lib cfg p
            ≡ (ok (wid, lease), q))
          × (wid ≤ 1023)
    unfolding choose_worker_id explicit leased
    choose_worker_id_answers p = elim all.worker [
      | inl (wid, given, parsed, small) ↦
          let other : str_eq cfg.worker_id "" ≡ false =
            ground (arith, eq_iff cfg.worker_id "", given) in
          let low : ltb 1023 wid ≡ false = ground (arith, small) in
          (wid, none, p, rw (other, parsed, low) refl, small)
      | inr (empty, acquired) ↦
          let (l, e) = acquired p.world in
          let same : str_eq cfg.worker_id "" ≡ true = (eq_iff cfg.worker_id "").1 empty in
          let found : choose_worker_id lib cfg p
              ≡ (ok (l.worker_id, some l), (choose_worker_id lib cfg p).1) =
            rw (same, e) refl in
          (
            l.worker_id,
            some l,
            (choose_worker_id lib cfg p).1,
            found,
            elim (choose_worker_id-IsChosen lib cfg p _ l.worker_id (some l) found) [
              | by_hand a b small c ↦ small
              | by_lease m a b c small d ↦ small
            ],
          )
    ]

    new_generator_answers :
        (wid : ℕ) → wid ≤ 1023 → (g : Generator) × (new_generator (wid % 2 ^ 16) ≡ ok g)
    unfolding new_generator
    new_generator_answers wid small =
        (record { worker_id = wid; sequence = 0; last_ms = pos 0 }, ground (arith, small))

    wire_answers :
        (wid : ℕ) (lease : Option WorkerLease) (p : Process W)
        → wid ≤ 1023
        → (app : App W) × (q : Process W) × (wire lib cfg (wid, lease) p ≡ (ok app, q))
    unfolding wire open_publisher new_kafka_publisher positive
    wire_answers wid lease p small =
        let (encode, e1) = all.encoder in
        let (gen, e2) = new_generator_answers wid small in
        let (client, e3) = all.publisher in
        let (burst, e4, b) = all.burst in
        let (rps, e5, c) = all.rps in
        let app : App W = record {
          cfg = cfg;
          level = parse_level cfg.log_level;
          lease = lease;
          gen = gen;
          encode = encode;
          publisher = record { client = client };
          burst = burst;
          rps = rps;
        } in
        (app, record p { deferred = client.close ∷ p.deferred }, rw (e1, e2, e3, e4, b, e5, c) refl)

    boot_answers :
        (p : Process W) → (app : App W) × (q : Process W) × (boot lib cfg p ≡ (ok app, q))
    unfolding boot
    boot_answers p =
        let (p1, e1) = open_pool_answers p in
        let (p2, e2) = open_redis_answers p1 in
        let (wid, lease, p3, e3, small) = choose_worker_id_answers p2 in
        let (app, q, e4) = wire_answers wid lease p3 small in (app, q, rw (e1, e2, e3) e4)

    serve_answers : (app : App W) (w : W) → (u : W) × (serve lib app w ≡ (ok tt, u))
    unfolding serve
    serve_answers app w = ((serve lib app w).1, rw (all.listen _ _ w, all.shutdown _ _) refl)

    -- If the dependencies that a start needs answer, Redis among them only where a worker id is
    -- leased, and the settings are valid, main comes to serve and ends with exit code 0, with
    -- everything closed in order.
    pub main-stops :
        (w : W)
        → load lib.getenv lib.hostname ≡ ok cfg
        → (app : App W) × (p : Process W) × (u : W) × IsRunning lib cfg app p
          × (serve lib app p.world ≡ (ok tt, u))
          × (main lib w ≡ (0, closed_down lib app u))
    main-stops w c = elim (main-Ends lib cfg w c) [
      | refused e p f out ↦
          absurd (let (app, q, g) = boot_answers (began w) in let k = sym f ∙ g in cc)
      | served app p f running out ↦
          let (u, g) = serve_answers app p.world in
          (app, p, u, running, g, out ∙ ap (ended lib app) g)
    ]
