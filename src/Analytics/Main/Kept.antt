-- ===== src/Analytics/Main/Kept.antt =====
-- What every run of the consumer, from its start to its end, keeps of the tables.
use shortn.Prelude.{ap, String, ◌≡◌, refl, sym, ◌∙◌, inl, inr, List, [], ◌∷◌, All}
use mathlib.Core.Path.{subst}
use shortn.Act.{Result, ok, err, Result-cases, Outcome-cases}
use shortn.Process.{Process, run_deferred, began, finish}
use shortn.Config.{Config, load}
use shortn.Observability.{Providers, setup}
use shortn.Observability.Laws.{IsApart, setup_kept, shutdown_kept, setup-providers}
use shortn.Store.{Db, Tables}
use shortn.Analytics.Main.{Libraries, telemetry, open_pool, open_client, consuming, main}

module _ {W : Type 0} (lib : Libraries W) where
  abbrev pub tables_of : W → Tables
  tables_of w = (lib.db w).tables

  -- Only the session writes to the tables.
  pub record AreApart : Type 0 where
    pub db_put : (d : Db) (w : W) → lib.db (lib.put_db d w) ≡ d
    pub telemetry : IsApart lib.otel tables_of
    pub new_pool : (url : String) (w : W) → tables_of (lib.new_pool url w).1 ≡ tables_of w
    pub close_pool : (w : W) → tables_of (lib.close_pool w) ≡ tables_of w
    pub ping_pool : (w : W) → tables_of (lib.ping_pool w).1 ≡ tables_of w
    pub new_client :
        (brokers : List String) (group topic : String) (w : W)
        → tables_of (lib.new_client brokers group topic w).1 ≡ tables_of w
    pub close_client : (w : W) → tables_of (lib.close_client w) ≡ tables_of w
    pub shutdown_metrics : (w : W) → tables_of (lib.shutdown_metrics w).1 ≡ tables_of w

  abbrev Keeps : (W → W) → Type 0
  Keeps f = (w : W) → tables_of (f w) ≡ tables_of w

  -- A stage leaves the tables, and defers nothing that does not.
  abbrev IsKept : Process W → Process W → Type 0
  IsKept p q = (tables_of q.world ≡ tables_of p.world) × All Keeps q.deferred

  run_deferred-Keeps :
      (fs : List (W → W)) (w : W) → All Keeps fs → tables_of (run_deferred fs w) ≡ tables_of w
  run_deferred-Keeps [] w k = refl
  run_deferred-Keeps (f ∷ fs) w (k, ks) = run_deferred-Keeps fs (f w) ks ∙ k w

  finish-tables :
      (r : Result (Unit {0})) (p : Process W)
      → All Keeps p.deferred
      → tables_of (finish (r, p)).1 ≡ tables_of p.world
  unfolding finish
  finish-tables (ok x) p k = run_deferred-Keeps p.deferred p.world k
  finish-tables (err e) p k = refl

  module _ (apart : AreApart) (cfg : Config) where
    open_pool-IsKept : (p : Process W) → All Keeps p.deferred → IsKept p (open_pool lib cfg p).1
    unfolding open_pool
    open_pool-IsKept p k =
        let begun = setup_kept lib.otel tables_of apart.telemetry (telemetry cfg) p.world in
        let stopped = shutdown_kept lib.otel tables_of apart.telemetry in
        let w1 = (setup lib.otel (telemetry cfg) p.world).1 in
        let pool = apart.new_pool cfg.database_url w1 in
        let w2 = (lib.new_pool cfg.database_url w1).1 in
        elim (Outcome-cases (setup lib.otel (telemetry cfg) p.world)) [
          | inr (e, q) ↦ rw q (begun, k)
          | inl (made, q') ↦
              let q =
                q'
                ∙ ap (λ (x : Providers W). (ok x, w1))
                    (setup-providers lib.otel (telemetry cfg) p.world w1 made q') in
              elim (Result-cases (lib.parse_pool_config cfg.database_url)) [
                | inr (e, r) ↦ rw (q, r) (begun, (stopped, k))
                | inl (y, r) ↦ elim (Result-cases (lib.new_pool cfg.database_url w1).0) [
                  | inr (e, s) ↦ rw (q, r, s) (pool ∙ begun, (stopped, k))
                  | inl (z, s) ↦
                      rw (q, r, s)
                        (apart.ping_pool w2 ∙ pool ∙ begun, (apart.close_pool, (stopped, k)))
                ]
              ]
        ]

    open_client-IsKept : (p : Process W) → All Keeps p.deferred → IsKept p (open_client lib cfg p).1
    unfolding open_client
    open_client-IsKept p k =
        let client =
          apart.new_client (lib.split cfg.kafka_brokers) cfg.kafka_group cfg.kafka_topic p.world in
        elim (Result-cases
          (lib.new_client (lib.split cfg.kafka_brokers) cfg.kafka_group cfg.kafka_topic
            p.world).0) [
              | inr (e, q) ↦ rw q (client, k)
              | inl (x, q) ↦ rw q (client, (apart.close_client, k))
            ]

    -- The world in which the session begins.
    abbrev pub session_start : W → Process W
    session_start w = (open_client lib cfg (open_pool lib cfg (began w)).1).1

    -- What the session keeps of the tables, every run of the program keeps.
    module _ (Holds : Tables → Type 0) where
      same-Holds : (u v : W) → tables_of v ≡ tables_of u → Holds (tables_of u) → Holds (tables_of v)
      same-Holds u v e x = subst Holds (sym e) x

      -- The process ends.
      finish-Holds :
          (r : Result (Unit {0})) (p : Process W)
          → All Keeps p.deferred
          → Holds (tables_of p.world)
          → Holds (tables_of (finish (r, p)).1)
      finish-Holds r p k x = same-Holds p.world (finish (r, p)).1 (finish-tables r p k) x

      pub main-Holds :
          (w : W)
          → load lib.getenv lib.hostname ≡ ok cfg
          → Holds (tables_of w)
          → (Holds (tables_of (session_start w).world)
              → Holds (tables_of (consuming lib cfg (session_start w).world).1))
          → Holds (tables_of (main lib w).1)
      unfolding main
      main-Holds w c x kept =
          let p1 = (open_pool lib cfg (began w)).1 in
          let (same1, k1) = open_pool-IsKept (began w) tt in
          let p2 = (open_client lib cfg p1).1 in
          let (same2, k2) = open_client-IsKept p1 k1 in
          let u = (consuming lib cfg p2.world).1 in
          let x2 = same-Holds w p2.world (same2 ∙ same1) x in
          let consumed = kept x2 in
          elim (Outcome-cases (open_pool lib cfg (began w))) [
            | inr (e, q) ↦ rw (c, q) (finish-Holds (err e) p1 k1 (same-Holds w p1.world same1 x))
            | inl (y, q) ↦ elim (Outcome-cases (open_client lib cfg p1)) [
              | inr (e, r) ↦ rw (c, q, r) (finish-Holds (err e) p2 k2 x2)
              | inl (z, r) ↦ elim (Outcome-cases (consuming lib cfg p2.world)) [
                | inr (e, s) ↦
                    rw (c, q, r, s) (finish-Holds (err e) (record p2 { world = u }) k2 consumed)
                | inl (v, s) ↦
                    let end = (lib.shutdown_metrics u).1 in
                    rw (c, q, r, s)
                      (finish-Holds (ok tt) (record p2 { world = end }) k2
                        (same-Holds u end (apart.shutdown_metrics u) consumed))
              ]
            ]
          ]
