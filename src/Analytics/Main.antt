-- ===== src/Analytics/Main.antt =====
-- cmd/analytics/main.go: main, from the configuration to the end of the process. The server of the
-- metrics runs beside it, and its failure is only logged; metrics, tracing and logging are left out.
pub mod Kept
pub mod Exact
mod Tests
use shortn.Prelude.{ℕ, String, List}
use shortn.Act.{Result, Act, pure, lift, attempt, ◌>>=◌, ◌>>◌}
use shortn.Process.{Process, run, defer, began, finish}
use shortn.Config.{Config, load}
use shortn.Observability
use shortn.Observability.{Otel, setup}
use shortn.Events.{LinkClicked}
use shortn.Store.{Db, within}
use shortn.Analytics.{Poll}
use shortn.Analytics.Session.{session}

-- What main calls that is not modelled. `new_client` is kgo.NewClient with its brokers, group and
-- topic; `assigned` are the partitions that the client is assigned, `polls` what it hands out, from
-- the offsets that it is told on, until the signal.
pub record Libraries (W : Type 0) : Type 0 where
  pub getenv : String → String
  pub hostname : String
  pub otel : Otel W
  pub parse_pool_config : String → Result (Unit {0})
  pub new_pool : String → Act W (Unit {0})
  pub close_pool : W → W
  pub ping_pool : Act W (Unit {0})
  pub split : String → List String
  pub new_client : List String → String → String → Act W (Unit {0})
  pub close_client : W → W
  pub shutdown_metrics : Act W (Unit {0})
  pub db : W → Db
  pub put_db : Db → W → W
  pub decode : String → Result LinkClicked
  pub assigned : W → List ℕ
  pub polls : W → List (ℕ × ℕ) → List Poll

-- The settings of telemetry.
abbrev pub telemetry : Config → Observability.Config
telemetry cfg = record {
  service_name = "shortn-analytics";
  instance_id = cfg.instance_id;
  otlp_endpoint = cfg.otel_endpoint;
}

module _ {W : Type 0} (lib : Libraries W) where
  unfoldable pub open_pool : Config → Act (Process W) (Unit {0})
  open_pool cfg = do
    providers ← run (setup lib.otel (telemetry cfg))
    defer (λ w. (providers.shutdown w).1)
    lift (lib.parse_pool_config cfg.database_url)
    run (lib.new_pool cfg.database_url)
    defer lib.close_pool
    run lib.ping_pool

  unfoldable pub open_client : Config → Act (Process W) (Unit {0})
  open_client cfg = do
    run (lib.new_client (lib.split cfg.kafka_brokers) cfg.kafka_group cfg.kafka_topic)
    defer lib.close_client

  -- The consume loop in the program's world.
  unfoldable pub consuming : Config → Act W (Unit {0})
  consuming cfg w =
      within lib.db lib.put_db
        (session lib.decode cfg.kafka_group cfg.kafka_topic (lib.assigned w) (lib.polls w)) w

  unfoldable pub main : W → ℕ × W
  main w = finish (
      (do
        cfg ← lift (load lib.getenv lib.hostname)
        open_pool cfg
        open_client cfg
        run (consuming cfg)
        attempt (run lib.shutdown_metrics)
        pure tt)
        (began w))
