-- ===== src/Program/Main.antt =====
-- cmd/api/main.go: main, from the configuration to the end of the process. An error is os.Exit(1);
-- what `defer` registers runs only when main returns. Logging and tracing are left out; the end of a
-- context shows as an error of the call that it bounds.
pub mod Start
pub mod Ends
pub mod Answers
mod Tests
use Prim.Native.String.{◌++◌}
use shortn.Prelude.{
  ℕ, ◌*◌, ◌%◌, ◌^◌, String, Bool, true, false, Option, none, some, List, [], ◌∷◌, ltb, str_eq,
  if◌then◌else◌,
}
use shortn.Prelude.Int.{ℤ, pos, ltb_ℤ}
use shortn.Error.{GoError, message}
use shortn.Act.{Result, ok, err, Act, pure, fail, lift, attempt, ◌>>=◌, ◌>>◌}
use shortn.Redis.{Redis}
use shortn.Observability
use shortn.Observability.{Otel, setup}
use shortn.Events.{KafkaClient, KafkaPublisher, new_kafka_publisher, close}
use shortn.Process.{Process, run, defer, began, finish}
use shortn.Config.{Config, load}
use shortn.Idgen.Snowflake.{Generator, new_generator}
use shortn.Idgen.Lease.{WorkerLease, acquire_worker_id, release}

-- 5 seconds, and those that a shutdown may take, in milliseconds
abbrev pub pre_stop_delay : ℕ
pre_stop_delay = 5000

abbrev pub shutdown_timeout : ℕ
shutdown_timeout = 10 * 1000

pub data Level : Type 0 where
  level_debug level_info level_warn level_error : Level

-- parseLevel
unfoldable pub parse_level : String → Level
parse_level level =
    if str_eq level "debug"
    then level_debug
    else if str_eq level "warn"
    then level_warn
    else if str_eq level "error"
    then level_error
    else level_info

abbrev pub burst_error : String
burst_error = "RATE_LIMIT_BURST must be a positive integer"

abbrev pub rps_error : String
rps_error = "RATE_LIMIT_RPS must be a positive integer"

-- What main calls that is not modelled: the libraries of telemetry, the clients' constructors and
-- their ends, the parsers of the standard library, and the two servers. `listen` serves at two addresses
-- until a signal comes, an error is a listener that failed.
pub record Libraries (W : Type 0) : Type 0 where
  pub getenv : String → String
  pub hostname : String
  pub otel : Otel W
  pub parse_pool_config : String → Result (Unit {0})
  pub new_pool : String → Act W (Unit {0})
  pub close_pool : W → W
  pub ping_pool : Act W (Unit {0})
  pub parse_redis_url : String → Result (Unit {0})
  pub close_redis : W → W
  pub ping_redis : Act W (Unit {0})
  pub rdb : Redis W
  pub run_release : String → String → Act W ℕ
  pub itoa : ℕ → String
  pub parse_uint : String → Result ℕ
  pub atoi : String → Result ℤ
  pub split : String → List String
  pub new_sqids : String → Result (ℕ → Result String)
  pub new_kafka_client : List String → String → ℕ → Result (KafkaClient W)
  pub listen : String → String → Act W (Unit {0})
  pub sleep : ℕ → W → W
  pub shutdown : ℕ → Act W (Unit {0})
  pub shutdown_ops : Act W (Unit {0})

-- What is wired together when the servers start.
pub record App (W : Type 0) : Type 0 where
  pub cfg : Config
  pub level : Level
  pub lease : Option WorkerLease
  pub gen : Generator
  pub encode : ℕ → Result String
  pub publisher : KafkaPublisher W
  pub burst : ℤ
  pub rps : ℤ

-- The settings of telemetry.
abbrev pub telemetry : Config → Observability.Config
telemetry cfg = record {
  service_name = "shortn-api";
  instance_id = cfg.instance_id;
  otlp_endpoint = cfg.otel_endpoint;
}

module _ {W : Type 0} (lib : Libraries W) where
  -- WORKER_ID, parsed as a uint16
  unfoldable pub explicit : Result ℕ → Act (Process W) (ℕ × Option WorkerLease)
  explicit (err e) = fail (message "WORKER_ID must be an integer in [0, 1023]")
  explicit (ok wid) =
      if ltb 1023 wid
      then fail (message "WORKER_ID must be an integer in [0, 1023]")
      else pure (wid, none)

  unfoldable pub leased : String → Act (Process W) (ℕ × Option WorkerLease)
  leased instance_id = do
    lease ← run (acquire_worker_id lib.rdb lib.itoa instance_id)
    defer (λ w. (release lib.run_release lease w).1)
    pure (lease.worker_id, some lease)

  unfoldable pub choose_worker_id : Config → Act (Process W) (ℕ × Option WorkerLease)
  unfolding explicit leased
  choose_worker_id cfg =
      if str_eq cfg.worker_id ""
      then leased cfg.instance_id
      else explicit (lib.parse_uint cfg.worker_id)

  -- RATE_LIMIT_BURST and RATE_LIMIT_RPS
  unfoldable pub positive : String → Result ℤ → Act (Process W) ℤ
  positive why (err e) = fail (message why)
  positive why (ok n) = if ltb_ℤ n (pos 1) then fail (message why) else pure n

  -- The hard dependencies: telemetry, and Postgres, which must answer.
  unfoldable pub open_pool : Config → Act (Process W) (Unit {0})
  open_pool cfg = do
    providers ← run (setup lib.otel (telemetry cfg))
    defer (λ w. (providers.shutdown w).1)
    lift (lib.parse_pool_config cfg.database_url)
    run (lib.new_pool cfg.database_url)
    defer lib.close_pool
    run lib.ping_pool

  -- Redis need not answer.
  unfoldable pub open_redis : Config → Act (Process W) (Unit {0})
  open_redis cfg = do
    lift (lib.parse_redis_url cfg.redis_url)
    defer lib.close_redis
    attempt (run lib.ping_redis)
    pure tt

  unfoldable pub open_publisher : Config → Act (Process W) (KafkaPublisher W)
  open_publisher cfg = do
    publisher ←
        lift
          (new_kafka_publisher lib.new_kafka_client (lib.split cfg.kafka_brokers) cfg.kafka_topic)
    defer (close publisher)
    pure publisher

  -- From the worker id on: the generator, the publisher and the limits.
  unfoldable pub wire : Config → ℕ × Option WorkerLease → Act (Process W) (App W)
  wire cfg (wid, lease) = do
    encode ← lift (lib.new_sqids cfg.sqids_alphabet)
    gen ← lift (new_generator (wid % 2 ^ 16))
    publisher ← open_publisher cfg
    burst ← positive burst_error (lib.atoi cfg.rate_limit_burst)
    rps ← positive rps_error (lib.atoi cfg.rate_limit_rps)
    pure (record {
      cfg = cfg;
      level = parse_level cfg.log_level;
      lease = lease;
      gen = gen;
      encode = encode;
      publisher = publisher;
      burst = burst;
      rps = rps;
    })

  unfoldable pub boot : Config → Act (Process W) (App W)
  boot cfg = do open_pool cfg; open_redis cfg; chosen ← choose_worker_id cfg; wire cfg chosen

  -- From the start of the servers to the end of main.
  unfoldable pub serve : App W → Act W (Unit {0})
  serve app = do
    lib.listen (":" ++ app.cfg.port) (":" ++ app.cfg.ops_port)
    (λ w. (ok tt, lib.sleep pre_stop_delay w))
    lib.shutdown shutdown_timeout
    attempt lib.shutdown_ops
    pure tt

  unfoldable pub main : W → ℕ × W
  unfolding finish
  main w =
      finish
        ((do cfg ← lift (load lib.getenv lib.hostname); app ← boot cfg; run (serve app)) (began w))
