-- ===== src/Analytics/Main/Tests.antt =====
-- The consumer's main, in a world that is the database: the commit of the second record is not
-- answered, and the process exits.
use shortn.Prelude.{◌≡◌, some, refl, [], ◌∷◌, arith}
use shortn.Act.{ok, Act}
use shortn.Config.{Config, load}
use shortn.Observability.{setup}
use shortn.Store.{Tables, Db, answered, lost, broken, statement}
use shortn.Store.Analytics.{select_offset, offset_or_none, loaded, load_offset}
use shortn.Analytics.Assigned.{on_assigned, sought}
use shortn.Analytics.Exactly.{IsExact}
use shortn.Analytics.Tests.{click, decode, log, empty, cut_off, polls}
use shortn.Analytics.Main.{Libraries, open_pool, open_client, main}
use shortn.Analytics.Exactly.Replay.{IsComplete}
use shortn.Analytics.Main.Kept.{AreApart, session_start}
use shortn.Analytics.Main.Exact.{IsOrdered, IsServed, main-IsExact, main-IsComplete}

-- The lookup of partition 0, and what follows it.
abbrev started : Db
started = record cut_off { trips = answered ∷ cut_off.trips }

abbrev done : Act Db (Unit {0})
done w = (ok tt, w)

abbrev libraries : Libraries Db
libraries = record {
  getenv = λ key. "x";
  hostname = "pod-1";
  otel = record {
    new_trace_exporter = λ endpoint. done;
    new_tracer_provider = λ res w. w;
    new_metric_exporter = done;
    new_meter_provider = λ res w. w;
    set_tracer_provider = λ w. w;
    set_meter_provider = λ w. w;
    set_text_map_propagator = λ w. w;
    shutdown_meter = done;
    shutdown_tracer = done;
    scrape = λ w. "";
  };
  parse_pool_config = λ url. ok tt;
  new_pool = λ url. done;
  close_pool = λ w. w;
  ping_pool = done;
  split = λ s. s ∷ [];
  new_client = λ brokers group topic. done;
  close_client = λ w. w;
  shutdown_metrics = done;
  db = λ w. w;
  put_db = λ d w. d;
  decode = decode;
  assigned = λ w. 0 ∷ [];
  polls = λ w offsets. polls;
}

apart : AreApart libraries
apart = record {
  db_put = λ d w. refl;
  telemetry = record {
    trace_exporter = λ endpoint w. refl;
    tracer_provider = λ res w. refl;
    metric_exporter = λ w. refl;
    meter_provider = λ res w. refl;
    set_tracer = λ w. refl;
    set_meter = λ w. refl;
    set_propagator = λ w. refl;
    shutdown_meter = λ w. refl;
    shutdown_tracer = λ w. refl;
  };
  new_pool = λ url w. refl;
  close_pool = λ w. refl;
  ping_pool = λ w. refl;
  new_client = λ brokers group topic w. refl;
  close_client = λ w. refl;
  shutdown_metrics = λ w. refl;
}

abbrev cfg : Config
cfg = record {
  port = "x";
  log_level = "x";
  env = "x";
  database_url = "x";
  redis_url = "x";
  worker_id = "x";
  instance_id = "x";
  sqids_alphabet = "x";
  kafka_brokers = "x";
  kafka_topic = "x";
  kafka_group = "x";
  rate_limit_rps = "x";
  rate_limit_burst = "x";
  otel_endpoint = "x";
  admin_key = "x";
  ops_port = "x";
}

exact : IsExact decode "x" "x" log empty
exact = record {
  complete = λ p i v e below l d. absurd (omega (arith, below));
  genuine = tt;
  unique = tt;
}

served : IsServed libraries cfg log (session_start libraries apart cfg started).world
unfolding open_pool setup open_client on_assigned load_offset statement select_offset offset_or_none
    loaded sought
served = record {
  answered = (refl, tt);
  clean = ((λ h. cc), ((λ _. refl), ((λ h. cc), tt)));
  within_assigned = (refl, (refl, tt));
  ordered = (refl, refl, (refl, refl, tt));
}

main-IsExact_example : IsExact decode "x" "x" log (main libraries started).1.tables
main-IsExact_example =
    main-IsExact libraries apart cfg log started (unfold load in refl) exact served

-- The first record was consumed before; the lookup of its offset is lost, and it is handed out again.
abbrev first_consumed : Tables
first_consumed = record empty {
  click_events = click "x" ∷ [];
  kafka_offsets = record { group = "x"; topic = "x"; partition = 0; offset = 1 } ∷ [];
}

abbrev restarted : Db
restarted = record cut_off {
  tables = first_consumed;
  trips = lost (broken "reset") ∷ cut_off.trips;
}

first_consumed-IsComplete : IsComplete decode "x" "x" log first_consumed
first_consumed-IsComplete = record {
  complete = λ p i v e below l d.
      let here : log p i ≡ some "x" = ground (arith, below) in
      let same : v ≡ "x" = cc in
      let decoded : ok (click "x") ≡ ok e = rw same at d in
      let event : click "x" ≡ e = cc in rw⁻¹ event refl;
  genuine = (record { partition = 0; offset = 0; value = "x"; logged = refl; decoded = refl }, tt);
  unique = (refl, tt);
}

ordered : IsOrdered libraries cfg log (session_start libraries apart cfg restarted).world
unfolding open_pool setup open_client on_assigned load_offset statement select_offset offset_or_none
    loaded sought
ordered = record {
  clean = ((λ h. cc), ((λ _. refl), ((λ h. cc), tt)));
  ordered = (refl, refl, (refl, refl, tt));
}

main-IsComplete_example : IsComplete decode "x" "x" log (main libraries restarted).1.tables
main-IsComplete_example =
    main-IsComplete libraries apart cfg log restarted (unfold load in refl)
      first_consumed-IsComplete ordered
