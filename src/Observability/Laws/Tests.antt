-- ===== src/Observability/Laws/Tests.antt =====
-- Telemetry whose trace provider cannot be flushed; the world is a log of the calls.
use shortn.Prelude.{String, ◌≡◌, ◌↔◌, refl, List, [], ◌∷◌, ◌||◌}
use shortn.Error.{message, sentinel, err_deadline_exceeded}
use shortn.Act.{Result, ok, err, Act}
use shortn.Observability.{Otel, shutdown, setup}
use shortn.Observability.Laws.{error_is, shutdown-both}

abbrev World : Type 0
World = List String

abbrev calls : String → Act World (Unit {0})
calls what w = (ok tt, what ∷ w)

abbrev otel : Otel World
otel = record {
  new_trace_exporter = λ endpoint. calls "trace exporter";
  new_tracer_provider = λ res w. "tracer provider" ∷ w;
  new_metric_exporter = λ w. (err (message "duplicate registration"), w);
  new_meter_provider = λ res w. "meter provider" ∷ w;
  set_tracer_provider = λ w. "set tracer" ∷ w;
  set_meter_provider = λ w. "set meter" ∷ w;
  set_text_map_propagator = λ w. "set propagator" ∷ w;
  shutdown_meter = calls "meter";
  shutdown_tracer = λ w. (err (sentinel err_deadline_exceeded), "tracer" ∷ w);
  scrape = λ w. "";
}

-- Without a metric exporter no global is set.
setup_test :
    (setup otel (record { service_name = "s"; instance_id = "i"; otlp_endpoint = "e" }) []).1
    ≡ "tracer provider" ∷ "trace exporter" ∷ []
unfolding setup
setup_test = refl

shutdown-both_example :
    ((shutdown otel []).1 ≡ "tracer" ∷ "meter" ∷ [])
    × (((shutdown otel []).0 ≡ ok tt) ↔ (
        (◌≡◌ {A = Result (Unit {0})} (ok tt) (ok tt))
        × (◌≡◌ {A = Result (Unit {0})} (err (sentinel err_deadline_exceeded)) (ok tt))))
    × (error_is (shutdown otel []).0 err_deadline_exceeded ≡ (
        error_is (ok tt) err_deadline_exceeded
        || error_is (err (sentinel err_deadline_exceeded)) err_deadline_exceeded))
shutdown-both_example = shutdown-both otel [] err_deadline_exceeded
