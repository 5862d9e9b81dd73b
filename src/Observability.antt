-- ===== src/Observability.antt =====
-- internal/observability/observability.go: the bootstrap of OpenTelemetry. The libraries of
-- OpenTelemetry and Prometheus are the parameter `Otel`; a process makes one provider of each kind.
pub mod Laws
use shortn.Prelude.{String, Option, none, some}
use shortn.Error.{GoError, errorf, errors_join}
use shortn.Act.{Result, ok, err, Act, pure, fail, attempt, ◌>>=◌, ◌>>◌}

pub record Config : Type 0 where
  pub service_name : String
  pub instance_id : String
  pub otlp_endpoint : String

-- resource.Resource: what every signal is stamped with.
pub record Resource : Type 0 where
  pub service_name : String
  pub instance_id : String

-- What Setup calls. An exporter's constructor may fail; those of the providers and the setters of the
-- globals do not.
pub record Otel (W : Type 0) : Type 0 where
  -- otlptracehttp.New at an endpoint
  pub new_trace_exporter : String → Act W (Unit {0})
  -- sdktrace.NewTracerProvider, over the trace exporter
  pub new_tracer_provider : Resource → W → W
  -- otelprom.New, over a registry of its own
  pub new_metric_exporter : Act W (Unit {0})
  -- metric.NewMeterProvider, over the metric exporter
  pub new_meter_provider : Resource → W → W
  pub set_tracer_provider : W → W
  pub set_meter_provider : W → W
  pub set_text_map_propagator : W → W
  -- Shutdown of the two providers
  pub shutdown_meter : Act W (Unit {0})
  pub shutdown_tracer : Act W (Unit {0})
  -- promhttp.HandlerFor the registry: the page of metrics
  pub scrape : W → String

pub record Providers (W : Type 0) : Type 0 where
  pub metrics_handler : W → String
  pub shutdown : Act W (Unit {0})

unfoldable pub new_resource : Config → Resource
new_resource cfg = record { service_name = cfg.service_name; instance_id = cfg.instance_id }

-- The error of a call, nil if it has none.
abbrev pub error_of : Result (Unit {0}) → Option GoError
error_of (ok _) = none
error_of (err e) = some e

abbrev returned : {W : Type 0} → Option GoError → Act W (Unit {0})
returned none = pure tt
returned (some e) = fail e

-- An error with the prefix of fmt.Errorf.
abbrev pub or_wrapped : {W : Type 0} → String → Result (Unit {0}) → Act W (Unit {0})
or_wrapped prefix (ok _) = pure tt
or_wrapped prefix (err e) = fail (errorf prefix e)

module _ {W : Type 0} (otel : Otel W) where
  abbrev effect : (W → W) → Act W (Unit {0})
  effect f w = (ok tt, f w)

  -- The Shutdown of the providers: the meter provider first, and both errors.
  unfoldable pub shutdown : Act W (Unit {0})
  shutdown = do
    meter ← attempt otel.shutdown_meter
    tracer ← attempt otel.shutdown_tracer
    returned (errors_join (error_of meter) (error_of tracer))

  abbrev pub providers : Providers W
  providers = record { metrics_handler = otel.scrape; shutdown = shutdown }

  unfoldable pub setup : Config → Act W (Providers W)
  unfolding new_resource
  setup cfg = do
    trace_exporter ← attempt (otel.new_trace_exporter cfg.otlp_endpoint)
    or_wrapped "creating otlp trace exporter" trace_exporter
    effect (otel.new_tracer_provider (new_resource cfg))
    metric_exporter ← attempt otel.new_metric_exporter
    or_wrapped "creating prometheus metric exporter" metric_exporter
    effect (otel.new_meter_provider (new_resource cfg))
    effect otel.set_tracer_provider
    effect otel.set_meter_provider
    effect otel.set_text_map_propagator
    pure providers
