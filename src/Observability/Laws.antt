-- ===== src/Observability/Laws.antt =====
-- How the bootstrap of telemetry ends, and its shutdown.
mod Tests
use shortn.Prelude.{
  sym, ap, String, ◌≡◌, refl, ◌∙◌, ◌⊎◌, ◌↔◌, inl, inr, arith, Bool, true, false, ◌||◌, Option, none,
  some,
}
use shortn.Error.{GoError, Sentinel, err_no_rows, errorf, errors_is, errors_join}
use shortn.Act.{outcome_fst, Result, ok, err, Act, Result-cases, Outcome-cases}
use shortn.Observability.{
  Config, Resource, new_resource, Otel, Providers, error_of, or_wrapped, shutdown, providers, setup,
}

-- Whether the error of a call, if it has one, is the target.
abbrev pub error_is : Result (Unit {0}) → Sentinel → Bool
error_is (ok _) target = false
error_is (err e) target = errors_is e target

module _ {W : Type 0} (otel : Otel W) where
  -- The world with the globals set.
  abbrev pub installed_in : Resource → W → W
  installed_in res w =
      otel.set_text_map_propagator
        (otel.set_meter_provider (otel.set_tracer_provider (otel.new_meter_provider res w)))

  -- How Setup ends: an exporter that cannot be made is its error, and the globals are set only if
  -- both are made.
  pub data IsSetUp (cfg : Config) (w : W) (r : Result (Providers W)) (w' : W) : Type 0 where
    untraced :
        (e : GoError)
        → otel.new_trace_exporter cfg.otlp_endpoint w ≡ (err e, w')
        → r ≡ err (errorf "creating otlp trace exporter" e)
        → IsSetUp cfg w r w'
    unmetered :
        (u : W) (e : GoError)
        → otel.new_trace_exporter cfg.otlp_endpoint w ≡ (ok tt, u)
        → otel.new_metric_exporter (otel.new_tracer_provider (new_resource cfg) u) ≡ (err e, w')
        → r ≡ err (errorf "creating prometheus metric exporter" e)
        → IsSetUp cfg w r w'
    installed :
        (u v : W)
        → otel.new_trace_exporter cfg.otlp_endpoint w ≡ (ok tt, u)
        → otel.new_metric_exporter (otel.new_tracer_provider (new_resource cfg) u) ≡ (ok tt, v)
        → r ≡ ok (providers otel)
        → w' ≡ installed_in (new_resource cfg) v
        → IsSetUp cfg w r w'

  pub setup-IsSetUp :
      (cfg : Config) (w : W) → IsSetUp cfg w (setup otel cfg w).0 (setup otel cfg w).1
  unfolding setup
  setup-IsSetUp cfg w =
      let u = (otel.new_trace_exporter cfg.otlp_endpoint w).1 in
      let x = otel.new_tracer_provider (new_resource cfg) u in
      let v = (otel.new_metric_exporter x).1 in
      elim (Outcome-cases (otel.new_trace_exporter cfg.otlp_endpoint w)) [
        | inr (e, p) ↦ rw p (untraced e p refl)
        | inl (_, p) ↦ elim (Outcome-cases (otel.new_metric_exporter x)) [
          | inr (e, q) ↦ rw (p, q) (unmetered u e p q refl)
          | inl (_, q) ↦ rw (p, q) (installed u v p q refl refl)
        ]
      ]

  shutdown_on :
      (meter tracer : Result (Unit {0})) (w u v : W)
      → otel.shutdown_meter w ≡ (meter, u)
      → otel.shutdown_tracer u ≡ (tracer, v)
      → (target : Sentinel)
      → ((shutdown otel w).1 ≡ v)
        × (((shutdown otel w).0 ≡ ok tt) ↔ ((meter ≡ ok tt) × (tracer ≡ ok tt)))
        × (error_is (shutdown otel w).0 target ≡ (error_is meter target || error_is tracer target))
  unfolding shutdown
  shutdown_on (ok _) (ok _) w u v p q t = rw (p, q) (refl, (λ h. (refl, refl), λ h. refl), refl)
  shutdown_on (ok _) (err f) w u v p q t = rw (p, q) (refl, (λ h. cc, λ h. cc), refl)
  shutdown_on (err e) (ok _) w u v p q t = rw (p, q) (refl, (λ h. cc, λ h. cc), ground arith)
  shutdown_on (err e) (err f) w u v p q t = rw (p, q) (refl, (λ h. cc, λ h. cc), refl)

  -- Setup makes no other providers than these.
  pub setup-providers :
      (cfg : Config) (w w' : W) (p : Providers W)
      → setup otel cfg w ≡ (ok p, w')
      → p ≡ providers otel
  setup-providers cfg w w' p e = named (setup-IsSetUp cfg w)
    where
      named : IsSetUp cfg w (setup otel cfg w).0 (setup otel cfg w).1 → p ≡ providers otel
      named (untraced x f g) = absurd (let k = sym (outcome_fst e) ∙ g in cc)
      named (unmetered u x f g h) = absurd (let k = sym (outcome_fst e) ∙ h in cc)
      named (installed u v f g h k) = let r = sym (outcome_fst e) ∙ h in cc

  -- What no call of the libraries changes.
  pub record IsApart {X : Type 0} (f : W → X) : Type 0 where
    pub trace_exporter :
        (endpoint : String) (w : W) → f (otel.new_trace_exporter endpoint w).1 ≡ f w
    pub tracer_provider : (res : Resource) (w : W) → f (otel.new_tracer_provider res w) ≡ f w
    pub metric_exporter : (w : W) → f (otel.new_metric_exporter w).1 ≡ f w
    pub meter_provider : (res : Resource) (w : W) → f (otel.new_meter_provider res w) ≡ f w
    pub set_tracer : (w : W) → f (otel.set_tracer_provider w) ≡ f w
    pub set_meter : (w : W) → f (otel.set_meter_provider w) ≡ f w
    pub set_propagator : (w : W) → f (otel.set_text_map_propagator w) ≡ f w
    pub shutdown_meter : (w : W) → f (otel.shutdown_meter w).1 ≡ f w
    pub shutdown_tracer : (w : W) → f (otel.shutdown_tracer w).1 ≡ f w

  module _ {X : Type 0} (f : W → X) (apart : IsApart f) where
    pub setup_kept : (cfg : Config) (w : W) → f (setup otel cfg w).1 ≡ f w
    unfolding setup
    setup_kept cfg w =
        let res = new_resource cfg in
        let u = (otel.new_trace_exporter cfg.otlp_endpoint w).1 in
        let x = otel.new_tracer_provider res u in
        let v = (otel.new_metric_exporter x).1 in
        let first = apart.trace_exporter cfg.otlp_endpoint w in
        let second = apart.metric_exporter x ∙ apart.tracer_provider res u ∙ first in
        elim (Outcome-cases (otel.new_trace_exporter cfg.otlp_endpoint w)) [
          | inr (e, p) ↦ rw p first
          | inl (_, p) ↦ elim (Outcome-cases (otel.new_metric_exporter x)) [
            | inr (e, q) ↦ rw (p, q) second
            | inl (_, q) ↦
                rw (p, q)
                  (apart.set_propagator _
                    ∙ apart.set_meter _
                    ∙ apart.set_tracer _
                    ∙ apart.meter_provider res v
                    ∙ second)
          ]
        ]

    pub shutdown_kept : (w : W) → f (shutdown otel w).1 ≡ f w
    shutdown_kept w =
        let u = (otel.shutdown_meter w).1 in
        ap f
          (shutdown_on (otel.shutdown_meter w).0 (otel.shutdown_tracer u).0 w u _ refl refl
            err_no_rows).0
        ∙ apart.shutdown_tracer u
        ∙ apart.shutdown_meter w

  -- Shutdown stops the meter provider and then the tracer provider, whatever the first answers;
  -- it succeeds exactly if both do, and its error is a sentinel exactly if the error of one of
  -- them is.
  pub shutdown-both :
      (w : W) (target : Sentinel)
      → let (meter, u) = otel.shutdown_meter w in
        let (tracer, v) = otel.shutdown_tracer u in
        ((shutdown otel w).1 ≡ v)
        × (((shutdown otel w).0 ≡ ok tt) ↔ ((meter ≡ ok tt) × (tracer ≡ ok tt)))
        × (error_is (shutdown otel w).0 target ≡ (error_is meter target || error_is tracer target))
  shutdown-both w target =
      let u = (otel.shutdown_meter w).1 in
      shutdown_on (otel.shutdown_meter w).0 (otel.shutdown_tracer u).0 w u
        (otel.shutdown_tracer u).1 refl refl target
