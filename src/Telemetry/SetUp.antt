-- ===== src/Telemetry/SetUp.antt =====
-- When src/telemetry/mod.rs sets telemetry up, and what it then holds.
use animus_rs.Prelude.{
  ◌≡◌, refl, sym, ◌∙◌, ◌⊎◌, inl, inr, true, false, Option, none, some, List, Text, Result, ok, err,
  is_some, lit, Bool-cases,
}
use animus_rs.Db.Session.{Error}
use animus_rs.Telemetry.Crates.{Sdk, succeeded}
use animus_rs.Telemetry.{
  TelemetryConfig, TelemetryGuard, continue, failed_to, env_filter, init_subscriber, set_up_metrics,
  with_endpoint, without_endpoint, init_for, init_telemetry, if_there, force_flush, drop,
}

module _ (S : Sdk) where
  open S use {Process, has_subscriber, span_exporter, metric_exporter, log_exporter}

  -- One of the exporters cannot be built for this endpoint.
  abbrev pub ExporterFails : Text → Type 0
  ExporterFails url =
      (succeeded (span_exporter url) ≡ false)
      ⊎ (succeeded (metric_exporter url) ≡ false)
      ⊎ (succeeded (log_exporter url) ≡ false)

  abbrev pub ExportersBuild : Text → Type 0
  ExportersBuild url =
      (succeeded (span_exporter url) ≡ true)
      × (succeeded (metric_exporter url) ≡ true)
      × (succeeded (log_exporter url) ≡ true)

  -- The set-up has worked: this process had no subscriber and has one now, and there is a provider
  -- for each signal exactly if there is an endpoint; without one, the guard flushes and shuts down
  -- nothing.
  pub record Active (endpoint : Option Text) (guard : TelemetryGuard S) (before after : Process)
      : Type 0 where
    pub was_unset : has_subscriber before ≡ false
    pub is_set : has_subscriber after ≡ true
    pub built : (url : Text) → endpoint ≡ some url → ExportersBuild url
    pub traces_iff : is_some guard.tracer_provider ≡ is_some endpoint
    pub metrics_iff : is_some guard.meter_provider ≡ is_some endpoint
    pub logs_iff : is_some guard.logger_provider ≡ is_some endpoint
    pub idle :
        is_some endpoint ≡ false
        → (q : Process) → (force_flush S guard q ≡ q) × (drop S guard q ≡ q)

  -- It has not: there was a subscriber, or an exporter could not be built; whether there is one is
  -- as it was.
  pub record Refused (endpoint : Option Text) (before after : Process) : Type 0 where
    pub same_set : has_subscriber after ≡ has_subscriber before
    pub reason :
        (has_subscriber before ≡ true) ⊎ ((url : Text) × (endpoint ≡ some url) × ExporterFails url)

  unfoldable pub Inits : Option Text → Process → Result Error (TelemetryGuard S) × Process → Type 0
  Inits endpoint before (ok guard, after) = Active endpoint guard before after
  Inits endpoint before (err e, after) = Refused endpoint before after

  answered :
      (Q : Result Error (TelemetryGuard S) × Process → Type 0) (guard : TelemetryGuard S)
      (p q : Process) (r : Result Text (Unit {0}))
      → (has_subscriber p ≡ false → succeeded r ≡ true)
      → (has_subscriber p ≡ true → succeeded r ≡ false)
      → (has_subscriber p ≡ false → Q (ok guard, q))
      → (has_subscriber p ≡ true → (e : Error) → Q (err e, q))
      → Q (continue S (λ _ p'. (ok guard, p')) (failed_to S (lit "init tracing subscriber") r, q))
  unfolding failed_to
  answered Q guard p q (ok u) works fails good bad = elim (Bool-cases (has_subscriber p)) [
    | inl e ↦ cc (fails e)
    | inr e ↦ good e
  ]
  answered Q guard p q (err x) works fails good bad = elim (Bool-cases (has_subscriber p)) [
    | inl e ↦ bad e _
    | inr e ↦ cc (works e)
  ]

  -- The end of both branches.
  init_subscriber_rule :
      (Q : Result Error (TelemetryGuard S) × Process → Type 0) (layers : List S.Layer)
      (guard : TelemetryGuard S) (p : Process)
      → (has_subscriber p ≡ false → (q : Process) → has_subscriber q ≡ true → Q (ok guard, q))
      → (has_subscriber p ≡ true
          → (e : Error) (q : Process) → has_subscriber q ≡ true
          → Q (err e, q))
      → Q (continue S (λ _ p'. (ok guard, p')) (init_subscriber S layers p))
  unfolding init_subscriber
  init_subscriber_rule Q layers guard p good bad =
      let f = env_filter S (S.filter_from_env p) in
      let set = S.has_subscriber-try_init f layers p in
      answered Q guard p _ _ (S.try_init-succeeds f layers p) (S.try_init-fails f layers p)
        (λ e. good e _ set) (λ e x. bad e x _ set)

  without_endpoint-Inits : (p : Process) → Inits none p (without_endpoint S p)
  unfolding without_endpoint Inits force_flush drop if_there
  without_endpoint-Inits p =
      init_subscriber_rule (Inits none p) _ _ p
        (λ e q set. record {
          was_unset = e;
          is_set = set;
          built = λ url h. (cc h, cc h, cc h);
          traces_iff = refl;
          metrics_iff = refl;
          logs_iff = refl;
          idle = λ _ q'. (refl, refl);
        })
        (λ e x q set. record { same_set = set ∙ sym e; reason = inl e })

  exporter_refused :
      (url : Text) (p q : Process) (e : Error)
      → has_subscriber q ≡ has_subscriber p
      → ExporterFails url
      → Inits (some url) p (err e, q)
  unfolding Inits
  exporter_refused url p q e same fails = record {
    same_set = same;
    reason = inr (url, refl, fails);
  }

  Result-cases :
      {A : Type 0} (r : Result Text A) → ((a : A) × (r ≡ ok a)) ⊎ ((e : Text) × (r ≡ err e))
  Result-cases (ok a) = inl (a, refl)
  Result-cases (err e) = inr (e, refl)

  subscribed :
      (url : Text) (layers : List S.Layer) (tracers : S.TracerProvider) (meters : S.MeterProvider)
      (loggers : S.LoggerProvider) (p q : Process)
      → ExportersBuild url
      → has_subscriber q ≡ has_subscriber p
      → Inits (some url) p (
          continue S
            (λ _ p'. (
              ok (record {
                tracer_provider = some tracers;
                meter_provider = some meters;
                logger_provider = some loggers;
              }),
              p',
            ))
            (init_subscriber S layers q))
  unfolding Inits
  subscribed url layers tracers meters loggers p q build same =
      init_subscriber_rule (Inits (some url) p) layers _ q
        (λ e q' set. record {
          was_unset = sym same ∙ e;
          is_set = set;
          built = λ u h. let same_url : url ≡ u = cc h in rw (sym same_url) build;
          traces_iff = refl;
          metrics_iff = refl;
          logs_iff = refl;
          idle = λ h. cc h;
        })
        (λ e x q' set. record { same_set = set ∙ (sym e ∙ same); reason = inl (sym same ∙ e) })

  with_endpoint-Inits :
      (name url : Text) (p : Process) → Inits (some url) p (with_endpoint S name url p)
  unfolding with_endpoint failed_to set_up_metrics
  with_endpoint-Inits name url p = elim (Result-cases (span_exporter url)) [
    | inr (x, e) ↦ rw e (exporter_refused url p p _ refl (inl (rw e refl)))
    | inl (spans, e) ↦ rw e (elim (Result-cases (metric_exporter url)) [
      | inr (x, e') ↦ rw e' (exporter_refused url p p _ refl (inr (inl (rw e' refl))))
      | inl (metrics, e') ↦ rw e' (
          let meters = S.meter_provider metrics (S.resource name) in
          let same = S.has_subscriber-set_meter_provider meters p in
          elim (Result-cases (log_exporter url)) [
            | inr (x, e'') ↦ rw e'' (exporter_refused url p _ _ same (inr (inr (rw e'' refl))))
            | inl (logs, e'') ↦
                rw e'' (subscribed url _ _ meters _ p _ (rw e refl, rw e' refl, rw e'' refl) same)
          ])
    ])
  ]

  init_for-Inits :
      (name : Text) (endpoint : Option Text) (p : Process)
      → Inits endpoint p (init_for S name endpoint p)
  unfolding init_for
  init_for-Inits name (some url) p = with_endpoint-Inits name url p
  init_for-Inits name none p = without_endpoint-Inits p

  -- `init_telemetry` succeeds exactly if the process has no subscriber yet and, with an endpoint, all
  -- three exporters can be built. Then the process has one, and the guard holds a provider of each
  -- signal if there is an endpoint, and else none, so that it flushes and shuts down nothing. After a
  -- failure the process has a subscriber exactly if it had one.
  pub init_telemetry-Inits :
      (config : TelemetryConfig) (p : Process) → Inits config.endpoint p (init_telemetry S config p)
  unfolding init_telemetry
  init_telemetry-Inits config p = init_for-Inits config.service_name config.endpoint p
