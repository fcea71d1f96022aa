-- ===== src/Telemetry.antt =====
-- src/telemetry/mod.rs: how telemetry is set up and shut down.
pub mod Crates
pub mod Instruments
pub mod Model
pub mod SetUp
pub mod Spans
use animus_rs.Prelude.{
  ◌≡◌, Bool, true, false, Option, none, some, List, [], ◌∷◌, ◌++◌, Text, lit, Result, ok, err,
  unwrap_or,
}
use animus_rs.Db.Session.{Error}
use animus_rs.Telemetry.Crates.{Sdk, FmtLayer, full, compact}

pub record TelemetryConfig : Type 0 where
  pub endpoint : Option Text
  pub service_name : Text

module _ (S : Sdk) where
  open S use {
    Process, TracerProvider, MeterProvider, LoggerProvider, Layer, resource, span_exporter,
    metric_exporter, log_exporter, tracer_provider, meter_provider, logger_provider, fmt_layer,
    tracer_layer, log_layer, set_meter_provider, default_filter, try_init,
  }

  pub record TelemetryGuard : Type 0 where
    pub tracer_provider : Option TracerProvider
    pub meter_provider : Option MeterProvider
    pub logger_provider : Option LoggerProvider

  -- A step of the set-up, on the state that the process shares.
  abbrev pub Setup : Type 0 → Type 0
  Setup A = Process → Result Error A × Process

  abbrev pub continue :
      {A B : Type 0} → (A → Setup B) → Result Error A × Process → Result Error B × Process
  continue f (ok a, p) = f a p
  continue f (err e, p) = (err e, p)

  infixl 5 ◌>>=◌ ◌>>◌
  abbrev pub ◌>>=◌ : {A B : Type 0} → Setup A → (A → Setup B) → Setup B
  ◌>>=◌ m f p = continue f (m p)

  abbrev pub ◌>>◌ : {A B : Type 0} → Setup A → Setup B → Setup B
  ◌>>◌ m k p = continue (λ _. k) (m p)

  -- `map_err`, with what has failed.
  pub failed_to : {A : Type 0} → Text → Result Text A → Result Error A
  failed_to what (ok a) = ok a
  failed_to what (err e) = err (Error.other (lit "failed to " ++ (what ++ (lit ": " ++ e))))

  abbrev lift : {A : Type 0} → Result Error A → Setup A
  lift r p = (r, p)

  -- `RUST_LOG`, or `info` where it does not hold a filter.
  pub env_filter : Result Text S.EnvFilter → S.EnvFilter
  env_filter (ok filter) = filter
  env_filter (err e) = default_filter (lit "info")

  -- The subscriber of all layers becomes that of the process.
  pub init_subscriber : List Layer → Setup (Unit {0})
  init_subscriber layers p =
      let (answer, p') = try_init (env_filter (S.filter_from_env p)) layers p in
      (failed_to (lit "init tracing subscriber") answer, p')

  pub set_up_metrics : MeterProvider → Setup (Unit {0})
  set_up_metrics provider p = (ok tt, set_meter_provider provider p)

  pub with_endpoint : Text → Text → Setup TelemetryGuard
  with_endpoint service_name endpoint = do
    let of = resource service_name
    spans ← lift (failed_to (lit "create OTLP span exporter") (span_exporter endpoint))
    let tracers = tracer_provider spans of
    metrics ← lift (failed_to (lit "create OTLP metric exporter") (metric_exporter endpoint))
    let meters = meter_provider metrics of
    set_up_metrics meters
    logs ← lift (failed_to (lit "create OTLP log exporter") (log_exporter endpoint))
    let loggers = logger_provider logs of
    init_subscriber
        (fmt_layer compact ∷ tracer_layer (lit "animus-rs") tracers ∷ log_layer loggers ∷ [])
    lift (
        ok (record {
          tracer_provider = some tracers;
          meter_provider = some meters;
          logger_provider = some loggers;
        }))

  pub without_endpoint : Setup TelemetryGuard
  without_endpoint = do
    init_subscriber (fmt_layer full ∷ [])
    lift (ok (record { tracer_provider = none; meter_provider = none; logger_provider = none }))

  pub init_for : Text → Option Text → Setup TelemetryGuard
  init_for service_name (some endpoint) = with_endpoint service_name endpoint
  init_for service_name none = without_endpoint

  pub init_telemetry : TelemetryConfig → Setup TelemetryGuard
  init_telemetry config = init_for config.service_name config.endpoint

  pub if_there : {A : Type 0} → (A → Process → Process) → Option A → Process → Process
  if_there f none p = p
  if_there f (some provider) p = f provider p

  -- What the providers answer is dropped.
  pub force_flush : TelemetryGuard → Process → Process
  force_flush guard p = if_there S.flush_logger guard.logger_provider (
      if_there S.flush_meter guard.meter_provider (if_there S.flush_tracer guard.tracer_provider p))

  -- `Drop`
  pub drop : TelemetryGuard → Process → Process
  drop guard p = if_there S.shutdown_tracer guard.tracer_provider (
      if_there S.shutdown_meter guard.meter_provider
        (if_there S.shutdown_logger guard.logger_provider p))
