-- ===== src/Telemetry/Crates.antt =====
-- The crates opentelemetry, opentelemetry_sdk, opentelemetry_otlp, tracing and tracing_subscriber as
-- src/telemetry calls them. The laws are what they document of the state of a process: it has a
-- subscriber or none, one can only be set where there is none, and nothing else sets one.
use animus_rs.Prelude.{◌≡◌, Bool, true, false, List, Text, Result, ok, err}

-- `fmt::layer()`, plain, `.compact()` or with the writer `stderr`.
pub data FmtLayer : Type 0 where
  full compact to_stderr : FmtLayer

abbrev pub succeeded : {A : Type 0} → Result Text A → Bool
succeeded (ok a) = true
succeeded (err e) = false

pub record Sdk : Type 1 where
  pub Process : Type 0
  pub Resource : Type 0
  pub SpanExporter : Type 0
  pub MetricExporter : Type 0
  pub LogExporter : Type 0
  pub TracerProvider : Type 0
  pub MeterProvider : Type 0
  pub LoggerProvider : Type 0
  pub EnvFilter : Type 0
  pub Layer : Type 0
  pub resource : Text → Resource
  -- with the endpoint
  pub span_exporter : Text → Result Text SpanExporter
  pub metric_exporter : Text → Result Text MetricExporter
  pub log_exporter : Text → Result Text LogExporter
  pub tracer_provider : SpanExporter → Resource → TracerProvider
  pub meter_provider : MetricExporter → Resource → MeterProvider
  pub logger_provider : LogExporter → Resource → LoggerProvider
  pub filter_from_env : Process → Result Text EnvFilter
  pub default_filter : Text → EnvFilter
  pub fmt_layer : FmtLayer → Layer
  -- with the name of the tracer
  pub tracer_layer : Text → TracerProvider → Layer
  pub log_layer : LoggerProvider → Layer
  pub set_meter_provider : MeterProvider → Process → Process
  -- the registry with the filter and the layers
  pub try_init : EnvFilter → List Layer → Process → Result Text (Unit {0}) × Process
  pub flush_tracer : TracerProvider → Process → Process
  pub shutdown_tracer : TracerProvider → Process → Process
  pub flush_meter : MeterProvider → Process → Process
  pub shutdown_meter : MeterProvider → Process → Process
  pub flush_logger : LoggerProvider → Process → Process
  pub shutdown_logger : LoggerProvider → Process → Process
  pub has_subscriber : Process → Bool
  pub try_init-succeeds :
      (f : EnvFilter) (ls : List Layer) (p : Process)
      → has_subscriber p ≡ false
      → succeeded (try_init f ls p).0 ≡ true
  pub try_init-fails :
      (f : EnvFilter) (ls : List Layer) (p : Process)
      → has_subscriber p ≡ true
      → succeeded (try_init f ls p).0 ≡ false
  pub has_subscriber-try_init :
      (f : EnvFilter) (ls : List Layer) (p : Process) → has_subscriber (try_init f ls p).1 ≡ true
  pub has_subscriber-set_meter_provider :
      (m : MeterProvider) (p : Process) → has_subscriber (set_meter_provider m p) ≡ has_subscriber p
