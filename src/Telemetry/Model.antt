-- ===== src/Telemetry/Model.antt =====
-- Libraries that meet the laws of `Sdk`. A process is its subscriber, if any, and the calls that the
-- providers have had. An exporter can be built for each endpoint but one.
use animus_rs.Prelude.{
  ◌≡◌, refl, Bool, true, false, List, [], ◌∷◌, ◌++◌, Text, lit, Result, ok, err, text_eq,
  if◌then◌else◌, arith,
}
use animus_rs.Telemetry.Crates.{Sdk, succeeded}

pub record Process : Type 0 where
  pub subscribed : Bool
  pub calls : List Text

abbrev unreachable : Text → Result Text Text
unreachable url = if text_eq url (lit "unreachable") then err (lit "no endpoint") else ok url

abbrev pub install : Process → Result Text (Unit {0}) × Process
install p =
    if p.subscribed
    then (err (lit "a global default trace dispatcher has already been set"), p)
    else (ok tt, record p { subscribed = true })

abbrev pub call : Text → Text → Process → Process
call what provider p = record p { calls = p.calls ++ (what ++ provider) ∷ [] }

pub works : (p : Process) → p.subscribed ≡ false → succeeded (install p).0 ≡ true
works p e = rw e refl

pub refuses : (p : Process) → p.subscribed ≡ true → succeeded (install p).0 ≡ false
refuses p e = rw e refl

pub installed : (p : Process) → (install p).1.subscribed ≡ true
installed p = ground arith

abbrev pub model : Sdk
model = record {
  Process = Process;
  Resource = Text;
  SpanExporter = Text;
  MetricExporter = Text;
  LogExporter = Text;
  TracerProvider = Text;
  MeterProvider = Text;
  LoggerProvider = Text;
  EnvFilter = Text;
  Layer = Text;
  resource = λ name. name;
  span_exporter = λ url. ok url;
  metric_exporter = λ url. ok url;
  log_exporter = unreachable;
  tracer_provider = λ exporter resource. exporter;
  meter_provider = λ exporter resource. exporter;
  logger_provider = λ exporter resource. exporter;
  filter_from_env = λ p. err (lit "not set");
  default_filter = λ level. level;
  fmt_layer = λ layer. lit "fmt";
  tracer_layer = λ name provider. provider;
  log_layer = λ provider. provider;
  set_meter_provider = call (lit "meter ");
  try_init = λ filter layers p. install p;
  flush_tracer = call (lit "flush traces ");
  flush_meter = call (lit "flush metrics ");
  flush_logger = call (lit "flush logs ");
  shutdown_tracer = call (lit "shut down traces ");
  shutdown_meter = call (lit "shut down metrics ");
  shutdown_logger = call (lit "shut down logs ");
  has_subscriber = λ p. p.subscribed;
  try_init-succeeds = λ f ls p. works p;
  try_init-fails = λ f ls p. refuses p;
  has_subscriber-try_init = λ f ls p. installed p;
  has_subscriber-set_meter_provider = λ m p. refl;
}
