-- ===== src/Telemetry/Instruments.antt =====
-- src/telemetry/metrics.rs: what the program counts and measures.
use animus_rs.Prelude.{Option, none, some, Text, lit}

pub data Kind : Type 0 where
  u64_counter f64_histogram : Kind

pub record Instrument : Type 0 where
  pub kind : Kind
  pub name : Text
  pub description : Text
  pub measure : Option Text

abbrev counter : Text → Text → Instrument
counter name description = record {
  kind = u64_counter;
  name = name;
  description = description;
  measure = none;
}

abbrev pub work_submitted : Instrument
work_submitted = counter (lit "animus.work.submitted") (lit "Number of work items submitted")

abbrev pub work_state_transitions : Instrument
work_state_transitions =
    counter (lit "animus.work.state_transitions") (lit "Number of work item state transitions")

abbrev pub queue_operations : Instrument
queue_operations = counter (lit "animus.queue.operations") (lit "Number of queue operations")

abbrev pub memory_operations : Instrument
memory_operations =
    counter (lit "animus.memory.operations") (lit "Number of memory store operations")

abbrev pub operation_duration_ms : Instrument
operation_duration_ms = record {
  kind = f64_histogram;
  name = lit "animus.operation.duration_ms";
  description = lit "Operation duration in milliseconds";
  measure = some (lit "ms");
}

abbrev pub llm_tokens : Instrument
llm_tokens = counter (lit "animus.llm.tokens") (lit "LLM token usage")

abbrev pub work_unroutable : Instrument
work_unroutable = counter (lit "animus.work.unroutable") (lit "Work items with no matching faculty")
