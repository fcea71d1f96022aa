-- ===== src/Tests/Output.antt =====
-- Runs of the output and the lookup of items of src/bin/animus.rs.
use animus_rs.Prelude.{
  ◌≡◌, refl, none, [], ◌∷◌, ◌++◌, Text, lit, newline, split, decimal, pos, ok, arith,
}
use animus_rs.Json.{JsonLib}
use animus_rs.Json.Model
use animus_rs.Work.State.{State}
use animus_rs.Work.Item.{Uuid, WorkItem}
use animus_rs.Llm.Types.{Usage}
use animus_rs.Cli.Output.{yaml_output, format_output, json_output}
use animus_rs.Cli.Output.Forms.{yaml_lines, yaml_output-lines}
use animus_rs.Cli.Output.JsonForm.{Reads, format_output-Reads}
use animus_rs.Cli.Item.{find_by_prefix}
use animus_rs.Cli.Item.Prefix.{Finds, find_by_prefix-Finds}
use animus_rs.Tests.Cli.{json}

abbrev usage : Usage
usage = record { input_tokens = 3; output_tokens = 12 }

abbrev two_lines : Text
two_lines = lit "a" ++ newline ∷ lit "usage:"

yaml_output-lines_example :
    split newline (yaml_output two_lines (lit "hm") usage) ≡ yaml_lines two_lines (lit "hm") usage
yaml_output-lines_example = yaml_output-lines two_lines (lit "hm") usage

abbrev answer : Model.Value
answer = json_output json (lit "a") (lit "hm") usage

-- A parser that reads this one answer.
abbrev reading : JsonLib
reading = Model.model (λ s. ok answer) (λ v. lit "{}")

format_output-Reads_example :
    (printed : Text) × (v : Model.Value) × (format_output reading
        (lit "a")
        (lit "hm")
        usage
        (lit "json")
      ≡ ok printed)
    × (reading.from_str printed ≡ ok v)
    × Reads reading (lit "a") (lit "hm") usage v
unfolding json_output
format_output-Reads_example =
    format_output-Reads reading (lit "a") (lit "hm") usage (omega arith) (omega arith) refl

-- Two items, whose ids are shown as 10000000 and 20000000.
abbrev item : Uuid → WorkItem Model.Value
item id = record {
  id = record { uuid = id };
  faculty = lit "f";
  skill = none;
  dedup_key = none;
  provenance = record { source = lit "cli"; trigger = none };
  params = Model.null;
  priority = pos 0;
  state = State.queued;
  merged_into = none;
  parent_id = none;
  attempts = 0;
  max_attempts = none;
  created_at = 1;
  updated_at = 1;
  resolved_at = none;
  outcome = none;
}

find_by_prefix-Finds_example :
    Finds decimal
      (lit "2")
      (item 10000000 ∷ item 20000000 ∷ [])
      (find_by_prefix decimal (lit "2") (item 10000000 ∷ item 20000000 ∷ []))
find_by_prefix-Finds_example =
    find_by_prefix-Finds decimal (lit "2") (item 10000000 ∷ item 20000000 ∷ [])
