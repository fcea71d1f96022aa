-- ===== src/Cli/Output/JsonForm.antt =====
-- src/bin/animus.rs: what a program reads out of the JSON form of a response.
use animus_rs.Prelude.{
  ◌^◌, ◌<◌, ◌≡◌, refl, ◌∙◌, none, some, Text, lit, text_eq, is_empty, ok, arith, Bool-cases, inl,
  inr, if◌then◌else◌,
}
use animus_rs.Json.{JsonLib, lookup}
use animus_rs.Llm.Types.{Usage}
use animus_rs.Cli.Output.{json_output, format_output}

module _ (j : JsonLib) where
  open j use {
    Value, number, string, object, index, get, set, as_str, as_u64, from_str, to_string_pretty,
    index-object, get-object, set-object, as_str-string, as_u64-number,
  }

  -- The fields of a value that stands for a response.
  pub record Reads (text thinking : Text) (usage : Usage) (v : Value) : Type 0 where
    pub answer : as_str (index v (lit "text")) ≡ some text
    pub input : as_u64 (index (index v (lit "usage")) (lit "input")) ≡ some usage.input_tokens
    pub output : as_u64 (index (index v (lit "usage")) (lit "output")) ≡ some usage.output_tokens
    pub thoughts :
        get v (lit "thinking") ≡ (if is_empty thinking then none else some (string thinking))

  json_output-Reads :
      (text thinking : Text) (usage : Usage)
      → usage.input_tokens < 2 ^ 32
      → usage.output_tokens < 2 ^ 32
      → Reads text thinking usage (json_output j text thinking usage)
  unfolding json_output lookup text_eq
  json_output-Reads text thinking usage hi ho = elim (Bool-cases (is_empty thinking)) [
    | inl e ↦ rw e (record {
      answer = rw index-object (as_str-string text);
      input = simp index-object (as_u64-number usage.input_tokens (omega arith));
      output = simp index-object (as_u64-number usage.output_tokens (omega arith));
      thoughts = get-object _ _ ∙ rw e refl;
    })
    | inr e ↦ rw e (
        rw set-object (record {
          answer = rw index-object (as_str-string text);
          input = simp index-object (as_u64-number usage.input_tokens (omega arith));
          output = simp index-object (as_u64-number usage.output_tokens (omega arith));
          thoughts = get-object _ _ ∙ rw e refl;
        }))
  ]

  -- If the value of the JSON form is printed as text that parses to it, what a program that parses the
  -- output reads is the text, the counts, if they are 32-bit numbers, and the thinking, if there is any.
  pub format_output-Reads :
      (text thinking : Text) (usage : Usage)
      → usage.input_tokens < 2 ^ 32
      → usage.output_tokens < 2 ^ 32
      → from_str (to_string_pretty (json_output j text thinking usage))
        ≡ ok (json_output j text thinking usage)
      → (printed : Text) × (v : Value) × (format_output j text thinking usage (lit "json")
          ≡ ok printed)
        × (from_str printed ≡ ok v)
        × Reads text thinking usage v
  unfolding format_output text_eq
  format_output-Reads text thinking usage hi ho parses =
      (_, _, refl, parses, json_output-Reads text thinking usage hi ho)
