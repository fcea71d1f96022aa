-- ===== src/Cli/Output.antt =====
-- src/bin/animus.rs: what is shown of a response.
pub mod Blocks
pub mod Forms
pub mod JsonForm
use animus_rs.Prelude.{
  ℕ, ◌==◌, Option, List, [], ◌∷◌, ◌++◌, map, concat, Text, lit, newline, text_eq, is_empty, lines,
  join, decimal, Result, ok, err, if◌then◌else◌,
}
use animus_rs.Json.{JsonLib}
use animus_rs.Llm.Types.{ContentBlock, Usage, CompletionResponse}
use animus_rs.Cli.Failure.{Failure}
use animus_rs.Cli.Prompt.{quoted, em_dash}

module _ {V : Type 0} where
  pub text_blocks : List (ContentBlock V) → List Text
  text_blocks [] = []
  text_blocks (ContentBlock.text text ∷ blocks) = text ∷ text_blocks blocks
  text_blocks (_ ∷ blocks) = text_blocks blocks

  pub thinking_blocks : List (ContentBlock V) → List Text
  thinking_blocks [] = []
  thinking_blocks (ContentBlock.thinking thinking ∷ blocks) = thinking ∷ thinking_blocks blocks
  thinking_blocks (_ ∷ blocks) = thinking_blocks blocks

  pub response_text : CompletionResponse V → Text
  response_text response = join [] (text_blocks response.content)

  pub response_thinking : CompletionResponse V → Text
  response_thinking response = join [] (thinking_blocks response.content)

-- The lines of a text, indented.
unfoldable pub indented : Text → Text
indented s = join (newline ∷ []) (map (λ line. lit "  " ++ line) (lines s))

abbrev pub yaml_block : Text → Text → Text
yaml_block name s = name ++ (lit ": |" ++ newline ∷ (indented s ++ newline ∷ []))

pub yaml_output : Text → Text → Usage → Text
yaml_output text thinking usage =
    (if is_empty thinking then [] else yaml_block (lit "thinking") thinking)
    ++ (yaml_block (lit "text") text
        ++ (lit "usage:"
            ++ newline
              ∷ (lit "  input: "
                  ++ (decimal usage.input_tokens
                      ++ newline ∷ (lit "  output: " ++ decimal usage.output_tokens)))))

module _ (j : JsonLib) where
  open j use {Value, number, string, object, set, to_string_pretty}

  unfoldable pub json_output : Text → Text → Usage → Value
  json_output text thinking usage =
      let obj = object (
        (lit "text", string text)
        ∷ (
          lit "usage",
          object (
              (lit "input", number usage.input_tokens)
              ∷ (lit "output", number usage.output_tokens)
              ∷ []),
        )
        ∷ []) in
      if is_empty thinking then obj else set obj (lit "thinking") (string thinking)

  pub format_output : Text → Text → Usage → Text → Result Failure Text
  format_output text thinking usage format =
      if text_eq format (lit "text")
      then ok text
      else if text_eq format (lit "json")
      then ok (to_string_pretty (json_output text thinking usage))
      else if text_eq format (lit "yaml")
      then ok (yaml_output text thinking usage)
      else err (
          Failure.bail (
            lit "unknown format "
            ++ (quoted format ++ (lit " " ++ (em_dash ++ lit " expected text, json, or yaml")))))
