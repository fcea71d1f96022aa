-- ===== src/Cli/Prompt.antt =====
-- src/bin/animus.rs: the arguments `--var`, the system prompt and the user prompt.
use animus_rs.Prelude.{
  suc, Option, none, some, List, [], ◌∷◌, ◌++◌, take, drop, map, Text, lit, newline, find, join,
  Result, ok, err, ◌>>=◌,
}
use animus_rs.Cli.Failure.{Failure}

-- The template library `tera`: the templates added to an instance, and the variables of a context.
pub record Tera : Type 1 where
  pub Templates : Type 0
  pub Context : Type 0
  pub empty_context : Context
  pub insert : Text → Text → Context → Context
  -- `add_raw_template` on a new instance
  pub add_raw_template : Text → Text → Result Text Templates
  pub render : Templates → Text → Context → Result Text Text

-- `{s}` is shown in quotes.
abbrev pub quoted : Text → Text
quoted s = lit "'" ++ (s ++ lit "'")

pub parse_key_val : Text → Result Text (Text × Text)
parse_key_val s = elim (find (lit "=") s) [
  | none ↦ err (lit "invalid KEY=VALUE: no '=' found in " ++ quoted s)
  | some pos ↦ ok (take pos s, drop (suc pos) s)
]

-- `—` in UTF-8.
abbrev pub em_dash : Text
em_dash = 226 ∷ 128 ∷ 148 ∷ []

abbrev pub file_part : Text × Text → Text
file_part (path, content) =
    lit "--- FILE: " ++ path ++ lit " ---" ++ newline ∷ content ++ newline ∷ lit "--- END FILE ---"

abbrev pub stdin_part : Text → Text
stdin_part input = lit "--- STDIN ---" ++ newline ∷ input ++ newline ∷ lit "--- END STDIN ---"

abbrev pub part_if {ℓ} : {A B : Type ℓ} → (A → B) → Option A → List B
part_if f none = []
part_if f (some a) = f a ∷ []

unfoldable pub build_system_prompt : Option Text → List (Text × Text) → Option Text → Text
build_system_prompt system context_files stdin =
    join (newline ∷ newline ∷ [])
      (part_if (λ text. text) system ++ (map file_part context_files ++ part_if stdin_part stdin))

-- An error of a library is passed on as it is.
abbrev pub passed_on : {A : Type 0} → Result Text A → Result Failure A
passed_on (ok a) = ok a
passed_on (err e) = err (Failure.library e)

module _ (tera : Tera) where
  open tera use {Context, empty_context, insert, add_raw_template, render}

  unfoldable pub context_of : List (Text × Text) → Context → Context
  context_of [] ctx = ctx
  context_of ((k, v) ∷ vars) ctx = context_of vars (insert k v ctx)

  unfoldable pub render_as : Text → Text → List (Text × Text) → Result Failure Text
  render_as name template vars = do
    templates ← passed_on (add_raw_template name template)
    passed_on (render templates name (context_of vars empty_context))

  -- The file is read by `read_to_string`; a path is the text that displays it.
  unfoldable pub render_prompt :
      (read_file : Text → Result Text Text)
      → Option Text
      → Option Text
      → List (Text × Text)
      → Result Failure Text
  render_prompt read_file (some text) none vars = render_as (lit "inline") text vars
  render_prompt read_file none (some path) vars = elim (read_file path) [
    | err e ↦ err (Failure.bail (lit "cannot read prompt file " ++ (path ++ (lit ": " ++ e))))
    | ok template ↦ render_as (lit "file") template vars
  ]
  render_prompt read_file none none vars =
      err (Failure.bail (lit "one of --prompt or --prompt-file is required"))
  render_prompt read_file (some text) (some path) vars =
      err (Failure.bail (lit "--prompt and --prompt-file are mutually exclusive"))
