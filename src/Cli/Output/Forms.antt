-- ===== src/Cli/Output/Forms.antt =====
-- src/bin/animus.rs: the forms in which a response is written.
use animus_rs.Prelude.{
  ℕ, ◌≡◌, refl, ap, ◌∙◌, true, List, [], ◌∷◌, ◌++◌, append_assoc, map, Text, lit, newline, text_eq,
  is_empty, split, lines, lines-AllAvoid, decimal, decimal-Avoids, Avoids, Avoids-append, avoids,
  avoids-Avoids, AllAvoid-map, split-append, split-Avoids, split-join-append, ok, Bool-cases, inl,
  inr, if◌then◌else◌,
}
use animus_rs.Json.{JsonLib}
use animus_rs.Llm.Types.{Usage}
use animus_rs.Cli.Output.{indented, yaml_block, yaml_output, format_output}

-- The text form is the text.
pub format_output_text :
    (j : JsonLib) (text thinking : Text) (usage : Usage) (format : Text)
    → text_eq format (lit "text") ≡ true
    → format_output j text thinking usage format ≡ ok text
unfolding format_output
format_output_text j text thinking usage format h = rw h refl

-- A text as a YAML block: a line with the name, and each line of the text behind two spaces. A text
-- without lines has one empty line.
abbrev pub indented_lines : List Text → List Text
indented_lines [] = [] ∷ []
indented_lines (line ∷ rest) = map (◌++◌ (lit "  ")) (line ∷ rest)

abbrev pub block_lines : Text → Text → List Text
block_lines name s = (name ++ lit ": |") ∷ indented_lines (lines s)

abbrev pub yaml_lines : Text → Text → Usage → List Text
yaml_lines text thinking usage =
    (if is_empty thinking then [] else block_lines (lit "thinking") thinking)
    ++ (block_lines (lit "text") text
        ++ (lit "usage:"
            ∷ (lit "  input: " ++ decimal usage.input_tokens)
            ∷ (lit "  output: " ++ decimal usage.output_tokens)
            ∷ []))

split-indented :
    (s t : Text)
    → split newline (indented s ++ newline ∷ t) ≡ indented_lines (lines s) ++ split newline t
unfolding indented
split-indented s t =
    split-join-append newline (map (◌++◌ (lit "  ")) (lines s)) t (
      AllAvoid-map newline (lit "  ") (lines s) (avoids-Avoids newline (lit "  ") refl)
        (lines-AllAvoid s))
    ∙ ap (λ x. x ++ split newline t) (shape (lines s))
  where
    shape :
        (ls : List Text)
        → (if is_empty (map (◌++◌ (lit "  ")) ls) then [] ∷ [] else map (◌++◌ (lit "  ")) ls)
          ≡ indented_lines ls
    shape [] = refl
    shape (l ∷ ls) = refl

split-yaml_block :
    (name s t : Text)
    → Avoids newline (name ++ lit ": |")
    → split newline (yaml_block name s ++ t) ≡ block_lines name s ++ split newline t
split-yaml_block name s t h =
    let shape : yaml_block name s ++ t
        ≡ (name ++ lit ": |") ++ newline ∷ (indented s ++ newline ∷ t) =
      simp append_assoc in
    ap (split newline) shape
    ∙ split-append newline (name ++ lit ": |") _ h
    ∙ ap (◌∷◌ (name ++ lit ": |")) (split-indented s t)

labelled :
    (label : Text) → avoids newline label ≡ true → (n : ℕ) → Avoids newline (label ++ decimal n)
labelled label h n =
    Avoids-append newline label (decimal n) (avoids-Avoids newline label h) (decimal-Avoids n)

usage_lines :
    (usage : Usage)
    → split newline (
        lit "usage:"
        ++ newline
          ∷ (lit "  input: "
              ++ (decimal usage.input_tokens
                  ++ newline ∷ (lit "  output: " ++ decimal usage.output_tokens))))
      ≡ lit "usage:"
        ∷ (lit "  input: " ++ decimal usage.input_tokens)
        ∷ (lit "  output: " ++ decimal usage.output_tokens)
        ∷ []
usage_lines usage =
    split-append newline (lit "usage:") _ (avoids-Avoids newline (lit "usage:") refl)
    ∙ ap (◌∷◌ (lit "usage:")) (
        split-append newline (lit "  input: " ++ decimal usage.input_tokens) _
          (labelled (lit "  input: ") refl usage.input_tokens)
        ∙ ap (◌∷◌ (lit "  input: " ++ decimal usage.input_tokens)) (
            split-Avoids newline (lit "  output: " ++ decimal usage.output_tokens)
              (labelled (lit "  output: ") refl usage.output_tokens)))

-- The lines of the YAML form are those of the description: each line of the text and of the thinking
-- stays in its block, behind two spaces, and the counts stand behind the blocks.
pub yaml_output-lines :
    (text thinking : Text) (usage : Usage)
    → split newline (yaml_output text thinking usage) ≡ yaml_lines text thinking usage
unfolding yaml_output
yaml_output-lines text thinking usage =
    let rest = split-yaml_block (lit "text") text _ (avoids-Avoids newline (lit "text: |") refl) in
    elim (Bool-cases (is_empty thinking)) [
      | inl e ↦ rw e (rest ∙ ap (◌++◌ (block_lines (lit "text") text)) (usage_lines usage))
      | inr e ↦ rw e (
          split-yaml_block (lit "thinking") thinking _
            (avoids-Avoids newline (lit "thinking: |") refl)
          ∙ ap (◌++◌ (block_lines (lit "thinking") thinking))
              (rest ∙ ap (◌++◌ (block_lines (lit "text") text)) (usage_lines usage)))
    ]
