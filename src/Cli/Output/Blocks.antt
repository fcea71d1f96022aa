-- ===== src/Cli/Output/Blocks.antt =====
-- src/bin/animus.rs: the texts of a response against their description in the client.
use animus_rs.Prelude.{◌≡◌, refl, sym, ap, ◌∙◌, List, [], ◌∷◌, ◌++◌, append-nil, concat, Text, join}
use animus_rs.Llm.Types.{ContentBlock, CompletionResponse}
use animus_rs.Llm.Request.Wire.{block_texts}
use animus_rs.Llm.Stream.Conserve.{text_of}
use animus_rs.Llm.Stream.Thinking.{block_thoughts, thoughts_of}
use animus_rs.Cli.Output.{text_blocks, thinking_blocks, response_text, response_thinking}

join-nil : (ts : List Text) → join [] ts ≡ concat ts
unfolding join
join-nil [] = refl
join-nil (s ∷ []) = sym (append-nil s)
join-nil (s ∷ t ∷ ts) = ap (◌++◌ s) (join-nil (t ∷ ts))

module _ {V : Type 0} where
  text_blocks-block_texts :
      (blocks : List (ContentBlock V)) → text_blocks blocks ≡ block_texts blocks
  unfolding text_blocks
  text_blocks-block_texts [] = refl
  text_blocks-block_texts (ContentBlock.text s ∷ blocks) =
      ap (◌∷◌ s) (text_blocks-block_texts blocks)
  text_blocks-block_texts (ContentBlock.thinking s ∷ blocks) = text_blocks-block_texts blocks
  text_blocks-block_texts (ContentBlock.tool_use id name v ∷ blocks) =
      text_blocks-block_texts blocks

  thinking_blocks-block_thoughts :
      (blocks : List (ContentBlock V)) → thinking_blocks blocks ≡ block_thoughts blocks
  unfolding thinking_blocks
  thinking_blocks-block_thoughts [] = refl
  thinking_blocks-block_thoughts (ContentBlock.text s ∷ blocks) =
      thinking_blocks-block_thoughts blocks
  thinking_blocks-block_thoughts (ContentBlock.thinking s ∷ blocks) =
      ap (◌∷◌ s) (thinking_blocks-block_thoughts blocks)
  thinking_blocks-block_thoughts (ContentBlock.tool_use id name v ∷ blocks) =
      thinking_blocks-block_thoughts blocks

  pub response_text-text_of : (r : CompletionResponse V) → response_text r ≡ text_of r.content
  unfolding response_text
  response_text-text_of r = join-nil _ ∙ ap concat (text_blocks-block_texts r.content)

  pub response_thinking-thoughts_of :
      (r : CompletionResponse V) → response_thinking r ≡ thoughts_of r.content
  unfolding response_thinking
  response_thinking-thoughts_of r =
      join-nil _ ∙ ap concat (thinking_blocks-block_thoughts r.content)
