-- ===== src/Cli/Show/Agree.antt =====
-- src/bin/animus.rs: what the command writes for a streamed answer and for a plain one.
use animus_rs.Prelude.{
  ◌≡◌, refl, sym, ap, ◌∙◌, Bool, true, false, List, [], ◌∷◌, ◌++◌, append-nil, Text, lit, newline,
  text_eq, is_empty, Result, ok, err, Bool-cases, inl, inr,
}
use animus_rs.Json.{JsonLib}
use animus_rs.Llm.Types.{CompletionResponse, StreamEvent}
use animus_rs.Llm.Stream.Conserve.{texts_sent, text_of}
use animus_rs.Llm.Stream.Thinking.{Unended, thoughts_sent, thoughts_of}
use animus_rs.Cli.Output.Blocks.{response_text-text_of, response_thinking-thoughts_of}
use animus_rs.Cli.Failure.{Failure}
use animus_rs.Cli.Output.{response_text, response_thinking}
use animus_rs.Cli.Output.Forms.{format_output_text}
use animus_rs.Cli.Show.{Output, out, line, Shown, and_line, after_stream, streaming, answering}
use animus_rs.Cli.Show.Collected.{
  collected, collected-Collected, stdout_of, stdout_of-append, text_if,
}

-- The same result, and the same on standard output.
pub record Same (a b : Result Failure (Unit {0}) × List Output) : Type 0 where
  pub result : a.0 ≡ b.0
  pub stdout : stdout_of a.1 ≡ stdout_of b.1

module _ (j : JsonLib) where
  open j use {Value}

  stdout_of-and_line :
      (written : List Output) (r : Result Failure Text)
      → stdout_of (and_line written r).1 ≡ stdout_of written ++ stdout_of (and_line [] r).1
  unfolding and_line
  stdout_of-and_line written (ok output) = stdout_of-append written _
  stdout_of-and_line written (err e) = sym (append-nil _)

  and_line_result :
      (written written' : List Output) (r : Result Failure Text)
      → (and_line written r).0 ≡ (and_line written' r).0
  unfolding and_line
  and_line_result written written' (ok output) = refl
  and_line_result written written' (err e) = refl

  -- With the text and the thinking of the response collected, the end of a stream writes what the
  -- plain answer does.
  after_stream-Same :
      (format : Text) (response : CompletionResponse Value) (s : Shown) (as_text : Bool)
      → text_eq format (lit "text") ≡ as_text
      → s.full_text ≡ response_text response
      → s.full_thinking ≡ response_thinking response
      → stdout_of s.written ≡ text_if as_text (response_text response)
      → Same (after_stream j format s (ok response)) (answering j format (ok response))
  unfolding answering after_stream and_line
  after_stream-Same format response s true e text thinking printed =
      rw (format_output_text j s.full_text s.full_thinking response.usage format e) (
        rw
          (format_output_text j (response_text response) (response_thinking response) response.usage
            format e)
          (rw e (elim (Bool-cases (is_empty (response_thinking response))) [
            | inl h ↦ rw h (record { result = refl; stdout = printed_line })
            | inr h ↦ rw h (record { result = refl; stdout = printed_line })
          ])))
    where
      printed_line :
          stdout_of (s.written ++ out (newline ∷ []) ∷ []) ≡ line (response_text response) ++ []
      printed_line = stdout_of-append s.written _ ∙ rw printed (sym (append-nil _))
  after_stream-Same format response s false e text thinking printed = rw e (
      rw text (
        rw thinking (elim (Bool-cases (is_empty (response_thinking response))) [
          | inl h ↦ rw h (record {
            result = and_line_result s.written [] _;
            stdout = stdout_of-and_line s.written _ ∙ rw printed refl;
          })
          | inr h ↦ rw h (record {
            result = and_line_result s.written [] _;
            stdout = stdout_of-and_line s.written _ ∙ rw printed refl;
          })
        ])))

  -- Deltas that carry the text and the thinking of a response, and then the end: the streamed and
  -- the plain answer have the same result and write the same to standard output, in every format.
  pub streaming-Same :
      (format : Text) (response : CompletionResponse Value) (deltas : List StreamEvent)
      → Unended deltas
      → texts_sent deltas ≡ text_of response.content
      → thoughts_sent deltas ≡ thoughts_of response.content
      → Same
          (streaming j format (ok response, deltas ++ StreamEvent.done ∷ []))
          (answering j format (ok response))
  unfolding streaming
  streaming-Same format response deltas h texts thoughts =
      let as_text = text_eq format (lit "text") in
      let c = collected-Collected as_text deltas h in
      after_stream-Same format response (collected as_text deltas) as_text refl
        (c.full_text ∙ texts ∙ sym (response_text-text_of response))
        (c.full_thinking ∙ thoughts ∙ sym (response_thinking-thoughts_of response))
        (c.stdout ∙ ap (text_if as_text) (texts ∙ sym (response_text-text_of response)))
