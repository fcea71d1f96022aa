-- ===== src/Cli/Show.antt =====
-- src/bin/animus.rs: `cmd_llm_complete` behind the preparation, with all that it writes.
pub mod Collected
pub mod Agree
pub mod Streamed
use animus_rs.Prelude.{
  Bool, true, false, not, ◌&&◌, List, [], ◌∷◌, ◌++◌, Text, lit, newline, text_eq, is_empty, Result,
  ok, err, if◌then◌else◌,
}
use animus_rs.Json.{JsonLib}
use animus_rs.Llm.Types.{CompletionRequest, CompletionResponse, StreamEvent, LlmError}
use animus_rs.Llm.Retry.{OpenAiClient}
use animus_rs.Llm.Client.{LlmClient}
use animus_rs.Cli.Failure.{Failure}
use animus_rs.Cli.Prompt.{Tera}
use animus_rs.Cli.Output.{response_text, response_thinking, format_output}
use animus_rs.Cli.Llm.{CompleteArgs, Shell, prepare}

-- What is written, to standard output or to standard error.
pub data Output : Type 0 where
  out : Text → Output
  error : Text → Output

abbrev pub line : Text → Text
line s = s ++ newline ∷ []

-- The local variables of the loop over the events of a stream, and what was written so far.
pub record Shown : Type 0 where
  pub full_text : Text
  pub full_thinking : Text
  pub in_thinking : Bool
  pub written : List Output

abbrev pub write : Output → Shown → Shown
write o s = record s { written = s.written ++ o ∷ [] }

-- The codes for dim text and for its end.
abbrev pub dim : Text
dim = 27 ∷ lit "[2m"

abbrev pub reset : Text
reset = 27 ∷ lit "[0m"

-- `as_text` is whether the format is text.
pub show_thinking : Bool → Text → Shown → Shown
show_thinking as_text text s =
    let s1 = record s { full_thinking = s.full_thinking ++ text } in
    let s2 = if s.in_thinking then s1 else record (write (error dim) s1) { in_thinking = true } in
    if as_text then write (error text) s2 else s1

pub show_text : Bool → Text → Shown → Shown
show_text as_text text s =
    let s1 = record s { full_text = s.full_text ++ text } in
    let s2 =
      if s.in_thinking
      then record (write (error (line reset)) s1) { in_thinking = false }
      else s1 in
    if as_text then write (out text) s2 else s1

-- The loop, which `done` or the end of the channel leaves.
pub show_events : Bool → List StreamEvent → Shown → Shown
show_events as_text [] s = s
show_events as_text (StreamEvent.thinking_delta text ∷ events) s =
    show_events as_text events (show_thinking as_text text s)
show_events as_text (StreamEvent.text_delta text ∷ events) s =
    show_events as_text events (show_text as_text text s)
show_events as_text (StreamEvent.done ∷ events) s = s
show_events as_text (StreamEvent.tool_input_delta id text ∷ events) s = show_events as_text events s
show_events as_text (StreamEvent.tool_start id name ∷ events) s = show_events as_text events s

abbrev pub nothing_shown : Shown
nothing_shown = record { full_text = []; full_thinking = []; in_thinking = false; written = [] }

-- The end of a dim text that no other text follows.
pub undim : Shown → Shown
undim s = if s.in_thinking then write (error reset) s else s

-- A line on standard output, unless there is an error.
pub and_line : List Output → Result Failure Text → Result Failure (Unit {0}) × List Output
and_line written (ok output) = (ok tt, written ++ out (line output) ∷ [])
and_line written (err e) = (err e, written)

module _ (j : JsonLib) where
  open j use {Value, Float}

  -- What follows the loop, on what the task that reads the stream returned.
  pub after_stream :
      Text
      → Shown
      → Result LlmError (CompletionResponse Value)
      → Result Failure (Unit {0}) × List Output
  after_stream format s (err e) = (err (Failure.llm e), s.written)
  after_stream format s (ok response) =
      if text_eq format (lit "text")
      then (ok tt, s.written ++ out (newline ∷ []) ∷ [])
      else and_line s.written (format_output j s.full_text s.full_thinking response.usage format)

  pub streaming :
      Text
      → Result LlmError (CompletionResponse Value) × List StreamEvent
      → Result Failure (Unit {0}) × List Output
  streaming format (response, events) =
      after_stream format (undim (show_events (text_eq format (lit "text")) events nothing_shown))
        response

  pub answering :
      Text → Result LlmError (CompletionResponse Value) → Result Failure (Unit {0}) × List Output
  answering format (err e) = (err (Failure.llm e), [])
  answering format (ok response) =
      let thinking = response_thinking response in
      let written =
        if not (is_empty thinking) && text_eq format (lit "text")
        then error (line (dim ++ (thinking ++ reset))) ∷ []
        else [] in
      and_line written (format_output j (response_text response) thinking response.usage format)

  module _ (tera : Tera) (connect : OpenAiClient → LlmClient Value Float) where
    pub answer :
        CompleteArgs
        → Result Failure (OpenAiClient × CompletionRequest Value Float)
        → Result Failure (Unit {0}) × List Output
    answer args (err e) = (err e, [])
    answer args (ok (client, request)) =
        if args.streamed
        then streaming args.format ((connect client).complete_stream request)
        else answering args.format ((connect client).complete request)

    pub cmd_llm_complete : Shell → CompleteArgs → Result Failure (Unit {0}) × List Output
    cmd_llm_complete shell args = answer args (prepare j tera shell args)
