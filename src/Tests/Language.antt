-- ===== src/Tests/Language.antt =====
-- Runs of the client of src/llm on small streams and replies.
use animus_rs.Prelude.{
  ℕ, zero, suc, ◌+◌, ◌≤◌, ◌≡◌, refl, ap, sym, ◌∙◌, false, none, some, List, [], ◌∷◌, ◌++◌, Text,
  lit, newline, text_eq, concat, map, append-nil, length, Result, ok, err, arith, if◌then◌else◌,
  join,
}
use animus_rs.Json.{JsonLib}
use animus_rs.Json.Model
use animus_rs.Llm.Types.{
  StopReason, Message, UserContent, ContentBlock, CompletionRequest, CompletionResponse,
  StreamEvent,
}
use animus_rs.Llm.Sse
use animus_rs.Llm.Sse.{SseEvent, SseParser, feed, feed_all}
use animus_rs.Llm.Sse.Chunks.{feed_all-concat, new-IsDrained}
use animus_rs.Llm.Sse.Encode.{encode_all}
use animus_rs.Llm.Sse.RoundTrip.{feed_all-encode_all}
use animus_rs.Llm.Http.{HttpResponse}
use animus_rs.Llm.Stream.{Stream, initial, stream_response}
use animus_rs.Llm.Stream.Complete.{done_event, final, read_chunks-final}
use animus_rs.Llm.Stream.Conserve.{Conserves, read_chunks-Conserves, texts_sent, text_of}
use animus_rs.Llm.Stream.Contents.{contents}
use animus_rs.Llm.Stream.Reply.{Carries, stream_response-texts_sent}
use animus_rs.Llm.Request.{wire_messages, assistant_message, text_message}
use animus_rs.Llm.Request.Wire.{wire_messages-concat, message_wire, block_texts, block_calls}
use animus_rs.Llm.Response.{parse_response_body}
use animus_rs.Llm.Response.Reasons.{Means}
use animus_rs.Llm.Response.RoundTrip.{
  block_of, response_value, parse_response_body-assistant_message,
}
use animus_rs.Llm.Retry.{OpenAiClient, Call, complete}
use animus_rs.Llm.Retry.Bounds.{complete_total, EndsBy}

-- A stream in two pieces, cut between the two line breaks that end its first event.
abbrev pieces : List Text
pieces = (lit "data: a" ++ newline ∷ []) ∷ (newline ∷ lit "data: b" ++ newline ∷ newline ∷ []) ∷ []

feed_all-concat_example : feed_all Sse.new pieces ≡ feed Sse.new (concat pieces)
feed_all-concat_example = feed_all-concat pieces Sse.new new-IsDrained

abbrev two_lines : SseEvent
two_lines = record { event_type = some (lit "ping"); data_text = lit "a" ++ newline ∷ lit "b" }

feed_all-encode_all_example :
    feed_all Sse.new (encode_all (two_lines ∷ []) ∷ []) ≡ (two_lines ∷ [], Sse.new)
feed_all-encode_all_example =
    feed_all-encode_all (two_lines ∷ []) (encode_all (two_lines ∷ []) ∷ [])
      ((refl, (refl, (refl, (refl, tt)))), tt) (append-nil (encode_all (two_lines ∷ [])))

-- One chunk with a fragment of text.
abbrev delta : Text → Model.Value
delta s = Model.object (
    Model.entries_of (
      (
        lit "choices",
        Model.array (
            Model.values_of (
              Model.object (
                Model.entries_of (
                  (
                    lit "delta",
                    Model.object (Model.entries_of ((lit "content", Model.string s) ∷ [])),
                  )
                  ∷ []))
              ∷ [])),
      )
      ∷ []))

abbrev parse_delta : Text → Result Text Model.Value
parse_delta s =
    if text_eq s (lit "hi")
    then ok (delta (lit "Hello"))
    else if text_eq s (lit "{}")
    then ok Model.null
    else err (lit "expected value")

abbrev json : JsonLib
json = Model.model parse_delta (λ v. lit "{}")

abbrev hello : SseEvent
hello = record { event_type = none; data_text = lit "hi" }

abbrev reply : HttpResponse
reply = record {
  status = 200;
  retry_after = none;
  body = ok [];
  chunks = map ok (encode_all (hello ∷ done_event ∷ []) ∷ []);
}

abbrev carried : List Text
carried = encode_all (hello ∷ done_event ∷ []) ∷ []

carried-events : (feed Sse.new (concat (map (λ s. s) carried))).0 ≡ hello ∷ done_event ∷ []
carried-events =
    ap (λ (r : List SseEvent × SseParser). r.0)
      (sym (feed_all-concat carried Sse.new new-IsDrained)
        ∙ feed_all-encode_all (hello ∷ done_event ∷ []) carried (tt, (tt, tt))
            (append-nil (encode_all (hello ∷ done_event ∷ []))))

reply-Carries : Carries json (λ s. s) reply (hello ∷ [])
reply-Carries = record {
  success = refl;
  chunks = carried;
  arrived = refl;
  decoded = carried-events;
}

stream_response-texts_sent_example :
    (response : CompletionResponse Model.Value) × (sent : List StreamEvent) × (stream_response json
        (λ s. s)
        reply
      ≡ (ok response, sent))
    × (text_of response.content ≡ texts_sent sent)
    × (texts_sent sent ≡ contents json (hello ∷ []))
unfolding text_eq
stream_response-texts_sent_example =
    stream_response-texts_sent json (λ s. s) reply (hello ∷ []) reply-Carries (refl, tt)

initial-Conserves : Conserves {V = Model.Value} initial
initial-Conserves = record { balance = refl }

abbrev received : Stream Model.Value
received = final json (λ s. s) (hello ∷ [])

read_chunks-Conserves_example : Conserves received
unfolding text_eq
read_chunks-Conserves_example =
    read_chunks-Conserves json (λ s. s) reply.chunks Sse.new initial received initial-Conserves
      (ap (λ r. r.0)
        (read_chunks-final json (λ s. s) (hello ∷ []) carried (refl, tt) carried-events))

abbrev answer : List (ContentBlock Model.Value)
answer =
    ContentBlock.thinking (lit "hm")
    ∷ ContentBlock.text (lit "a")
    ∷ ContentBlock.text (lit "b")
    ∷ ContentBlock.tool_use (lit "7") (lit "ls") Model.null
    ∷ []

parse_response_body-assistant_message_example :
    (meaning : StopReason) × Means (lit "tool_calls") meaning
    × (parse_response_body json
          (response_value json (assistant_message json answer) (lit "tool_calls") 3 5)
        ≡ ok (record {
          content = block_of json (join (newline ∷ []) (block_texts answer)) ++ block_calls answer;
          stop_reason = meaning;
          usage = record { input_tokens = 3; output_tokens = 5 };
        }))
unfolding text_eq
parse_response_body-assistant_message_example =
    parse_response_body-assistant_message json answer (lit "tool_calls") 3 5 (refl, tt)
      (omega arith) (omega arith)

abbrev question : CompletionRequest Model.Value ℕ
question = record {
  model = lit "m";
  system = lit "be brief";
  messages =
      Message.user
        (UserContent.text (lit "x") ∷ UserContent.tool_result (lit "7") (lit "y") false ∷ [])
      ∷ Message.assistant answer
      ∷ [];
  tools = [];
  max_tokens = 10;
  temperature = none;
}

wire_messages-concat_example :
    wire_messages json question
    ≡ text_message json (lit "system") (lit "be brief")
      ∷ concat (map (message_wire json) question.messages)
wire_messages-concat_example = wire_messages-concat json question

abbrev client : ℕ → OpenAiClient
client n = record { api_key = []; base_url = lit "http://h"; max_retries = n }

abbrev busy : HttpResponse
busy = record { status = 429; retry_after = some (lit "3"); body = ok []; chunks = [] }

abbrev broken : HttpResponse
broken = record { status = 500; retry_after = none; body = ok (lit "oops"); chunks = [] }

-- The first request is limited; the others meet an error of the server.
abbrev post : ℕ → Text → Text → Model.Value → Result Text HttpResponse
post zero url key body = ok busy
post (suc n) url key body = ok broken

abbrev always_busy : ℕ → Text → Text → Model.Value → Result Text HttpResponse
always_busy n url key body = ok busy

complete_total_example :
    (call : Call (CompletionResponse Model.Value)) × (complete json (client 2) post question
      ≡ some call)
    × (call.requests ≤ 2 + 1)
    × (length call.waits + 1 ≡ call.requests)
    × EndsBy json (client 2) post question call
complete_total_example = complete_total json (client 2) post question
