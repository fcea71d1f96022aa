-- ===== src/Tests/Cli.antt =====
-- Runs of the commands of src/bin/animus.rs.
use animus_rs.Prelude.{
  ap, sym, ◌∙◌, ℕ, ◌≡◌, refl, true, false, none, some, List, [], ◌∷◌, ◌++◌, Text, lit, newline,
  text_eq, join, append-nil, map, Result, ok, err, if◌then◌else◌, parse_uint,
}
use animus_rs.Json.{JsonLib}
use animus_rs.Json.Model
use animus_rs.Llm.Types.{CompletionRequest, CompletionResponse, Message, UserContent}
use animus_rs.Llm.Http.{HttpResponse}
use animus_rs.Llm.Sse
use animus_rs.Llm.Sse.{SseEvent, SseParser}
use animus_rs.Llm.Sse.Chunks.{feed_all-concat, new-IsDrained}
use animus_rs.Llm.Sse.RoundTrip.{feed_all-encode_all}
use animus_rs.Llm.Sse.Encode.{encode_all}
use animus_rs.Llm.Stream.{stream_response}
use animus_rs.Llm.Stream.Reply.{Carries}
use animus_rs.Llm.Stream.Complete.{done_event}
use animus_rs.Llm.Retry.{OpenAiClient}
use animus_rs.Llm.Client.{create_client, openai_client, is_supported, default_base_url, new_client}
use animus_rs.Config.{u32_var}
use animus_rs.Cli.Prompt.{Tera, render_prompt, render_as, context_of, build_system_prompt}
use animus_rs.Cli.Llm.{
  CompleteArgs, Shell, llm_config, prepare, client_of, read_context, read_stdin,
}
use animus_rs.Cli.Show.{answering, cmd_llm_complete}
use animus_rs.Cli.Show.Agree.{Same}
use animus_rs.Cli.Show.Streamed.{cmd_llm_complete-Same}
use animus_rs.Tests.Config.{env}

abbrev delta : Text → Model.Value
delta s = Model.object (
    Model.entries_of (
      (
        lit "choices",
        Model.array (
            Model.values_of (
              Model.object (
                Model.entries_of (
                  (
                    lit "delta",
                    Model.object (Model.entries_of ((lit "content", Model.string s) ∷ [])),
                  )
                  ∷ []))
              ∷ [])),
      )
      ∷ []))

abbrev parse_delta : Text → Result Text Model.Value
parse_delta s =
    if text_eq s (lit "hi") then ok (delta (lit "Hello")) else err (lit "expected value")

abbrev pub json : JsonLib
json = Model.model parse_delta (λ v. lit "{}")

abbrev hello : SseEvent
hello = record { event_type = none; data_text = lit "hi" }

abbrev reply : HttpResponse
reply = record {
  status = 200;
  retry_after = none;
  body = ok [];
  chunks = map ok (encode_all (hello ∷ done_event ∷ []) ∷ []);
}

abbrev pub post : ℕ → Text → Text → Model.Value → Result Text HttpResponse
post n url key body = ok reply

-- A template is its text, and rendering does not change it.
abbrev pub plain : Tera
plain = record {
  Templates = Text;
  Context = List (Text × Text);
  empty_context = [];
  insert = λ k v ctx. (k, v) ∷ ctx;
  add_raw_template = λ name text. ok text;
  render = λ templates name ctx. ok templates;
}

abbrev pub shell : Shell
shell = record {
  env = env;
  read_file = λ path. err (lit "no such file");
  is_terminal = false;
  stdin = ok (lit "in");
}

abbrev args : CompleteArgs
args = record {
  prompt = some (lit "x");
  prompt_file = none;
  vars = [];
  context_files = [];
  system = some (lit "s");
  model = none;
  format = lit "yaml";
  streamed = true;
  max_tokens = some 5;
}

abbrev client : OpenAiClient
client = record {
  api_key = lit "key";
  base_url = lit "https://api.groq.com/openai/v1";
  max_retries = 3;
}

abbrev request : CompletionRequest Model.Value ℕ
request = record {
  model = lit "m";
  system =
      lit "s"
      ++ newline ∷ newline ∷ lit "--- STDIN ---"
      ++ newline ∷ lit "in"
      ++ newline ∷ lit "--- END STDIN ---";
  messages = Message.user (UserContent.text (lit "x") ∷ []) ∷ [];
  tools = [];
  max_tokens = 5;
  temperature = none;
}

prepared : prepare json plain shell args ≡ ok (client, request)
unfolding prepare llm_config client_of read_context read_stdin create_client is_supported
    default_base_url new_client render_prompt render_as context_of build_system_prompt u32_var
    parse_uint text_eq join
prepared = refl

reply-Carries : Carries json (λ s. s) reply (hello ∷ [])
reply-Carries = record {
  success = refl;
  chunks = encode_all (hello ∷ done_event ∷ []) ∷ [];
  arrived = refl;
  decoded =
      ap (λ (r : List SseEvent × SseParser). r.0)
        (sym (feed_all-concat (encode_all (hello ∷ done_event ∷ []) ∷ []) Sse.new new-IsDrained)
          ∙ feed_all-encode_all (hello ∷ done_event ∷ [])
              (encode_all (hello ∷ done_event ∷ []) ∷ []) (tt, (tt, tt))
              (append-nil (encode_all (hello ∷ done_event ∷ []))));
}

cmd_llm_complete-Same_example :
    (response : CompletionResponse Model.Value) × ((stream_response json (λ s. s) reply).0
      ≡ ok response)
    × Same
        (cmd_llm_complete json plain (openai_client json (λ s. s) post) shell args)
        (answering json (lit "yaml") (ok response))
unfolding text_eq
cmd_llm_complete-Same_example =
    cmd_llm_complete-Same json plain (λ s. s) post shell args client request reply (hello ∷ [])
      prepared refl refl reply-Carries (refl, tt)
