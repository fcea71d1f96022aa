-- ===== src/Llm/Client.antt =====
-- src/llm/mod.rs: the configuration of a client, `create_client` and the trait `LlmClient`.
pub mod Endpoints
use animus_rs.Prelude.{
  ℕ, List, [], ◌≡◌, refl, Bool, ◌||◌, Option, none, some, Text, lit, text_eq, Result, ok, err,
  unwrap_or, if◌then◌else◌,
}
use animus_rs.Json.{JsonLib}
use animus_rs.Llm.Types.{CompletionRequest, CompletionResponse, StreamEvent, LlmError}
use animus_rs.Llm.Http.{HttpResponse}
use animus_rs.Llm.Retry.{OpenAiClient, Call, complete}
use animus_rs.Llm.Retry.Bounds.{complete_total}
use animus_rs.Llm.Stream

-- Both numbers are `u32`.
pub record LlmConfig : Type 0 where
  pub provider : Text
  pub api_key : Text
  pub base_url : Option Text
  pub model : Text
  pub max_tokens : ℕ
  pub max_retries : ℕ

unfoldable pub default_base_url : Text → Text
default_base_url provider =
    if text_eq provider (lit "openai")
    then lit "https://api.openai.com/v1"
    else if text_eq provider (lit "xai")
    then lit "https://api.x.ai/v1"
    else if text_eq provider (lit "openrouter")
    then lit "https://openrouter.ai/api/v1"
    else if text_eq provider (lit "groq")
    then lit "https://api.groq.com/openai/v1"
    else if text_eq provider (lit "ollama")
    then lit "http://localhost:11434/v1"
    else if text_eq provider (lit "deepseek")
    then lit "https://api.deepseek.com"
    else lit ""

-- The pattern of the branch that builds a client.
unfoldable pub is_supported : Text → Bool
is_supported provider =
    text_eq provider (lit "openai")
    || text_eq provider (lit "xai")
    || text_eq provider (lit "openrouter")
    || text_eq provider (lit "groq")
    || text_eq provider (lit "ollama")
    || text_eq provider (lit "deepseek")

-- `OpenAiClient::new`
unfoldable pub new_client : Text → Text → ℕ → OpenAiClient
new_client api_key base_url max_retries = record {
  api_key = api_key;
  base_url = base_url;
  max_retries = max_retries;
}

unfoldable pub create_client : LlmConfig → Result LlmError OpenAiClient
create_client config =
    let base_url = unwrap_or (default_base_url config.provider) config.base_url in
    if is_supported config.provider
    then ok (new_client config.api_key base_url config.max_retries)
    else err (LlmError.unsupported_provider config.provider)

-- `OpenAiClient::with_defaults`
pub with_defaults : Text → OpenAiClient
with_defaults api_key = new_client api_key (lit "https://api.openai.com/v1") 3

-- The trait: one method each for a plain and a streamed answer; the latter comes with what it sends.
pub record LlmClient (V F : Type 0) : Type 0 where
  pub complete : CompletionRequest V F → Result LlmError (CompletionResponse V)
  pub complete_stream :
      CompletionRequest V F → Result LlmError (CompletionResponse V) × List StreamEvent

-- The result of a call. There always is one, as `complete_call` says; the error does not occur.
abbrev pub result_of : {A : Type 0} → Option (Call A) → Result LlmError A
result_of none = err (LlmError.stream [])
result_of (some call) = call.result

module _ (j : JsonLib) (lossy : List ℕ → Text)
    (post : ℕ → Text → Text → j.Value → Result Text HttpResponse) where
  -- `impl LlmClient for OpenAiClient`. `post n` answers the request number n of a call.
  abbrev pub openai_client : OpenAiClient → LlmClient j.Value j.Float
  openai_client client = record {
    complete = λ request. result_of (complete j client post request);
    complete_stream =
        λ request. Stream.complete_stream j lossy (post 0) client.base_url client.api_key request;
  }

  -- The method gives the result of the call that `complete` makes.
  complete_call :
      (client : OpenAiClient) (request : CompletionRequest j.Value j.Float)
      → (call : Call (CompletionResponse j.Value)) × (complete j client post request ≡ some call)
        × ((openai_client client).complete request ≡ call.result)
  complete_call client request =
      let (call, e, most, waits, ends) = complete_total j client post request in
      (call, e, rw e refl)
