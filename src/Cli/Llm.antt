-- ===== src/Cli/Llm.antt =====
-- src/bin/animus.rs: `cmd_llm_complete` up to the call: the client and the request.
pub mod Overrides
use animus_rs.Prelude.{
  ℕ, Bool, true, false, not, ◌&&◌, Option, none, some, List, [], ◌∷◌, ◌++◌, Text, lit, newline,
  text_eq, is_empty, Result, ok, err, ok_or, unwrap_or, ◌>>=◌, if◌then◌else◌,
}
use animus_rs.Json.{JsonLib}
use animus_rs.Llm.Types.{
  Message, UserContent, CompletionRequest, CompletionResponse, StreamEvent, LlmError,
}
use animus_rs.Llm.Retry.{OpenAiClient}
use animus_rs.Llm.Client.{LlmConfig, LlmClient, create_client}
use animus_rs.Config.{Env, u32_var}
use animus_rs.Cli.Failure.{Failure}
use animus_rs.Cli.Prompt.{Tera, em_dash, passed_on, build_system_prompt, render_prompt}
use animus_rs.Cli.Output.{response_text, response_thinking, format_output}

-- `LlmAction::Complete`. A path is the text that displays it.
pub record CompleteArgs : Type 0 where
  pub prompt : Option Text
  pub prompt_file : Option Text
  pub vars : List (Text × Text)
  pub context_files : List Text
  pub system : Option Text
  pub model : Option Text
  pub format : Text
  pub streamed : Bool
  -- a `u32`
  pub max_tokens : Option ℕ

-- What the command reads: the environment, files, and standard input with whether it is a terminal.
pub record Shell : Type 0 where
  pub env : Env
  pub read_file : Text → Result Text Text
  pub is_terminal : Bool
  pub stdin : Result Text Text

-- The start of the function, on the overrides of the model and of the number of tokens.
unfoldable pub llm_config : Env → Option Text → Option ℕ → Result Failure LlmConfig
llm_config env model max_tokens = do
  provider ←
      ok_or
        (Failure.bail
          (lit "LLM_PROVIDER is not set " ++ (em_dash ++ lit " configure LLM env vars")))
        (env (lit "LLM_PROVIDER"))
  api_key ← ok_or (Failure.bail (lit "LLM_API_KEY is not set")) (env (lit "LLM_API_KEY"))
  ok (record {
    provider = provider;
    api_key = api_key;
    base_url = env (lit "LLM_BASE_URL");
    model = unwrap_or (unwrap_or (lit "gpt-4o") (env (lit "LLM_MODEL"))) model;
    max_tokens = unwrap_or (u32_var env (lit "LLM_MAX_TOKENS") 8192) max_tokens;
    max_retries = u32_var env (lit "LLM_MAX_RETRIES") 3;
  })

-- The client, whose error is passed on.
unfoldable pub client_of : LlmConfig → Result Failure OpenAiClient
client_of config = elim (create_client config) [
  | ok client ↦ ok client
  | err e ↦ err (Failure.llm e)
]

unfoldable pub read_context :
    (Text → Result Text Text) → List Text → Result Failure (List (Text × Text))
read_context read_file [] = ok []
read_context read_file (path ∷ paths) = do
  content ← elim (read_file path) [
    | ok content ↦ ok content
    | err e ↦ err (Failure.bail (lit "cannot read context file " ++ (path ++ (lit ": " ++ e))))
  ]
  rest ← read_context read_file paths
  ok ((path, content) ∷ rest)

-- Standard input, unless it is a terminal or has no text.
unfoldable pub read_stdin : Shell → Result Failure (Option Text)
read_stdin shell =
    if shell.is_terminal
    then ok none
    else do buf ← passed_on shell.stdin; ok (if is_empty buf then none else some buf)

module _ (j : JsonLib) (tera : Tera) where
  open j use {Value, Float}

  -- Everything in front of the call: the client and the request.
  unfoldable pub prepare :
      Shell → CompleteArgs → Result Failure (OpenAiClient × CompletionRequest Value Float)
  prepare shell args = do
    config ← llm_config shell.env args.model args.max_tokens
    client ← client_of config
    files ← read_context shell.read_file args.context_files
    input ← read_stdin shell
    user_text ← render_prompt tera shell.read_file args.prompt args.prompt_file args.vars
    ok (
      client,
      record {
        model = config.model;
        system = build_system_prompt args.system files input;
        messages = Message.user (UserContent.text user_text ∷ []) ∷ [];
        tools = [];
        max_tokens = config.max_tokens;
        temperature = none;
      },
    )
