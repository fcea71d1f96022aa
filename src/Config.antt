-- ===== src/Config.antt =====
-- src/config/mod.rs: the configuration that the environment gives. Secrets are their text.
pub mod Required
use animus_rs.Prelude.{
  ℕ, ◌^◌, Option, none, some, ◌++◌, Text, lit, Result, ok, err, ok_or, unwrap_or, ◌>>=◌, parse_uint,
}
use animus_rs.Llm.Client.{LlmConfig}
use animus_rs.Db.Session.{Error}

-- `std::env::var(name).ok()`: the variable, if it is set to valid Unicode.
abbrev pub Env : Type 0
Env = Text → Option Text

pub record Config : Type 0 where
  pub database_url : Text
  pub llm : Option LlmConfig
  pub otel_endpoint : Option Text
  pub log_level : Text

unfoldable pub required_var : Env → Text → Result Error Text
required_var env name =
    ok_or (Error.config (lit "required environment variable " ++ (name ++ lit " is not set")))
      (env name)

-- `.ok().and_then(|v| v.parse().ok()).unwrap_or(default)` into a `u32`.
unfoldable pub u32_var : Env → Text → ℕ → ℕ
u32_var env name default =
    unwrap_or default (elim (env name) [ none ↦ none | some v ↦ parse_uint (2 ^ 32) v ])

-- The `match` on the provider.
unfoldable pub llm_from_env : Env → Option Text → Result Error (Option LlmConfig)
llm_from_env env none = ok none
llm_from_env env (some provider) = do
  api_key ← required_var env (lit "LLM_API_KEY")
  model ← required_var env (lit "LLM_MODEL")
  ok (
      some (record {
        provider = provider;
        api_key = api_key;
        base_url = env (lit "LLM_BASE_URL");
        model = model;
        max_tokens = u32_var env (lit "LLM_MAX_TOKENS") 8192;
        max_retries = u32_var env (lit "LLM_MAX_RETRIES") 3;
      }))

unfoldable pub from_env : Env → Result Error Config
from_env env = do
  llm ← llm_from_env env (env (lit "LLM_PROVIDER"))
  database_url ← required_var env (lit "DATABASE_URL")
  ok (record {
    database_url = database_url;
    llm = llm;
    otel_endpoint = env (lit "OTEL_ENDPOINT");
    log_level = unwrap_or (lit "info") (env (lit "LOG_LEVEL"));
  })
