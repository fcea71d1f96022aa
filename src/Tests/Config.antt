-- ===== src/Tests/Config.antt =====
-- Runs of the configuration and of the construction of a client (src/config, src/llm/mod.rs).
use animus_rs.Prelude.{◌≡◌, refl, none, some, lit, text_eq, ok, if◌then◌else◌, parse_uint}
use animus_rs.Llm.Client.{LlmConfig, create_client}
use animus_rs.Llm.Client.Endpoints.{create_client-endpoints, client_for, endpoint_in, endpoints}
use animus_rs.Config.{Env, Config, u32_var, from_env, llm_from_env, required_var}
use animus_rs.Config.Required.{LoadsOr, first_missing, required, from_env-LoadsOr}
use animus_rs.Cli.Llm.{llm_config}
use animus_rs.Cli.Llm.Overrides.{overridden, from_env-overridden}

-- Three variables are set; the number of retries is none.
abbrev pub env : Env
env name =
    if text_eq name (lit "LLM_PROVIDER")
    then some (lit "groq")
    else if text_eq name (lit "LLM_API_KEY")
    then some (lit "key")
    else if text_eq name (lit "LLM_MODEL")
    then some (lit "m")
    else if text_eq name (lit "LLM_MAX_RETRIES")
    then some (lit "99999999999")
    else none

abbrev pub with_database : Env
with_database name = if text_eq name (lit "DATABASE_URL") then some (lit "pg") else env name

from_env-LoadsOr_example :
    LoadsOr env (from_env env) (first_missing env (required (env (lit "LLM_PROVIDER"))))
from_env-LoadsOr_example = from_env-LoadsOr env

abbrev pub groq : LlmConfig
groq = record {
  provider = lit "groq";
  api_key = lit "key";
  base_url = none;
  model = lit "m";
  max_tokens = 8192;
  max_retries = 3;
}

create_client-endpoints_example :
    create_client groq ≡ client_for groq (endpoint_in endpoints (lit "groq"))
create_client-endpoints_example = create_client-endpoints groq

abbrev pub loaded : Config
loaded = record {
  database_url = lit "pg";
  llm = some groq;
  otel_endpoint = none;
  log_level = lit "info";
}

pub from_env-loaded : from_env with_database ≡ ok loaded
unfolding from_env llm_from_env required_var u32_var parse_uint text_eq
from_env-loaded = refl

from_env-overridden_example :
    llm_config with_database (some (lit "n")) none ≡ ok (overridden groq (some (lit "n")) none)
from_env-overridden_example =
    from_env-overridden with_database loaded groq (some (lit "n")) none from_env-loaded refl
