-- ===== src/Llm/Client/Endpoints.antt =====
-- The providers that src/llm/mod.rs supports, as one table.
use animus_rs.Prelude.{
  ◌≡◌, Option, none, some, List, [], ◌∷◌, Text, lit, text_eq, Result, ok, err, unwrap_or,
  if◌then◌else◌, arith,
}
use animus_rs.Llm.Types.{LlmError}
use animus_rs.Llm.Retry.{OpenAiClient}
use animus_rs.Llm.Client.{LlmConfig, default_base_url, is_supported, new_client, create_client}

-- Each provider with the address of its service.
abbrev pub endpoints : List (Text × Text)
endpoints =
    (lit "openai", lit "https://api.openai.com/v1")
    ∷ (lit "xai", lit "https://api.x.ai/v1")
    ∷ (lit "openrouter", lit "https://openrouter.ai/api/v1")
    ∷ (lit "groq", lit "https://api.groq.com/openai/v1")
    ∷ (lit "ollama", lit "http://localhost:11434/v1")
    ∷ (lit "deepseek", lit "https://api.deepseek.com")
    ∷ []

abbrev pub endpoint_in : List (Text × Text) → Text → Option Text
endpoint_in [] provider = none
endpoint_in ((name, url) ∷ rest) provider =
    if text_eq provider name then some url else endpoint_in rest provider

-- The client for a provider of the table: the configured address, or else that of the table.
abbrev pub client_for : LlmConfig → Option Text → Result LlmError OpenAiClient
client_for config none = err (LlmError.unsupported_provider config.provider)
client_for config (some url) = ok (record {
  api_key = config.api_key;
  base_url = unwrap_or url config.base_url;
  max_retries = config.max_retries;
})

-- `create_client` knows exactly the providers of one table. It takes the address, if none is
-- configured, from the table too, so that no provider is accepted without one; any other provider is
-- refused by its name, also if an address is configured.
pub create_client-endpoints :
    (config : LlmConfig)
    → create_client config ≡ client_for config (endpoint_in endpoints config.provider)
unfolding create_client is_supported default_base_url new_client
create_client-endpoints config = ground arith
