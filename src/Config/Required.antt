-- ===== src/Config/Required.antt =====
-- The variables that `Config::from_env` of src/config/mod.rs requires, as one list, and the range of
-- the numbers that it reads.
use mathlib.Core.Path.{subst}
use animus_rs.Prelude.{
  unwrap_or, ◌≡◌, refl, inl, inr, Option-cases, Option, none, some, List, [], ◌∷◌, ◌++◌, Text, lit,
  Result, ok, err,
}
use animus_rs.Llm.Client.{LlmConfig}
use animus_rs.Db.Session.{Error}
use animus_rs.Config.{Env, Config, required_var, u32_var, llm_from_env, from_env}

-- Without a provider only the database is required.
abbrev pub required : Option Text → List Text
required none = lit "DATABASE_URL" ∷ []
required (some provider) = lit "LLM_API_KEY" ∷ lit "LLM_MODEL" ∷ lit "DATABASE_URL" ∷ []

abbrev pub first_missing : Env → List Text → Option Text
first_missing env [] = none
first_missing env (name ∷ names) = elim (env name) [
  | none ↦ some name
  | some value ↦ first_missing env names
]

-- The client's configuration is read from its variables.
pub record Client (env : Env) (provider : Text) (llm : LlmConfig) : Type 0 where
  pub named : llm.provider ≡ provider
  pub key : env (lit "LLM_API_KEY") ≡ some llm.api_key
  pub model : env (lit "LLM_MODEL") ≡ some llm.model
  pub address : llm.base_url ≡ env (lit "LLM_BASE_URL")
  pub tokens : llm.max_tokens ≡ u32_var env (lit "LLM_MAX_TOKENS") 8192
  pub retries : llm.max_retries ≡ u32_var env (lit "LLM_MAX_RETRIES") 3

-- There is a client exactly if there is a provider.
abbrev pub ClientIf : Env → Option Text → Option LlmConfig → Type 0
ClientIf env (some provider) (some llm) = Client env provider llm
ClientIf env none none = Unit
ClientIf env _ _ = ⊥

pub record Loaded (env : Env) (c : Config) : Type 0 where
  pub database : env (lit "DATABASE_URL") ≡ some c.database_url
  pub client : ClientIf env (env (lit "LLM_PROVIDER")) c.llm
  pub endpoint : c.otel_endpoint ≡ env (lit "OTEL_ENDPOINT")
  pub level : c.log_level ≡ unwrap_or (lit "info") (env (lit "LOG_LEVEL"))

-- What is promised for a first missing variable, if any.
abbrev pub LoadsOr : Env → Result Error Config → Option Text → Type 0
LoadsOr env r (some name) =
    r ≡ err (Error.config (lit "required environment variable " ++ (name ++ lit " is not set")))
LoadsOr env r none = (c : Config) × (r ≡ ok c) × Loaded env c

-- `from_env` fails exactly if a required variable is missing, with the name of the first one: the
-- key and the model, if there is a provider, and then the database. A success carries every
-- variable in its field.
pub from_env-LoadsOr :
    (env : Env)
    → LoadsOr env (from_env env) (first_missing env (required (env (lit "LLM_PROVIDER"))))
unfolding from_env llm_from_env required_var
from_env-LoadsOr env = elim (Option-cases (env (lit "LLM_PROVIDER"))) [
  | inl p ↦ elim (Option-cases (env (lit "DATABASE_URL"))) [
    | inl d ↦ rw p (rw d refl)
    | inr (u, d) ↦
        rw p
          (rw d (_, refl, record { database = d; client = rw p tt; endpoint = refl; level = refl }))
  ]
  | inr (v, p) ↦ elim (Option-cases (env (lit "LLM_API_KEY"))) [
    | inl k ↦ rw p (rw k refl)
    | inr (key, k) ↦ elim (Option-cases (env (lit "LLM_MODEL"))) [
      | inl m ↦ rw p (rw k (rw m refl))
      | inr (model, m) ↦ elim (Option-cases (env (lit "DATABASE_URL"))) [
        | inl d ↦ rw p (rw k (rw m (rw d refl)))
        | inr (u, d) ↦ rw p (
            rw k (
              rw m (
                rw d (
                  _,
                  refl,
                  record {
                    database = d;
                    client = rw p (record {
                      named = refl;
                      key = k;
                      model = m;
                      address = refl;
                      tokens = refl;
                      retries = refl;
                    });
                    endpoint = refl;
                    level = refl;
                  },
                ))))
      ]
    ]
  ]
]

-- A success has every variable in its field.
pub from_env-Loaded : (env : Env) (c : Config) → from_env env ≡ ok c → Loaded env c
from_env-Loaded env c e = held _ _ e (from_env-LoadsOr env)
  where
    held :
        (missing : Option Text) (r : Result Error Config)
        → r ≡ ok c
        → LoadsOr env r missing
        → Loaded env c
    held (some name) r e l = absurd (cc)
    held none r e (c', e', l) = let same : c' ≡ c = cc in subst (Loaded env) same l
