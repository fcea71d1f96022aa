-- ===== src/Cli/Llm/Overrides.antt =====
-- src/bin/animus.rs: the configuration of the command against that of the program.
use mathlib.Core.Path.{subst, sym}
use animus_rs.Prelude.{ℕ, ◌≡◌, refl, ap, ◌∙◌, Option, none, some, Text, lit, ok, unwrap_or}
use animus_rs.Llm.Client.{LlmConfig}
use animus_rs.Config.{Env, Config, from_env}
use animus_rs.Config.Required.{Client, ClientIf, from_env-Loaded}
use animus_rs.Cli.Llm.{llm_config}

-- A configuration with a model and a number of tokens that are given in its place.
abbrev pub overridden : LlmConfig → Option Text → Option ℕ → LlmConfig
overridden llm model max_tokens = record llm {
  model = unwrap_or llm.model model;
  max_tokens = unwrap_or llm.max_tokens max_tokens;
}

Client-in :
    (env : Env) (llm : LlmConfig) (o : Option LlmConfig)
    → o ≡ some llm
    → (p : Option Text) → p ≡ env (lit "LLM_PROVIDER")
    → ClientIf env p o
    → Client env llm.provider llm × (env (lit "LLM_PROVIDER") ≡ some llm.provider)
Client-in env llm (some llm') e (some provider) f c =
    let same : llm' ≡ llm = cc in
    let (c', n) = subst (λ l. Client env provider l × (l.provider ≡ provider)) same (c, c.named) in
    (subst (λ p. Client env p llm) (sym n) c', sym f ∙ ap some (sym n))
Client-in env llm (some llm') e none f c = elim c [ ]
Client-in env llm none e p f c = absurd (cc)

-- Where the program's configuration has a client, the command uses that client, with the model and
-- the number of tokens given on the command line in their place.
pub from_env-overridden :
    (env : Env) (config : Config) (llm : LlmConfig) (model : Option Text) (max_tokens : Option ℕ)
    → from_env env ≡ ok config
    → config.llm ≡ some llm
    → llm_config env model max_tokens ≡ ok (overridden llm model max_tokens)
unfolding llm_config
from_env-overridden env config llm model max_tokens loaded has =
    let (c, p) =
      Client-in env llm config.llm has _ refl (from_env-Loaded env config loaded).client in
    rw p
      (rw (c.key) (rw (c.model) (rw (sym c.address) (rw (sym c.tokens) (rw (sym c.retries) refl)))))
