-- ===== src/Telemetry/Spans.antt =====
-- src/telemetry/genai.rs and src/telemetry/work.rs: the spans, over the crate tracing.
use animus_rs.Prelude.{
  ℕ, ◌≡◌, refl, ◌∙◌, Option, none, some, List, [], ◌∷◌, Text, lit, text_eq, if◌then◌else◌, false,
}
use animus_rs.Work.Item.{Uuid}

pub data Value : Type 0 where
  text : Text → Value
  number : ℕ → Value

-- The value that a list of fields has for a name; `none` is a field that is declared empty.
pub declared : Text → List (Text × Option Value) → Option (Option Value)
declared name [] = none
declared name ((n, v) ∷ fields) = if text_eq n name then some v else declared name fields

-- A span has the fields that it is declared with. `record` gives a declared field a value, and does
-- nothing for any other; an event in the scope of a span leaves its fields.
pub record Tracing : Type 1 where
  pub Span : Type 0
  pub info_span : Text → List (Text × Option Value) → Span
  pub set : Span → Text → Value → Span
  pub event : Span → Text → List (Text × Value) → Span
  pub field : Span → Text → Option (Option Value)
  pub field-info_span :
      (name : Text) (fields : List (Text × Option Value)) (key : Text)
      → field (info_span name fields) key ≡ declared key fields
  pub field-set :
      (span : Span) (key : Text) (v : Value) (old : Option Value)
      → field span key ≡ some old
      → field (set span key v) key ≡ some (some v)
  pub field-set_ne :
      (span : Span) (key other : Text) (v : Value)
      → text_eq key other ≡ false
      → field (set span key v) other ≡ field span other
  pub field-event :
      (span : Span) (name : Text) (values : List (Text × Value)) (key : Text)
      → field (event span name values) key ≡ field span key

module _ (T : Tracing) where
  open T use {Span, info_span, set, event, field}

  -- The two starts differ in the name of the span and of the operation.
  abbrev gen_ai_span : Text → Text → Text → Text → Span
  gen_ai_span name operation model provider = info_span name (
      (lit "gen_ai.operation.name", some (text operation))
      ∷ (lit "gen_ai.request.model", some (text model))
      ∷ (lit "gen_ai.provider.name", some (text provider))
      ∷ (lit "gen_ai.usage.input_tokens", none)
      ∷ (lit "gen_ai.usage.output_tokens", none)
      ∷ [])

  pub start_chat_span : Text → Text → Span
  start_chat_span = gen_ai_span (lit "gen_ai.chat") (lit "chat")

  pub start_embedding_span : Text → Text → Span
  start_embedding_span = gen_ai_span (lit "gen_ai.embeddings") (lit "embeddings")

  pub record_token_usage : Span → ℕ → ℕ → Span
  record_token_usage span input output =
      set (set span (lit "gen_ai.usage.input_tokens") (number input))
        (lit "gen_ai.usage.output_tokens") (number output)

  pub start_work_span : (Uuid → Text) → Text → Uuid → Span
  start_work_span show_uuid faculty work_id = info_span (lit "work.execute") (
      (lit "work.faculty", some (text faculty))
      ∷ (lit "work.id", some (text (show_uuid work_id)))
      ∷ (lit "work.state", none)
      ∷ [])

  pub record_state_transition : Span → Text → Text → Span
  record_state_transition span from to =
      event span (lit "state_transition") ((lit "from", text from) ∷ (lit "to", text to) ∷ [])

  -- What a span of a model call has after its token usage is recorded.
  pub record Used (operation model provider : Text) (input output : ℕ) (span : Span) : Type 0 where
    pub is_for : field span (lit "gen_ai.operation.name") ≡ some (some (text operation))
    pub of_model : field span (lit "gen_ai.request.model") ≡ some (some (text model))
    pub of_provider : field span (lit "gen_ai.provider.name") ≡ some (some (text provider))
    pub used_input : field span (lit "gen_ai.usage.input_tokens") ≡ some (some (number input))
    pub used_output : field span (lit "gen_ai.usage.output_tokens") ≡ some (some (number output))

  module _ (span : Span) (input output : ℕ) where
    kept :
        (key : Text)
        → text_eq (lit "gen_ai.usage.input_tokens") key ≡ false
        → text_eq (lit "gen_ai.usage.output_tokens") key ≡ false
        → field (record_token_usage span input output) key ≡ field span key
    unfolding record_token_usage
    kept key not_input not_output =
        T.field-set_ne _ (lit "gen_ai.usage.output_tokens") key (number output) not_output
        ∙ T.field-set_ne span (lit "gen_ai.usage.input_tokens") key (number input) not_input

    has_input :
        field span (lit "gen_ai.usage.input_tokens") ≡ some none
        → field (record_token_usage span input output) (lit "gen_ai.usage.input_tokens")
          ≡ some (some (number input))
    unfolding record_token_usage text_eq
    has_input h =
        T.field-set_ne _ (lit "gen_ai.usage.output_tokens") (lit "gen_ai.usage.input_tokens")
          (number output) refl
        ∙ T.field-set span (lit "gen_ai.usage.input_tokens") (number input) none h

    has_output :
        field span (lit "gen_ai.usage.output_tokens") ≡ some none
        → field (record_token_usage span input output) (lit "gen_ai.usage.output_tokens")
          ≡ some (some (number output))
    unfolding record_token_usage text_eq
    has_output h = T.field-set _ (lit "gen_ai.usage.output_tokens") (number output) none (
        T.field-set_ne span (lit "gen_ai.usage.input_tokens") (lit "gen_ai.usage.output_tokens")
          (number input) refl
        ∙ h)

  gen_ai_span-Used :
      (name operation model provider : Text) (input output : ℕ)
      → Used operation model provider input output
          (record_token_usage (gen_ai_span name operation model provider) input output)
  unfolding declared text_eq
  gen_ai_span-Used name operation model provider input output =
      let span = gen_ai_span name operation model provider in
      record {
        is_for = kept span input output _ refl refl ∙ T.field-info_span name _ _;
        of_model = kept span input output _ refl refl ∙ T.field-info_span name _ _;
        of_provider = kept span input output _ refl refl ∙ T.field-info_span name _ _;
        used_input = has_input span input output (T.field-info_span name _ _);
        used_output = has_output span input output (T.field-info_span name _ _);
      }

  -- Both kinds of span take the token usage, and keep the operation, the model and the provider that
  -- they were started with.
  pub record_token_usage-Used :
      (model provider : Text) (input output : ℕ)
      → Used
          (lit "chat")
          model
          provider
          input
          output
          (record_token_usage (start_chat_span model provider) input output)
        × Used
            (lit "embeddings")
            model
            provider
            input
            output
            (record_token_usage (start_embedding_span model provider) input output)
  unfolding start_chat_span start_embedding_span
  record_token_usage-Used model provider input output = (
    gen_ai_span-Used (lit "gen_ai.chat") (lit "chat") model provider input output,
    gen_ai_span-Used (lit "gen_ai.embeddings") (lit "embeddings") model provider input output,
  )

  -- The state of a span of work stays empty, whatever transitions are recorded on it.
  work_state_empty :
      (show_uuid : Uuid → Text) (faculty : Text) (work_id : Uuid) (from to : Text)
      → field
          (record_state_transition (start_work_span show_uuid faculty work_id) from to)
          (lit "work.state")
        ≡ some none
  unfolding record_state_transition start_work_span declared text_eq
  work_state_empty show_uuid faculty work_id from to =
      T.field-event _ _ _ (lit "work.state")
      ∙ T.field-info_span (lit "work.execute") _ (lit "work.state")
