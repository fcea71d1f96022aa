-- ===== src/Llm/Types.antt =====
-- src/llm/types.rs and src/llm/error.rs. `V` is `serde_json::Value` and `F` is `f64`.
use animus_rs.Prelude.{ℕ, Bool, Option, List, Text}

pub data UserContent : Type 0 where
  text : Text → UserContent
  tool_result : Text → Text → Bool → UserContent
  image : Text → Text → UserContent

pub data ContentBlock (V : Type 0) : Type 0 where
  text : Text → ContentBlock V
  thinking : Text → ContentBlock V
  tool_use : Text → Text → V → ContentBlock V

pub data Message (V : Type 0) : Type 0 where
  system : Text → Message V
  user : List UserContent → Message V
  assistant : List (ContentBlock V) → Message V

pub record ToolDefinition (V : Type 0) : Type 0 where
  pub name : Text
  pub description : Text
  pub input_schema : V

pub record CompletionRequest (V F : Type 0) : Type 0 where
  pub model : Text
  pub system : Text
  pub messages : List (Message V)
  pub tools : List (ToolDefinition V)
  pub max_tokens : ℕ
  pub temperature : Option F

pub data StopReason : Type 0 where
  end_turn tool_use max_tokens : StopReason
  other : Text → StopReason

-- Both counts are `u32`.
pub record Usage : Type 0 where
  pub input_tokens : ℕ
  pub output_tokens : ℕ

pub record CompletionResponse (V : Type 0) : Type 0 where
  pub content : List (ContentBlock V)
  pub stop_reason : StopReason
  pub usage : Usage

pub data StreamEvent : Type 0 where
  text_delta : Text → StreamEvent
  thinking_delta : Text → StreamEvent
  tool_input_delta : Text → Text → StreamEvent
  tool_start : Text → Text → StreamEvent
  done : StreamEvent

-- An error of a library that is passed on is its message.
pub data LlmError : Type 0 where
  http : Text → LlmError
  api : ℕ → Text → LlmError
  rate_limited : Option ℕ → LlmError
  json : Text → LlmError
  stream : Text → LlmError
  unsupported_provider : Text → LlmError
