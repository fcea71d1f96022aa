-- ===== src/Llm/Request.antt =====
-- src/llm/openai.rs: `build_request_body`, `serialize_user_message`, `serialize_assistant_message`.
pub mod Wire
use animus_rs.Prelude.{
  ℕ, Bool, true, Option, none, some, List, [], ◌∷◌, ◌++◌, map, Text, lit, newline, is_empty, join,
  length, decimal, if◌then◌else◌,
}
use animus_rs.Json.{JsonLib}
use animus_rs.Llm.Types.{UserContent, ContentBlock, Message, ToolDefinition, CompletionRequest}

module _ (j : JsonLib) where
  open j use {Value, Float, number, float, boolean, string, array, object, set, to_string}

  pub text_message : Text → Text → Value
  text_message role content =
      object ((lit "role", string role) ∷ (lit "content", string content) ∷ [])

  pub tool_message : Text → Text → Value
  tool_message tool_use_id content = object (
      (lit "role", string (lit "tool"))
      ∷ (lit "tool_call_id", string tool_use_id)
      ∷ (lit "content", string content)
      ∷ [])

  -- What the loop over a user message has collected.
  pub record UserParts : Type 0 where
    pub text_parts : List Text
    pub tool_results : List Value

  pub user_item : UserParts → UserContent → UserParts
  user_item parts (UserContent.text s) = record parts { text_parts = parts.text_parts ++ s ∷ [] }
  user_item parts (UserContent.tool_result tool_use_id content is_error) = record parts {
    tool_results = parts.tool_results ++ tool_message tool_use_id content ∷ [];
  }
  user_item parts (UserContent.image media_type base64) = record parts {
    text_parts =
        parts.text_parts
        ++ (lit "[image: "
            ++ (media_type ++ (lit ", " ++ (decimal (length base64) ++ lit " bytes base64]"))))
          ∷ [];
  }

  pub user_items : UserParts → List UserContent → UserParts
  user_items parts [] = parts
  user_items parts (item ∷ items) = user_items (user_item parts item) items

  pub serialize_user_message : List UserContent → List Value → List Value
  serialize_user_message content messages =
      let parts = user_items (record { text_parts = []; tool_results = [] }) content in
      let messages' =
        if is_empty parts.text_parts
        then messages
        else messages ++ text_message (lit "user") (join (newline ∷ []) parts.text_parts) ∷ [] in
      messages' ++ parts.tool_results

  pub record AssistantParts : Type 0 where
    pub text_parts : List Text
    pub tool_calls : List Value

  unfoldable pub tool_call : Text → Text → Value → Value
  tool_call id name input = object (
      (lit "id", string id)
      ∷ (lit "type", string (lit "function"))
      ∷ (
        lit "function",
        object ((lit "name", string name) ∷ (lit "arguments", string (to_string input)) ∷ []),
      )
      ∷ [])

  pub assistant_block : AssistantParts → ContentBlock Value → AssistantParts
  assistant_block parts (ContentBlock.text s) = record parts {
    text_parts = parts.text_parts ++ s ∷ [];
  }
  assistant_block parts (ContentBlock.thinking s) = parts
  assistant_block parts (ContentBlock.tool_use id name input) = record parts {
    tool_calls = parts.tool_calls ++ tool_call id name input ∷ [];
  }

  pub assistant_blocks : AssistantParts → List (ContentBlock Value) → AssistantParts
  assistant_blocks parts [] = parts
  assistant_blocks parts (block ∷ blocks) = assistant_blocks (assistant_block parts block) blocks

  -- The message that `serialize_assistant_message` pushes.
  pub assistant_message : List (ContentBlock Value) → Value
  assistant_message content =
      let parts = assistant_blocks (record { text_parts = []; tool_calls = [] }) content in
      let msg = object ((lit "role", string (lit "assistant")) ∷ []) in
      let content_str = join (newline ∷ []) parts.text_parts in
      let msg' =
        if is_empty content_str then msg else set msg (lit "content") (string content_str) in
      if is_empty parts.tool_calls
      then msg'
      else set msg' (lit "tool_calls") (array parts.tool_calls)

  pub serialize_assistant_message : List (ContentBlock Value) → List Value → List Value
  serialize_assistant_message content messages = messages ++ assistant_message content ∷ []

  pub serialize_message : Message Value → List Value → List Value
  serialize_message (Message.system content) messages =
      messages ++ text_message (lit "system") content ∷ []
  serialize_message (Message.user content) messages = serialize_user_message content messages
  serialize_message (Message.assistant content) messages =
      serialize_assistant_message content messages

  pub serialize_messages : List (Message Value) → List Value → List Value
  serialize_messages [] messages = messages
  serialize_messages (msg ∷ rest) messages =
      serialize_messages rest (serialize_message msg messages)

  pub tool_definition : ToolDefinition Value → Value
  tool_definition t = object (
      (lit "type", string (lit "function"))
      ∷ (
        lit "function",
        object (
            (lit "name", string t.name)
            ∷ (lit "description", string t.description)
            ∷ (lit "parameters", t.input_schema)
            ∷ []),
      )
      ∷ [])

  pub set_temperature : Option Float → Value → Value
  set_temperature none body = body
  set_temperature (some temp) body = set body (lit "temperature") (float temp)

  pub wire_messages : CompletionRequest Value Float → List Value
  wire_messages request =
      serialize_messages request.messages (text_message (lit "system") request.system ∷ [])

  pub build_request_body : CompletionRequest Value Float → Bool → Value
  build_request_body request stream =
      let body = object (
        (lit "model", string request.model)
        ∷ (lit "messages", array (wire_messages request))
        ∷ (lit "max_tokens", number request.max_tokens)
        ∷ []) in
      let body' = set_temperature request.temperature body in
      let body'' =
        if is_empty request.tools
        then body'
        else set body' (lit "tools") (array (map tool_definition request.tools)) in
      if stream then set body'' (lit "stream") (boolean true) else body''
