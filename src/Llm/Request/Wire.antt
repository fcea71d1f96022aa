-- ===== src/Llm/Request/Wire.antt =====
-- The wire messages of src/llm/openai.rs against a description by lists.
use animus_rs.Prelude.{
  ◌≡◌, refl, ap, ◌∙◌, List, [], ◌∷◌, ◌++◌, append_assoc, append-nil, map, Text, lit, newline,
  is_empty, join, length, decimal, concat, if◌then◌else◌,
}
use animus_rs.Json.{JsonLib}
use animus_rs.Llm.Types.{UserContent, ContentBlock, Message, CompletionRequest}
use animus_rs.Llm.Request.{
  text_message, tool_message, UserParts, user_item, user_items, serialize_user_message,
  AssistantParts, tool_call, assistant_block, assistant_blocks, assistant_message,
  serialize_message, serialize_messages, wire_messages, serialize_assistant_message,
}

-- The text that a piece of a user message adds, if any.
abbrev pub user_texts : List UserContent → List Text
user_texts [] = []
user_texts (UserContent.text s ∷ items) = s ∷ user_texts items
user_texts (UserContent.tool_result id s is_error ∷ items) = user_texts items
user_texts (UserContent.image media_type base64 ∷ items) =
    (lit "[image: "
      ++ (media_type ++ (lit ", " ++ (decimal (length base64) ++ lit " bytes base64]"))))
    ∷ user_texts items

-- The identity and the text of each tool result.
abbrev pub user_results : List UserContent → List (Text × Text)
user_results [] = []
user_results (UserContent.text s ∷ items) = user_results items
user_results (UserContent.tool_result id s is_error ∷ items) = (id, s) ∷ user_results items
user_results (UserContent.image media_type base64 ∷ items) = user_results items

module _ {V : Type 0} where
  abbrev pub block_texts : List (ContentBlock V) → List Text
  block_texts [] = []
  block_texts (ContentBlock.text s ∷ blocks) = s ∷ block_texts blocks
  block_texts (ContentBlock.thinking s ∷ blocks) = block_texts blocks
  block_texts (ContentBlock.tool_use id name input ∷ blocks) = block_texts blocks

  abbrev pub block_calls : List (ContentBlock V) → List (ContentBlock V)
  block_calls [] = []
  block_calls (ContentBlock.text s ∷ blocks) = block_calls blocks
  block_calls (ContentBlock.thinking s ∷ blocks) = block_calls blocks
  block_calls (ContentBlock.tool_use id name input ∷ blocks) =
      ContentBlock.tool_use id name input ∷ block_calls blocks

module _ (j : JsonLib) where
  open j use {Value, Float, string, array, object, set}

  abbrev pub result_message : Text × Text → Value
  result_message (id, s) = tool_message j id s

  abbrev pub call_value : ContentBlock Value → Value
  call_value (ContentBlock.tool_use id name input) = tool_call j id name input
  call_value block = j.null

  -- A user message on the wire: one message with its texts, if it has any, then its tool results.
  abbrev pub user_wire : List UserContent → List Value
  user_wire content =
      (if is_empty (user_texts content)
        then []
        else text_message j (lit "user") (join (newline ∷ []) (user_texts content)) ∷ [])
      ++ map result_message (user_results content)

  -- The entries of an assistant message on the wire.
  abbrev pub content_entries : List Text → List (Text × Value)
  content_entries texts =
      if is_empty (join (newline ∷ []) texts)
      then []
      else (lit "content", string (join (newline ∷ []) texts)) ∷ []

  abbrev pub call_entries : List Value → List (Text × Value)
  call_entries calls = if is_empty calls then [] else (lit "tool_calls", array calls) ∷ []

  abbrev pub assistant_wire : List (ContentBlock Value) → Value
  assistant_wire content = object (
      (lit "role", string (lit "assistant"))
      ∷ (content_entries (block_texts content)
          ++ call_entries (map call_value (block_calls content))))

  abbrev pub message_wire : Message Value → List Value
  message_wire (Message.system content) = text_message j (lit "system") content ∷ []
  message_wire (Message.user content) = user_wire content
  message_wire (Message.assistant content) = assistant_wire content ∷ []

  user_items_lem :
      (items : List UserContent) (parts : UserParts j)
      → user_items j parts items ≡ record {
        text_parts = parts.text_parts ++ user_texts items;
        tool_results = parts.tool_results ++ map result_message (user_results items);
      }
  unfolding user_items user_item
  user_items_lem [] parts = simp append-nil
  user_items_lem (UserContent.text s ∷ items) parts =
      user_items_lem items (user_item j parts (UserContent.text s)) ∙ rw append_assoc
  user_items_lem (UserContent.tool_result id s e ∷ items) parts =
      user_items_lem items (user_item j parts (UserContent.tool_result id s e)) ∙ rw append_assoc
  user_items_lem (UserContent.image m d ∷ items) parts =
      user_items_lem items (user_item j parts (UserContent.image m d)) ∙ rw append_assoc

  assistant_blocks_lem :
      (blocks : List (ContentBlock Value)) (parts : AssistantParts j)
      → assistant_blocks j parts blocks ≡ record {
        text_parts = parts.text_parts ++ block_texts blocks;
        tool_calls = parts.tool_calls ++ map call_value (block_calls blocks);
      }
  unfolding assistant_blocks assistant_block
  assistant_blocks_lem [] parts = simp append-nil
  assistant_blocks_lem (ContentBlock.text s ∷ blocks) parts =
      assistant_blocks_lem blocks (assistant_block j parts (ContentBlock.text s)) ∙ rw append_assoc
  assistant_blocks_lem (ContentBlock.thinking s ∷ blocks) parts = assistant_blocks_lem blocks parts
  assistant_blocks_lem (ContentBlock.tool_use id name input ∷ blocks) parts =
      assistant_blocks_lem blocks (assistant_block j parts (ContentBlock.tool_use id name input))
      ∙ rw append_assoc

  serialize_user_message-user_wire :
      (content : List UserContent) (messages : List Value)
      → serialize_user_message j content messages ≡ messages ++ user_wire content
  unfolding serialize_user_message
  serialize_user_message-user_wire content messages =
      rw (user_items_lem content (record { text_parts = []; tool_results = [] }))
        (go (user_texts content))
    where
      go :
          (texts : List Text)
          → (if is_empty texts
                then messages
                else messages ++ text_message j (lit "user") (join (newline ∷ []) texts) ∷ [])
              ++ map result_message (user_results content)
            ≡ messages
              ++ ((if is_empty texts
                    then []
                    else text_message j (lit "user") (join (newline ∷ []) texts) ∷ [])
                  ++ map result_message (user_results content))
      go [] = refl
      go (s ∷ texts) = append_assoc messages _ _

  pub assistant_message-assistant_wire :
      (content : List (ContentBlock Value)) → assistant_message j content ≡ assistant_wire content
  unfolding assistant_message
  assistant_message-assistant_wire content =
      rw (assistant_blocks_lem content (record { text_parts = []; tool_calls = [] }))
        (go (join (newline ∷ []) (block_texts content)) (map call_value (block_calls content)))
    where
      role : Text × Value
      role = (lit "role", string (lit "assistant"))

      msg : Text → Value
      msg s =
          if is_empty s
          then object (role ∷ [])
          else set (object (role ∷ [])) (lit "content") (string s)

      go :
          (s : Text) (calls : List Value)
          → (if is_empty calls then msg s else set (msg s) (lit "tool_calls") (array calls))
            ≡ object (
                role
                ∷ ((if is_empty s then [] else (lit "content", string s) ∷ [])
                    ++ call_entries calls))
      go [] [] = refl
      go [] (x ∷ calls) = j.set-object _ _ _
      go (c ∷ s) [] = j.set-object _ _ _
      go (c ∷ s) (x ∷ calls) =
          ap (λ v. set v (lit "tool_calls") (array (x ∷ calls))) (j.set-object _ _ _)
          ∙ j.set-object _ _ _

  serialize_message-message_wire :
      (msg : Message Value) (messages : List Value)
      → serialize_message j msg messages ≡ messages ++ message_wire msg
  unfolding serialize_message serialize_assistant_message
  serialize_message-message_wire (Message.system content) messages = refl
  serialize_message-message_wire (Message.user content) messages =
      serialize_user_message-user_wire content messages
  serialize_message-message_wire (Message.assistant content) messages =
      rw (assistant_message-assistant_wire content)

  serialize_messages-concat :
      (msgs : List (Message Value)) (messages : List Value)
      → serialize_messages j msgs messages ≡ messages ++ concat (map message_wire msgs)
  unfolding serialize_messages
  serialize_messages-concat [] messages = rw append-nil
  serialize_messages-concat (msg ∷ msgs) messages =
      serialize_messages-concat msgs (serialize_message j msg messages)
      ∙ rw (serialize_message-message_wire msg messages) (append_assoc messages _ _)

  -- On the wire a conversation is the system prompt, then the wire form of each message in
  -- order: a user message becomes one message with its texts joined by line breaks, left out if
  -- it has none, and one message for each tool result; an assistant message becomes one object
  -- with its joined texts and its tool calls, each left out if empty, and without its thinking.
  pub wire_messages-concat :
      (request : CompletionRequest Value Float)
      → wire_messages j request
        ≡ text_message j (lit "system") request.system ∷ concat (map message_wire request.messages)
  unfolding wire_messages
  wire_messages-concat request = serialize_messages-concat request.messages _
