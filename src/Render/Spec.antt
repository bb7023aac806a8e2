-- ===== src/Render/Spec.antt =====
-- The text that a message stands for, and its errors, described without the encoder.
use harmony_go.Prelude.{
  get_elem?, ℕ, ◌≡◌, All, In, Bool, ◌&&◌, List, [], ◌∷◌, ◌++◌, Option, none, some, Bytes, codes,
  bytes_eq, if◌then◌else◌,
}
use harmony_go.Tokenizer.Segmenter.Contraction.{IsBytes}
use harmony_go.Types.{role_tool, Content, content_text, content_system, content_developer, Message}
use harmony_go.Header.{is_empty}
use harmony_go.Encoding.Estimate.{needs_recipient}
use harmony_go.Sections.{Library, system_text, developer_text}
use harmony_go.Render.{
  RenderError, no_tool_name, nil_system, nil_developer, unknown_content, is_call,
}

-- `name`, or `role` and `:name`.
unfoldable pub author_text : Message → Bytes
author_text msg =
    if bytes_eq msg.author.role role_tool
    then msg.author.name
    else msg.author.role ++ (if is_empty msg.author.name then [] else codes ":" ++ msg.author.name)

unfoldable pub recipient_text : Message → Bytes
recipient_text msg = if needs_recipient msg then codes " to=" ++ msg.recipient else []

unfoldable pub channel_text : Message → Bytes
channel_text msg = if is_empty msg.channel then [] else codes "<|channel|>" ++ msg.channel

unfoldable pub content_type_text : Message → Bytes
content_type_text msg = if is_empty msg.content_type then [] else codes " " ++ msg.content_type

unfoldable pub header_text : Message → Bytes
header_text msg =
    ((author_text msg ++ recipient_text msg) ++ channel_text msg) ++ content_type_text msg

unfoldable pub end_text : Message → Bytes
end_text msg = if is_call msg then codes "<|call|>" else codes "<|end|>"

module _ (lib : Library) (has_function_tools : Bool) where
  unfoldable pub text_of_content : Content → Bytes
  text_of_content c =
      if bytes_eq c.kind content_text
      then c.text
      else if bytes_eq c.kind content_system
      then (elim c.system [ none ↦ [] | some sys ↦ system_text lib has_function_tools sys ])
      else if bytes_eq c.kind content_developer
      then (elim c.developer [ none ↦ [] | some dev ↦ developer_text lib dev ])
      else []

  unfoldable pub texts_of_contents : List Content → Bytes
  texts_of_contents [] = []
  texts_of_contents (c ∷ cs) = text_of_content c ++ texts_of_contents cs

  unfoldable pub message_text : Message → Bytes
  message_text msg =
      ((codes "<|start|>" ++ header_text msg) ++ codes "<|message|>")
      ++ texts_of_contents msg.content
      ++ end_text msg

  abbrev pub AreWritable : List Content → Type 0
  AreWritable [] = Unit
  AreWritable (c ∷ cs) = IsBytes (text_of_content c) × AreWritable cs

  -- The texts of the message are bytes; so is every Go string.
  pub record IsWritable (msg : Message) : Type 0 where
    pub role_bytes : IsBytes msg.author.role
    pub name_bytes : IsBytes msg.author.name
    pub recipient_bytes : IsBytes msg.recipient
    pub channel_bytes : IsBytes msg.channel
    pub content_type_bytes : IsBytes msg.content_type
    pub contents_bytes : AreWritable msg.content

  unfoldable pub conversation_text : List Message → Bytes
  conversation_text [] = []
  conversation_text (m ∷ ms) = message_text m ++ conversation_text ms

  abbrev pub AllWritable : List Message → Type 0
  AllWritable ms = All IsWritable ms

-- A content whose kind is unknown, or whose pointer is nil.
unfoldable pub content_error : Content → Option RenderError
content_error c =
    if bytes_eq c.kind content_text
    then none
    else if bytes_eq c.kind content_system
    then (elim c.system [ none ↦ some nil_system | some sys ↦ none ])
    else if bytes_eq c.kind content_developer
    then (elim c.developer [ none ↦ some nil_developer | some dev ↦ none ])
    else some unknown_content

-- The error of the first content that has one.
unfoldable pub contents_error : List Content → Option RenderError
contents_error [] = none
contents_error (c ∷ cs) =
    let rest = contents_error cs in elim (content_error c) [ some e ↦ some e | none ↦ rest ]

-- A tool without a name comes first.
unfoldable pub message_error : Message → Option RenderError
message_error msg =
    if bytes_eq msg.author.role role_tool && is_empty msg.author.name
    then some no_tool_name
    else contents_error msg.content

-- A message without an error.
abbrev pub IsFine : Message → Type 0
IsFine m = message_error m ≡ none

-- An error of one of the messages.
abbrev pub HasError : List Message → RenderError → Type 0
HasError ms e = (m : Message) × In m ms × (message_error m ≡ some e)

-- The error of the first message that has one.
unfoldable pub first_message_error : List Message → Option RenderError
first_message_error [] = none
first_message_error (m ∷ ms) =
    let rest = first_message_error ms in elim (message_error m) [ some e ↦ some e | none ↦ rest ]

-- The error of the first index in the order whose message has one.
unfoldable pub error_in_turn : List Message → List ℕ → Option RenderError
error_in_turn msgs [] = none
error_in_turn msgs (i ∷ order) =
    let rest = error_in_turn msgs order in
    elim (get_elem? msgs i) [
      | none ↦ rest
      | some m ↦ elim (message_error m) [ some e ↦ some e | none ↦ rest ]
    ]
