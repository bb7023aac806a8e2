-- ===== src/Render.antt =====
-- encoding.go: rendering of messages and conversations to tokens.
pub mod Texts
pub mod Conversation
pub mod Pieces
pub mod Spec
pub mod Contents
pub mod Whole
pub mod Agree
pub mod Conversations
pub mod Outcome
pub mod Frames
pub mod RoundTrip
pub mod Training
pub mod Completion
pub mod Loaded
pub mod Chat
pub mod Tests
use harmony_go.Prelude.{
  ℕ, suc, Bool, true, false, not, ◌&&◌, ◌||◌, List, [], ◌∷◌, ◌++◌, Option, none, some, Bytes, codes,
  bytes_eq, ◌==◌, if◌then◌else◌, lookup, length, set, ◌-◌, get_elem?, concat, Result, ok, err,
  ◌>>=◌, ◌>=>◌, drop,
}
use harmony_go.Tokenizer.Core.{encode_into_ordinary}
use harmony_go.Types.{
  Role, role_assistant, role_tool, Content, content_text, content_system, content_developer,
  Message,
}
use harmony_go.Header.{is_empty, constrain_marker}
use harmony_go.Text.{has_prefix}
use harmony_go.Encoding.{Encoding}
use harmony_go.Encoding.Estimate.{needs_recipient, should_parallel_render}
use harmony_go.Encoding.Select.{Scan, scan, no_scan, render_idx, is_final, is_assistant}
use harmony_go.Parser.{last_message}
use harmony_go.Sections.{Library, system_text, developer_text}

-- The errors of the renderer. `no_tokens` is no error of the code: it stands for an encoder without
-- a result, which the theorems exclude.
pub data RenderError : Type 0 where
  unmapped_token no_tool_name nil_system nil_developer unknown_content no_tokens : RenderError

-- Appends to `*out`; what an error leaves in it is dropped by every caller.
abbrev pub Step : Type 0
Step = List ℕ → Result RenderError (List ℕ)

unfoldable pub emit : ℕ → Step
emit t out = ok (out ++ t ∷ [])

unfoldable pub skip : Step
skip out = ok out

unfoldable pub fail : RenderError → Step
fail e out = err e

-- `if msg.Author.Role == RoleTool && msg.Author.Name == ""`
unfoldable pub check_author : Message → Step
check_author msg =
    if bytes_eq msg.author.role role_tool && is_empty msg.author.name
    then fail no_tool_name
    else skip

-- `msg.Author.Role == RoleAssistant && msg.Recipient != "" && msg.Recipient != "all"`
unfoldable pub is_call : Message → Bool
is_call msg = bytes_eq msg.author.role role_assistant && needs_recipient msg

module _ (enc : Encoding) where
  -- The tokens that are cached, and the map for others.
  unfoldable pub render_formatting_token : Bytes → Step
  render_formatting_token name =
      if bytes_eq name (codes "<|start|>")
      then emit enc.id_start
      else if bytes_eq name (codes "<|message|>")
      then emit enc.id_message
      else if bytes_eq name (codes "<|end|>")
      then emit enc.id_end
      else if bytes_eq name (codes "<|return|>")
      then emit enc.id_return
      else if bytes_eq name (codes "<|call|>")
      then emit enc.id_call
      else if bytes_eq name (codes "<|constrain|>")
      then emit enc.id_constrain
      else if bytes_eq name (codes "<|channel|>")
      then emit enc.id_channel
      else (elim (lookup bytes_eq name enc.fmt) [
        | none ↦ fail unmapped_token
        | some id ↦ if id == 0 then fail unmapped_token else emit id
      ])

  unfoldable pub render_text : Bytes → Step
  render_text text out = elim (encode_into_ordinary enc.bpe text out) [
    | none ↦ err no_tokens
    | some (more, last) ↦ ok more
  ]

  unfoldable pub render_content_type : Bytes → Step
  render_content_type ct =
      if has_prefix ct constrain_marker
      then (let rest = drop (length constrain_marker) ct in
          render_text (codes " ")
          >=> emit enc.id_constrain
          >=> (if is_empty rest then skip else render_text rest))
      else render_text (codes " " ++ ct)

  -- The header of `renderMessage`: each part is encoded by itself.
  unfoldable pub header_pieces : Message → Step
  header_pieces msg =
      if bytes_eq msg.author.role role_tool
      then (if needs_recipient msg
          then render_text msg.author.name
            >=> render_text (codes " to=")
            >=> render_text msg.recipient
          else render_text msg.author.name)
      else if is_empty msg.author.name && not (needs_recipient msg)
      then render_text msg.author.role
      else (render_text msg.author.role
          >=> (if is_empty msg.author.name
              then skip
              else render_text (codes ":") >=> render_text msg.author.name)
          >=> (if needs_recipient msg
              then render_text (codes " to=") >=> render_text msg.recipient
              else skip))

  -- The header of `renderMessageInto`: the parts are joined and encoded once.
  unfoldable pub header_joined : Message → Step
  header_joined msg =
      if bytes_eq msg.author.role role_tool
      then (if needs_recipient msg
          then render_text (msg.author.name ++ codes " to=" ++ msg.recipient)
          else render_text msg.author.name)
      else if is_empty msg.author.name && not (needs_recipient msg)
      then render_text msg.author.role
      else render_text (
          (msg.author.role
            ++ (if is_empty msg.author.name then [] else codes ":" ++ msg.author.name))
          ++ (if needs_recipient msg then codes " to=" ++ msg.recipient else []))

  unfoldable pub content_type_part : Message → Step
  content_type_part msg =
      if is_empty msg.content_type then skip else render_content_type msg.content_type

  module _ (lib : Library) (has_function_tools : Bool) where
    unfoldable pub render_content : Content → Step
    render_content c =
        if bytes_eq c.kind content_text
        then render_text c.text
        else if bytes_eq c.kind content_system
        then (elim c.system [
          | none ↦ fail nil_system
          | some sys ↦ render_text (system_text lib has_function_tools sys)
        ])
        else if bytes_eq c.kind content_developer
        then (elim c.developer [
          | none ↦ fail nil_developer
          | some dev ↦ render_text (developer_text lib dev)
        ])
        else fail unknown_content

    unfoldable pub render_contents : List Content → Step
    render_contents [] = skip
    render_contents (c ∷ cs) = render_content c >=> render_contents cs

    unfoldable pub render_message : Message → Result RenderError (List ℕ)
    render_message msg =
        (render_formatting_token (codes "<|start|>")
            >=> check_author msg
            >=> header_pieces msg
            >=> (if is_empty msg.channel
                then skip
                else render_formatting_token (codes "<|channel|>") >=> render_text msg.channel)
            >=> content_type_part msg
            >=> render_formatting_token (codes "<|message|>")
            >=> render_contents msg.content
            >=> (if is_call msg
                then render_formatting_token (codes "<|call|>")
                else render_formatting_token (codes "<|end|>")))
          []

    unfoldable pub render_message_into : Message → Step
    render_message_into msg =
        emit enc.id_start
        >=> check_author msg
        >=> header_joined msg
        >=> (if is_empty msg.channel then skip else emit enc.id_channel >=> render_text msg.channel)
        >=> content_type_part msg
        >=> emit enc.id_message
        >=> render_contents msg.content
        >=> (if is_call msg then emit enc.id_call else emit enc.id_end)

  -- `Render` of one message, with the options of a conversation without functions.
  unfoldable pub render : Library → Message → Result RenderError (List ℕ)
  render lib msg = render_message lib false msg
