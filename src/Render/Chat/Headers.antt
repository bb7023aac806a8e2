-- ===== src/Render/Chat/Headers.antt =====
-- The headers of chat messages, as the parser reads them.
use harmony_go.Prelude.{◌≡◌, refl, ap, ◌∙◌, [], none, Bytes, codes, inl, inr, In, bytes_eq}
use harmony_go.Encoding.Estimate.{needs_recipient}
use harmony_go.Header.{
  normalize_header, set_apart, split_leading_token, token_end, detect_role_and_author, detect_role,
  has_role, author_name, tool_name, is_empty, next_value_token, extract_recipient, extract_channel,
  scrub_content_type, strip_recipient, strip_role, strip_channels, strip_channel_at,
}
use harmony_go.Text.{
  has_prefix, index, index_byte, contains, replace_from, replace_all, trim_left, space_at_end,
  trim_right, trim_space,
}
use harmony_go.Tokenizer.Utf8.{decode_rune, decode_two, decode_three, is_space}
use harmony_go.Parser.{ParsedHeader, parse_header_text, header_author}
use harmony_go.Render.Spec.{
  header_text, author_text, recipient_text, channel_text, content_type_text,
}
use harmony_go.Types.{role_user, role_assistant, role_system, role_developer}
use harmony_go.Parser.{parse_header_text, ParsedHeader}
use harmony_go.Render.Spec.{recipient_text, author_text, header_text}
use harmony_go.Render.Chat.{chat, chat_roles, chat_channels}

abbrev pub shown : Bytes → Bytes → ParsedHeader
shown role channel = record {
  author = record { role = role; name = [] };
  recipient = [];
  channel = channel;
  content_type = [];
}

-- What the parser reads from the header of a chat message, for runs.
read_header : Bytes → Bytes → ParsedHeader
unfolding header_text author_text recipient_text needs_recipient channel_text content_type_text
    is_empty parse_header_text header_author normalize_header set_apart contains index has_prefix
    replace_all replace_from trim_space trim_left trim_right space_at_end decode_rune decode_two
    decode_three is_space split_leading_token token_end detect_role_and_author detect_role has_role
    author_name tool_name next_value_token extract_recipient extract_channel scrub_content_type
    strip_role strip_recipient strip_channels strip_channel_at index_byte bytes_eq
read_header role channel = parse_header_text none (header_text (chat role channel []))

abbrev Reads : Bytes → Bytes → Type 0
Reads role channel = read_header role channel ≡ shown role channel

-- The header of each role and channel, read by a run.
user_none : Reads role_user []
unfolding read_header
user_none = refl

user_analysis : Reads role_user (codes "analysis")
unfolding read_header
user_analysis = refl

user_commentary : Reads role_user (codes "commentary")
unfolding read_header
user_commentary = refl

user_final : Reads role_user (codes "final")
unfolding read_header
user_final = refl

assistant_none : Reads role_assistant []
unfolding read_header
assistant_none = refl

assistant_analysis : Reads role_assistant (codes "analysis")
unfolding read_header
assistant_analysis = refl

assistant_commentary : Reads role_assistant (codes "commentary")
unfolding read_header
assistant_commentary = refl

assistant_final : Reads role_assistant (codes "final")
unfolding read_header
assistant_final = refl

system_none : Reads role_system []
unfolding read_header
system_none = refl

system_analysis : Reads role_system (codes "analysis")
unfolding read_header
system_analysis = refl

system_commentary : Reads role_system (codes "commentary")
unfolding read_header
system_commentary = refl

system_final : Reads role_system (codes "final")
unfolding read_header
system_final = refl

developer_none : Reads role_developer []
unfolding read_header
developer_none = refl

developer_analysis : Reads role_developer (codes "analysis")
unfolding read_header
developer_analysis = refl

developer_commentary : Reads role_developer (codes "commentary")
unfolding read_header
developer_commentary = refl

developer_final : Reads role_developer (codes "final")
unfolding read_header
developer_final = refl

user_header : (channel : Bytes) → In channel chat_channels → Reads role_user channel
user_header channel (inl e) = rw e user_none
user_header channel (inr (inl e)) = rw e user_analysis
user_header channel (inr (inr (inl e))) = rw e user_commentary
user_header channel (inr (inr (inr (inl e)))) = rw e user_final
user_header channel (inr (inr (inr (inr no_more)))) = absurd no_more

assistant_header : (channel : Bytes) → In channel chat_channels → Reads role_assistant channel
assistant_header channel (inl e) = rw e assistant_none
assistant_header channel (inr (inl e)) = rw e assistant_analysis
assistant_header channel (inr (inr (inl e))) = rw e assistant_commentary
assistant_header channel (inr (inr (inr (inl e)))) = rw e assistant_final
assistant_header channel (inr (inr (inr (inr no_more)))) = absurd no_more

system_header : (channel : Bytes) → In channel chat_channels → Reads role_system channel
system_header channel (inl e) = rw e system_none
system_header channel (inr (inl e)) = rw e system_analysis
system_header channel (inr (inr (inl e))) = rw e system_commentary
system_header channel (inr (inr (inr (inl e)))) = rw e system_final
system_header channel (inr (inr (inr (inr no_more)))) = absurd no_more

developer_header : (channel : Bytes) → In channel chat_channels → Reads role_developer channel
developer_header channel (inl e) = rw e developer_none
developer_header channel (inr (inl e)) = rw e developer_analysis
developer_header channel (inr (inr (inl e))) = rw e developer_commentary
developer_header channel (inr (inr (inr (inl e)))) = rw e developer_final
developer_header channel (inr (inr (inr (inr no_more)))) = absurd no_more

chat_header :
    (role channel : Bytes) → In role chat_roles → In channel chat_channels → Reads role channel
chat_header role channel (inl e) c = rw e (user_header channel c)
chat_header role channel (inr (inl e)) c = rw e (assistant_header channel c)
chat_header role channel (inr (inr (inl e))) c = rw e (system_header channel c)
chat_header role channel (inr (inr (inr (inl e)))) c = rw e (developer_header channel c)
chat_header role channel (inr (inr (inr (inr no_more)))) c = absurd no_more

header_text-chat :
    (role channel s : Bytes)
    → header_text (chat role channel s) ≡ header_text (chat role channel [])
unfolding header_text author_text recipient_text needs_recipient channel_text content_type_text
header_text-chat role channel s = refl

pub parse_header_text-chat :
    (role channel s : Bytes)
    → In role chat_roles
    → In channel chat_channels
    → parse_header_text none (header_text (chat role channel s)) ≡ shown role channel
parse_header_text-chat role channel s r c =
    ap (parse_header_text none) (header_text-chat role channel s)
    ∙ (let run : parse_header_text none (header_text (chat role channel []))
            ≡ read_header role channel =
          unfold read_header in refl in
        run)
    ∙ chat_header role channel r c
