-- ===== src/Render/Chat.antt =====
-- Messages of a chat, with a known role, a known channel or none, and one text.
pub mod Headers
pub mod RoundTrip
use harmony_go.Prelude.{
  ℕ, ◌≡◌, refl, sym, ap, ◌∙◌, Bool, true, false, ◌&&◌, List, [], ◌∷◌, ◌++◌, Option, none, some,
  Bytes, codes, Result, ok, err, Bool-cases, inl, inr, arith, All, In, map, append-nil, bytes_eq,
  if◌then◌else◌,
}
use harmony_go.Tokenizer.Utf8.{Tables}
use harmony_go.Encoding.Estimate.{needs_recipient}
use harmony_go.Header.{
  normalize_header, set_apart, split_leading_token, token_end, detect_role_and_author, detect_role,
  has_role, author_name, tool_name, is_empty, next_value_token, extract_recipient, extract_channel,
  scrub_content_type, strip_recipient, strip_role, strip_channels, strip_channel_at,
}
use harmony_go.Text.{
  has_prefix, index, index_byte, contains, replace_from, replace_all, trim_left, space_at_end,
  trim_right, trim_space,
}
use harmony_go.Tokenizer.Utf8.{decode_rune, decode_two, decode_three, is_space}
use harmony_go.Parser.{ParsedHeader, parse_header_text, header_author, open_message}
use harmony_go.Render.Spec.{
  header_text, author_text, recipient_text, channel_text, content_type_text, texts_of_contents,
  text_of_content, contents_error, content_error,
}
use harmony_go.Tokenizer.Segmenter.Contraction.{IsBytes}
use harmony_go.Tokenizer.Store.{Pairs}
use harmony_go.Tokenizer.Core.Loaded.{IsComplete}
use harmony_go.Types.{
  role_user, role_assistant, role_system, role_developer, role_tool, content_text, Message,
}
use harmony_go.Encoding.Select.{is_final, is_analysis}
use harmony_go.Encoding.Select.Kept.{kept, without_analysis, ends_final}
use harmony_go.Sections.{Library}
use harmony_go.Parser.{parse_header_text, ParsedHeader, parse_messages}
use harmony_go.Render.Spec.{
  recipient_text, author_text, header_text, IsFine, IsWritable, message_error,
}
use harmony_go.Render.Conversation.{Schedule, render_conversation}
use harmony_go.Render.Outcome.{kept_messages, tools_of, indices_of}
use harmony_go.Render.RoundTrip.{read_back}
use harmony_go.Render.Loaded.{load_o200k, parse_messages-load_o200k}

abbrev pub chat : Bytes → Bytes → Bytes → Message
chat role channel s = record {
  author = record { role = role; name = [] };
  recipient = [];
  content = record { kind = content_text; text = s; system = none; developer = none } ∷ [];
  channel = channel;
  content_type = [];
}

abbrev pub chat_roles : List Bytes
chat_roles = role_user ∷ role_assistant ∷ role_system ∷ role_developer ∷ []

abbrev pub chat_channels : List Bytes
chat_channels = [] ∷ codes "analysis" ∷ codes "commentary" ∷ codes "final" ∷ []

-- A message of a chat.
abbrev pub IsChat : Message → Type 0
IsChat m =
    (role : Bytes) × (channel : Bytes) × (s : Bytes) × In role chat_roles
    × In channel chat_channels
    × IsBytes s
    × (m ≡ chat role channel s)
