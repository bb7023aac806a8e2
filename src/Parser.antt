-- ===== src/Parser.antt =====
-- parser.go: the stream parser.
pub mod Steps
pub mod Framing
pub mod History
pub mod Delta
pub mod Unfinished
pub mod Tests
use harmony_go.Prelude.{
  ℕ, Bool, true, false, ◌&&◌, List, [], ◌∷◌, ◌++◌, Option, none, some, Bytes, codes, bytes_eq, ◌==◌,
  if◌then◌else◌, length,
}
use harmony_go.Tokenizer.Core.{decode_bytes_into, decode_utf8}
use harmony_go.Types.{Role, role_tool, Author, Content, content_text, Message}
use harmony_go.Header.{
  normalize_header, split_leading_token, detect_role_and_author, extract_channel, extract_recipient,
  scrub_content_type, is_empty,
}
use harmony_go.Encoding.{Encoding, tok_start, tok_message, is_member}

pub data StreamState : Type 0 where
  expect_start : StreamState
  header : StreamState
  content : StreamState

-- The errors of the parser: a token before `<|start|>`, and a token that the core cannot decode.
pub data ParseError : Type 0 where
  unexpected_token : ParseError
  unknown_token : ParseError

pub record ParsedHeader : Type 0 where
  pub author : Author
  pub recipient : Bytes
  pub channel : Bytes
  pub content_type : Bytes

-- The fields of the Go struct without the scratch buffer, which is emptied before each use.
pub record StreamParser : Type 0 where
  pub enc : Encoding
  pub next_role : Option Role
  pub state : StreamState
  pub tokens : List ℕ
  pub messages : List Message
  pub header_toks : List ℕ
  pub content_toks : List ℕ
  pub last_delta_bytes : Bytes

unfoldable pub new_stream_parser : Encoding → Option Role → StreamParser
new_stream_parser enc role = record {
  enc = enc;
  next_role = role;
  state = elim role [ none ↦ expect_start | some r ↦ header ];
  tokens = [];
  messages = [];
  header_toks = [];
  content_toks = [];
  last_delta_bytes = [];
}

-- The author of a header: a hint for the role replaces the one that the header shows.
unfoldable pub header_author : Option Role → Role × Bytes → Author
header_author none (role, name) = record { role = role; name = name }
header_author (some hint) (role, name) = record { role = hint; name = name }

-- `parseHeaderFromTokens` behind the decoding. Its second look at the name of a tool writes the
-- name that is there.
unfoldable pub parse_header_text : Option Role → Bytes → ParsedHeader
parse_header_text hint text =
    let s = normalize_header text in
    let (role_token, remainder) = split_leading_token s in
    record {
      author = header_author hint (detect_role_and_author role_token remainder);
      recipient = extract_recipient s;
      channel = extract_channel s;
      content_type = scrub_content_type role_token remainder;
    }

unfoldable pub parse_header_from_tokens : StreamParser → List ℕ → Option ParsedHeader
parse_header_from_tokens p toks = elim (decode_utf8 p.enc.bpe toks) [
  | none ↦ none
  | some text ↦ some (parse_header_text p.next_role text)
]

-- The placeholder of a message, whose content follows.
unfoldable pub open_message : ParsedHeader → Message
open_message h = record {
  author = h.author;
  recipient = h.recipient;
  content = [];
  channel = h.channel;
  content_type = h.content_type;
}

-- `p.messages[idx].Content = []Content{{Type: ContentText, Text: text}}` at the last index.
unfoldable pub set_last_content : List Message → Bytes → List Message
set_last_content [] text = []
set_last_content (m ∷ []) text =
    record m {
      content = record { kind = content_text; text = text; system = none; developer = none } ∷ [];
    }
    ∷ []
set_last_content (m ∷ n ∷ ms) text = m ∷ set_last_content (n ∷ ms) text

-- A step gives the parser behind it, and the error that it returned.
abbrev pub Outcome : Type 0
Outcome = StreamParser × Option ParseError

unfoldable pub finalize_message : StreamParser → Outcome
finalize_message p = elim p.messages [
  | [] ↦ (p, none)
  | m ∷ ms ↦ elim (decode_utf8 p.enc.bpe p.content_toks) [
    | none ↦ (p, some unknown_token)
    | some text ↦ (
      record p { messages = set_last_content p.messages text; header_toks = []; content_toks = [] },
      none,
    )
  ]
]

unfoldable pub process_start : StreamParser → ℕ → Outcome
process_start p token =
    if token == tok_start
    then (record p { header_toks = []; state = header }, none)
    else (p, some unexpected_token)

unfoldable pub close_header : StreamParser → Outcome
close_header p = elim (parse_header_from_tokens p p.header_toks) [
  | none ↦ (p, some unknown_token)
  | some h ↦ (
    record p {
      next_role = none;
      content_toks = [];
      messages = p.messages ++ open_message h ∷ [];
      state = content;
    },
    none,
  )
]

unfoldable pub process_header : StreamParser → ℕ → Outcome
process_header p token =
    if token == tok_start
    then (p, none)
    else if token == tok_message
    then close_header p
    else (record p { header_toks = p.header_toks ++ token ∷ [] }, none)

-- The stop of a message: the state moves on unless the content cannot be decoded.
unfoldable pub close_message : StreamParser → Outcome
close_message p =
    let (q, err) = finalize_message p in
    elim err [ some e ↦ (q, some e) | none ↦ (record q { state = expect_start }, none) ]

unfoldable pub add_content : StreamParser → ℕ → Outcome
add_content p token =
    let q = record p { content_toks = p.content_toks ++ token ∷ [] } in
    elim (decode_bytes_into p.enc.bpe [] (token ∷ [])) [
      | none ↦ (q, some unknown_token)
      | some delta ↦ (record q { last_delta_bytes = delta }, none)
    ]

unfoldable pub process_content : StreamParser → ℕ → Outcome
process_content p token =
    if is_member p.enc.stop_all token then close_message p else add_content p token

-- `switch p.state`
unfoldable pub dispatch : StreamState → StreamParser → ℕ → Outcome
dispatch expect_start p token = process_start p token
dispatch header p token = process_header p token
dispatch content p token = process_content p token

unfoldable pub process : StreamParser → ℕ → Outcome
process p token = dispatch p.state (record p { tokens = p.tokens ++ token ∷ [] }) token

unfoldable pub process_eos : StreamParser → Outcome
process_eos p = elim p.state [
  | content ↦ finalize_message p
  | expect_start ↦ (p, none)
  | header ↦ (p, none)
]

-- The loop of `ParseMessagesFromCompletionTokens`, left at the first error.
unfoldable pub process_all : StreamParser → List ℕ → Outcome
process_all p [] = (p, none)
process_all p (t ∷ tokens) =
    let (q, err) = process p t in elim err [ some e ↦ (q, some e) | none ↦ process_all q tokens ]

-- `none` is an error.
unfoldable pub parse_messages : Encoding → List ℕ → Option Role → Option (List Message)
parse_messages enc tokens role =
    let (p, err) = process_all (new_stream_parser enc role) tokens in
    elim err [
      | some e ↦ none
      | none ↦ let (q, err) = process_eos p in elim err [ some e ↦ none | none ↦ some q.messages ]
    ]

-- The last message.
unfoldable pub last_message : List Message → Option Message
last_message [] = none
last_message (m ∷ []) = some m
last_message (m ∷ n ∷ ms) = last_message (n ∷ ms)

-- The message that is open: the last one, in the state of content.
unfoldable pub open_of : StreamParser → Option Message
open_of p = elim p.state [ content ↦ last_message p.messages | expect_start ↦ none | header ↦ none ]

unfoldable pub current_role : StreamParser → Option Role
current_role p = elim p.state [
  | content ↦ elim (last_message p.messages) [ none ↦ none | some m ↦ some m.author.role ]
  | expect_start ↦ p.next_role
  | header ↦ p.next_role
]

unfoldable pub current_content : StreamParser → Bytes
current_content p = elim p.state [
  | content ↦ elim (decode_utf8 p.enc.bpe p.content_toks) [ none ↦ [] | some s ↦ s ]
  | expect_start ↦ []
  | header ↦ []
]

unfoldable pub current_content_type : StreamParser → Bytes
current_content_type p = elim (open_of p) [ none ↦ [] | some m ↦ m.content_type ]

unfoldable pub current_channel : StreamParser → Bytes
current_channel p = elim (open_of p) [ none ↦ [] | some m ↦ m.channel ]

unfoldable pub current_recipient : StreamParser → Bytes
current_recipient p = elim (open_of p) [ none ↦ [] | some m ↦ m.recipient ]

unfoldable pub last_content_delta : StreamParser → Bytes
last_content_delta p = p.last_delta_bytes
