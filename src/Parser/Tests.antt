-- ===== src/Parser/Tests.antt =====
-- A core whose tokens are bytes, with the markers of the header: runs of the parser, and the
-- theorems at its messages.
use harmony_go.Prelude.{
  bytes_eq, arith, not, suc, ℕ, ◌≡◌, refl, List, [], ◌∷◌, ◌++◌, Option, none, some, Bytes, codes,
  ltb, ◌==◌, if◌then◌else◌, map, concat, All,
}
use harmony_go.Tokenizer.Store.{
  fill, new_heap_store, heap_append_into, heap_token_store, Pairs, TokenStore,
}
use harmony_go.Tokenizer.Core.{CoreBpe, decode_bytes_into, decode_bytes, decode_utf8}
use harmony_go.Types.{Role, role_user, role_assistant}
use harmony_go.Encoding.{
  Encoding, make_encoding, is_member, tok_channel, tok_constrain, tok_end, tok_call, tok_start,
  tok_message,
}
use harmony_go.Text.{
  has_prefix, index, index_byte, contains, replace_from, replace_all, trim_left, space_at_end,
  trim_right, trim_space,
}
use harmony_go.Tokenizer.Utf8.{decode_rune, decode_two, decode_three, is_space}
use harmony_go.Header.{
  normalize_header, set_apart, split_leading_token, token_end, detect_role_and_author, detect_role,
  has_role, author_name, tool_name, is_empty, next_value_token, extract_recipient, extract_channel,
  scrub_content_type, strip_recipient, strip_role, strip_channels, strip_channel_at,
}
use harmony_go.Parser.{
  ParsedHeader, parse_header_text, header_author, Bool, true, content, StreamParser, parse_messages,
  new_stream_parser, process,
}
use harmony_go.Prelude.{◌&&◌, not, Bool, true, arith}
use harmony_go.Parser.History.{Reached, IsSound, fed_one, made, Reached-IsSound}
use harmony_go.Parser.Unfinished.{
  open_tokens, header_of, Shows, open_step-Shows, parse_messages-unfinished,
}
use harmony_go.Parser.Framing.{IsReady}
use harmony_go.Parser.{process_all}
use harmony_go.Parser.Delta.{gather, decode_utf8-gather}
use harmony_go.Tokenizer.Store.{Pairs, fill, put_first, max_id, heap_token_store}
use harmony_go.Tokenizer.Store.Lookup.{heap_token_store-Reads}
use harmony_go.Parser.Framing.{
  IsHeaderToken, IsContentToken, IsHeaderToken, Frame, IsFrame, frame_tokens, frame_message,
  parse_messages-frames,
}

abbrev byte_store : TokenStore
byte_store = record { append_into = λ dst id. if ltb id 256 then some (dst ++ id ∷ []) else none }

abbrev byte_core : CoreBpe
byte_core = record {
  enc = [];
  dec = byte_store;
  special_enc = [];
  special_dec = (tok_channel, codes "<|channel|>") ∷ (tok_constrain, codes "<|constrain|>") ∷ [];
  seg = record { next = λ s i. suc i };
}

unfoldable byte_encoding : Encoding
unfolding make_encoding
byte_encoding = make_encoding (codes "bytes") byte_core

abbrev call_frame : Frame
call_frame = record {
  header_toks =
      codes "assistant to=functions.f"
      ++ tok_channel ∷ (codes "commentary " ++ tok_constrain ∷ codes "json");
  content_toks = codes "{}";
  stop = tok_call;
  header_text = codes "assistant to=functions.f<|channel|>commentary <|constrain|>json";
  content_text = codes "{}";
}

abbrev user_frame : Frame
user_frame = record {
  header_toks = codes "user:ann";
  content_toks = codes "hi";
  stop = tok_end;
  header_text = codes "user:ann";
  content_text = codes "hi";
}

-- The tokens of a header, tested one by one.
abbrev header_test : List ℕ → Bool
header_test [] = true
header_test (t ∷ ts) = not (t == tok_start) && not (t == tok_message) && header_test ts

header_test_sound : (ts : List ℕ) → header_test ts ≡ true → All IsHeaderToken ts
header_test_sound [] h = tt
header_test_sound (t ∷ ts) h =
    (((ground arith), (ground arith)), header_test_sound ts (ground arith))

user_frame-IsFrame : IsFrame byte_encoding user_frame
unfolding byte_encoding decode_utf8 decode_bytes decode_bytes_into is_member
user_frame-IsFrame = record {
  headers = header_test_sound (codes "user:ann") refl;
  contents = ((refl, _, refl), ((refl, _, refl), tt));
  stops = refl;
  header_decodes = refl;
  content_decodes = refl;
}

call_frame-IsFrame : IsFrame byte_encoding call_frame
unfolding byte_encoding decode_utf8 decode_bytes decode_bytes_into is_member
call_frame-IsFrame = record {
  headers = header_test_sound call_frame.header_toks refl;
  contents = ((refl, _, refl), ((refl, _, refl), tt));
  stops = refl;
  header_decodes = refl;
  content_decodes = refl;
}

parse_messages-frames_example :
    parse_messages byte_encoding (concat (map frame_tokens (user_frame ∷ call_frame ∷ []))) none
    ≡ some (map frame_message (user_frame ∷ call_frame ∷ []))
parse_messages-frames_example =
    parse_messages-frames byte_encoding (user_frame ∷ call_frame ∷ [])
      (user_frame-IsFrame, (call_frame-IsFrame, tt))

abbrev half_read : StreamParser
half_read =
    (process (process (new_stream_parser byte_encoding (some role_user)) tok_message).0 b'h').0

half_read-Reached : Reached byte_encoding (some role_user) (tok_message ∷ b'h' ∷ []) half_read
half_read-Reached = fed_one b'h' (fed_one tok_message made)

Reached-IsSound_example : IsSound byte_encoding (tok_message ∷ b'h' ∷ []) half_read
Reached-IsSound_example =
    Reached-IsSound byte_encoding (some role_user) (tok_message ∷ b'h' ∷ []) half_read
      half_read-Reached

abbrev letter_pairs : Pairs
letter_pairs = (codes "h", 0) ∷ (codes "i", 1) ∷ []

abbrev letter_core : CoreBpe
letter_core = record byte_core { dec = heap_token_store letter_pairs }

abbrev letter_parser : StreamParser
letter_parser = record (new_stream_parser (make_encoding (codes "letters") letter_core) none) {
  state = content;
}

letter_tokens : All (IsContentToken letter_parser.enc) (0 ∷ 1 ∷ [])
unfolding make_encoding new_stream_parser is_member decode_bytes_into heap_token_store
    heap_append_into new_heap_store fill put_first max_id
letter_tokens = ((refl, codes "h", refl), ((refl, codes "i", refl), tt))

decode_utf8-gather_example :
    decode_utf8 letter_core (0 ∷ 1 ∷ []) ≡ some (gather letter_parser (0 ∷ 1 ∷ []))
unfolding make_encoding new_stream_parser
decode_utf8-gather_example =
    decode_utf8-gather letter_pairs letter_parser (0 ∷ 1 ∷ []) (heap_token_store-Reads letter_pairs)
      refl letter_tokens

-- The headers of the frames, read.
abbrev read : Option Role → Bytes → ParsedHeader
unfolding parse_header_text normalize_header set_apart contains index has_prefix trim_space
    trim_left trim_right space_at_end decode_rune decode_two decode_three is_space replace_all
    replace_from split_leading_token token_end header_author detect_role_and_author detect_role
    has_role bytes_eq author_name tool_name is_empty next_value_token extract_recipient
    extract_channel scrub_content_type strip_recipient strip_role strip_channels strip_channel_at
    index_byte
read hint text = parse_header_text hint text

read_call : read none call_frame.header_text ≡ record {
  author = record { role = role_assistant; name = [] };
  recipient = codes "functions.f";
  channel = codes "commentary";
  content_type = codes "<|constrain|>json";
}
unfolding read
read_call = refl

read_user :
    (read none user_frame.header_text).author ≡ record { role = role_user; name = codes "ann" }
unfolding read
read_user = refl

-- With a hint for the role, a recipient at the start of the header is lost once there is a channel:
-- trimming takes the space that the search for the recipient looks for.
hinted_recipient_lost :
    (read (some role_assistant) (codes " to=f<|channel|>analysis")).recipient ≡ []
unfolding read
hinted_recipient_lost = refl

-- A content type that begins with the name of a role loses it.
content_type_cut : (read none (codes "assistant userdata")).content_type ≡ codes "data"
unfolding read
content_type_cut = refl

parse_messages-unfinished_example :
    parse_messages byte_encoding
      (concat (map frame_tokens (user_frame ∷ [])) ++ open_tokens call_frame)
      none
    ≡ some (map frame_message (user_frame ∷ []) ++ frame_message call_frame ∷ [])
parse_messages-unfinished_example =
    parse_messages-unfinished byte_encoding (user_frame ∷ []) call_frame (user_frame-IsFrame, tt)
      call_frame-IsFrame

abbrev new_parser : StreamParser
new_parser = new_stream_parser byte_encoding none

new_parser-IsReady : IsReady new_parser
unfolding new_stream_parser
new_parser-IsReady = record { waits = refl; no_hint = refl }

new_parser-call : IsFrame new_parser.enc call_frame
unfolding new_stream_parser
new_parser-call = call_frame-IsFrame

open_step-Shows_example :
    (q : StreamParser) × (process_all new_parser (open_tokens call_frame) ≡ (q, none))
    × Shows q (header_of call_frame) call_frame.content_text
open_step-Shows_example = open_step-Shows call_frame new_parser new_parser-call new_parser-IsReady
