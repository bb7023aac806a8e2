-- ===== src/Render/Tests.antt =====
-- A vocabulary of the 256 bytes, and a conversation with a call of a function: the theorems at them.
mod Vocabulary
use harmony_go.Prelude.{
  ◌&&◌, ℕ, zero, suc, ◌≤◌, ◌<◌, ◌≡◌, ◌≢◌, refl, ap, Bool, true, false, List, [], ◌∷◌, Bytes, codes,
  inl, inr, arith, ◌==◌, ==_iff, All, In, map, none, some, Bool-cases, ok, err, bytes_eq,
}
use harmony_go.Tokenizer.Utf8.{Tables}
use harmony_go.Tokenizer.Store.{Pairs}
use harmony_go.Tokenizer.Core.Build.{DistinctIds}
use harmony_go.Tokenizer.Core.Loaded.{IsComplete}
use harmony_go.Types.{Content, Message, role_user, role_assistant, content_text, content_system}
use harmony_go.Encoding.{Encoding}
use harmony_go.Sections.{Library}
use harmony_go.Parser.{parse_messages}
use harmony_go.Render.Spec.{
  IsFine, IsWritable, message_error, message_text, HasError, contents_error, content_error,
  text_of_content,
}
use harmony_go.Render.Conversation.{Schedule, render_conversation}
use harmony_go.Render.Outcome.{
  expected_error, kept_messages, tools_of, indices_of, IsWritableConversation, text_of_conversation,
  render_conversation-text, render_conversation-error,
}
use harmony_go.Prelude.{◌++◌}
use harmony_go.Render.Tests.Vocabulary.{byte_pairs, byte_pairs-IsComplete}
use harmony_go.Tokenizer.Loader.RoundTrip.{print_pairs}
use harmony_go.Render.Loaded.{load_encoding, harmony_gpt_oss, parse_messages-load_encoding}
use harmony_go.Render.Tests.Vocabulary.{byte_pairs-IsEntry}
use harmony_go.Render.Chat.{IsChat}
use harmony_go.Render.Chat.RoundTrip.{parse_messages-chat}
use harmony_go.Header.{is_empty}
use harmony_go.Render.Training.{EndsAs, parse_messages-render_conversation_for_training}
use harmony_go.Render.Completion.{render_conversation_for_completion-text}
use harmony_go.Render.Conversation.{
  render_conversation_for_training, render_conversation_for_completion,
}
use harmony_go.Render.Loaded.{load_o200k-IsSeparate}
use harmony_go.Parser.{last_message}
use harmony_go.Encoding.Select.{is_assistant}
use harmony_go.Encoding.Select.{
  is_final, is_analysis, is_assistant, declares_functions, any_functions, scan_message, scan, drops,
  select_from, render_idx,
}
use harmony_go.Encoding.Select.Kept.{kept, without_analysis, ends_final}
use harmony_go.Render.{RenderError, nil_system, render_message, render_message_into}
use harmony_go.Render.Agree.{decoded, text_or_error, decoded-render_message, render_message-agrees}
use harmony_go.Tokenizer.Core.Decode.{DecodesTo}
use harmony_go.Render.RoundTrip.{read_back}
use harmony_go.Render.Loaded.{load_o200k, load_o200k-IsHarmony, parse_messages-load_o200k}

abbrev no_tables : Tables
no_tables = record { letter = λ r. false; number = λ r. false }

-- A library that can read no document.
abbrev no_library : Library
no_library = record { unmarshal = λ s. none; to_lower_unicode = λ s. s }

abbrev text_content : Bytes → Content
text_content s = record { kind = content_text; text = s; system = none; developer = none }

abbrev question : Message
question = record {
  author = record { role = role_user; name = [] };
  recipient = [];
  content = text_content (codes "hi") ∷ [];
  channel = [];
  content_type = [];
}

abbrev call : Message
call = record {
  author = record { role = role_assistant; name = [] };
  recipient = codes "functions.f";
  content = text_content (codes "{}") ∷ [];
  channel = codes "commentary";
  content_type = codes "<|constrain|>json";
}

abbrev talk : List Message
talk = question ∷ call ∷ []

-- Both messages are rendered at once, the second one first.
abbrev both : Schedule
both = record { parallel = true; order = 1 ∷ 0 ∷ [] }

abbrev loaded : Encoding
loaded = load_o200k no_tables (byte_pairs 256)

kept_talk : kept_messages talk none ≡ talk
unfolding is_final is_analysis is_assistant any_functions declares_functions scan scan_message kept
    without_analysis ends_final bytes_eq
kept_talk = refl

question-IsWritable : (tools : Bool) → IsWritable no_library tools question
unfolding text_of_content bytes_eq
question-IsWritable tools = record {
  role_bytes = omega arith;
  name_bytes = tt;
  recipient_bytes = tt;
  channel_bytes = tt;
  content_type_bytes = tt;
  contents_bytes = (omega arith, tt);
}

call-IsWritable : (tools : Bool) → IsWritable no_library tools call
unfolding text_of_content bytes_eq
call-IsWritable tools = record {
  role_bytes = omega arith;
  name_bytes = tt;
  recipient_bytes = omega arith;
  channel_bytes = omega arith;
  content_type_bytes = omega arith;
  contents_bytes = (omega arith, tt);
}

question-IsFine : IsFine question
unfolding message_error contents_error content_error bytes_eq is_empty
question-IsFine = refl

call-IsFine : IsFine call
unfolding message_error contents_error content_error bytes_eq is_empty
call-IsFine = refl

talk-IsWritable : IsWritableConversation no_library talk none
talk-IsWritable = rw kept_talk (question-IsWritable _, (call-IsWritable _, tt))

talk-IsFine : All IsFine (kept_messages talk none)
talk-IsFine = rw kept_talk (question-IsFine, (call-IsFine, tt))

talk_indices : indices_of talk none ≡ 0 ∷ 1 ∷ []
unfolding render_idx select_from drops is_final is_analysis is_assistant any_functions
    declares_functions scan scan_message bytes_eq
talk_indices = refl

both_known : All (λ i. In i (indices_of talk none)) both.order
both_known = rw talk_indices (inr (inl refl), (inl refl, tt))

both_all : All (λ i. In i both.order) (indices_of talk none)
both_all = rw talk_indices (inr (inl refl), (inl refl, tt))

parse_messages-load_encoding_example :
    (enc : Encoding) × (toks : List ℕ) × (load_encoding no_tables harmony_gpt_oss
        (print_pairs (byte_pairs 256))
      ≡ ok enc)
    × (render_conversation enc no_library both talk none ≡ ok toks)
    × (parse_messages enc toks none
        ≡ some (map (read_back no_library (tools_of talk)) (kept_messages talk none)))
parse_messages-load_encoding_example =
    parse_messages-load_encoding no_tables (byte_pairs 256) no_library both talk none
      byte_pairs-IsComplete (byte_pairs-IsEntry 256 (omega arith)) talk-IsWritable talk-IsFine
      both_known

render_conversation-text_example :
    (toks : List ℕ) × (render_conversation loaded no_library both talk none ≡ ok toks)
    × DecodesTo loaded.bpe toks (text_of_conversation no_library talk none)
render_conversation-text_example =
    render_conversation-text loaded
      (load_o200k-IsHarmony no_tables (byte_pairs 256) byte_pairs-IsComplete) no_library both talk
      none talk-IsWritable talk-IsFine both_known

decoded-render_message_example :
    decoded loaded.bpe (render_message loaded no_library false call)
    ≡ text_or_error (message_error call) (message_text no_library false call)
decoded-render_message_example =
    decoded-render_message loaded
      (load_o200k-IsHarmony no_tables (byte_pairs 256) byte_pairs-IsComplete) no_library false call
      (call-IsWritable false)

render_message-agrees_example :
    decoded loaded.bpe (render_message loaded no_library false call)
    ≡ decoded loaded.bpe (render_message_into loaded no_library false call [])
render_message-agrees_example =
    render_message-agrees loaded
      (load_o200k-IsHarmony no_tables (byte_pairs 256) byte_pairs-IsComplete) no_library false call
      (call-IsWritable false)

-- A message whose system content is missing.
abbrev broken : Message
broken = record question {
  content = record { kind = content_system; text = []; system = none; developer = none } ∷ [];
}

broken-IsWritable : (tools : Bool) → IsWritable no_library tools broken
unfolding text_of_content bytes_eq
broken-IsWritable tools = record {
  role_bytes = omega arith;
  name_bytes = tt;
  recipient_bytes = tt;
  channel_bytes = tt;
  content_type_bytes = tt;
  contents_bytes = (tt, tt);
}

abbrev broken_talk : List Message
broken_talk = question ∷ broken ∷ []

kept_broken : kept_messages broken_talk none ≡ broken_talk
unfolding is_final is_analysis is_assistant any_functions declares_functions scan scan_message kept
    without_analysis ends_final bytes_eq
kept_broken = refl

broken_indices : indices_of broken_talk none ≡ 0 ∷ 1 ∷ []
unfolding render_idx select_from drops is_final is_analysis is_assistant any_functions
    declares_functions scan scan_message bytes_eq
broken_indices = refl

broken_error : message_error broken ≡ some nil_system
unfolding message_error contents_error content_error bytes_eq is_empty
broken_error = refl

render_conversation-error_example :
    (e : RenderError) × (render_conversation loaded no_library both broken_talk none ≡ err e)
    × HasError (kept_messages broken_talk none) e
    × (expected_error both broken_talk none ≡ some e)
render_conversation-error_example =
    render_conversation-error loaded
      (load_o200k-IsHarmony no_tables (byte_pairs 256) byte_pairs-IsComplete) no_library both
      broken_talk none broken nil_system
      (rw kept_broken (question-IsWritable _, (broken-IsWritable _, tt)))
      (rw kept_broken (inr (inl refl))) broken_error
      (rw broken_indices (inr (inl refl), (inl refl, tt)))
      (rw broken_indices (inr (inl refl), (inl refl, tt)))

abbrev answer : Message
answer = record {
  author = record { role = role_assistant; name = [] };
  recipient = [];
  content = text_content (codes "yes") ∷ [];
  channel = codes "final";
  content_type = [];
}

answer-IsWritable : (tools : Bool) → IsWritable no_library tools answer
unfolding text_of_content bytes_eq
answer-IsWritable tools = record {
  role_bytes = omega arith;
  name_bytes = tt;
  recipient_bytes = tt;
  channel_bytes = omega arith;
  content_type_bytes = tt;
  contents_bytes = (omega arith, tt);
}

answer-IsFine : IsFine answer
unfolding message_error contents_error content_error bytes_eq is_empty
answer-IsFine = refl

abbrev finished : List Message
finished = question ∷ answer ∷ []

finished_last : last_message finished ≡ some answer
unfolding last_message
finished_last = refl

kept_finished : kept_messages finished none ≡ finished
unfolding is_final is_analysis is_assistant kept without_analysis ends_final bytes_eq
kept_finished = refl

-- One message behind the other.
abbrev in_turn : Schedule
in_turn = record { parallel = false; order = [] }

parse_messages-render_conversation_for_training_example :
    (plain : List ℕ) × (toks : List ℕ) × (render_conversation loaded no_library in_turn finished
        none
      ≡ ok plain)
    × (render_conversation_for_training loaded no_library in_turn finished none ≡ ok toks)
    × EndsAs (is_assistant answer && is_final answer) loaded.id_return plain toks
    × (parse_messages loaded toks none
        ≡ some (map (read_back no_library (tools_of finished)) (kept_messages finished none)))
parse_messages-render_conversation_for_training_example =
    parse_messages-render_conversation_for_training loaded
      (load_o200k-IsHarmony no_tables (byte_pairs 256) byte_pairs-IsComplete)
      (load_o200k-IsSeparate no_tables (byte_pairs 256) byte_pairs-IsComplete) no_library in_turn
      finished none answer finished_last
      (rw kept_finished (question-IsWritable _, (answer-IsWritable _, tt)))
      (rw kept_finished (question-IsFine, (answer-IsFine, tt))) tt

render_conversation_for_completion-text_example :
    (toks : List ℕ) × (render_conversation_for_completion loaded no_library both talk role_assistant
        none
      ≡ ok toks)
    × DecodesTo loaded.bpe toks
        ((text_of_conversation no_library talk none ++ codes "<|start|>") ++ role_assistant)
render_conversation_for_completion-text_example =
    render_conversation_for_completion-text loaded
      (load_o200k-IsHarmony no_tables (byte_pairs 256) byte_pairs-IsComplete) no_library both talk
      role_assistant none talk-IsWritable talk-IsFine both_known (omega arith)

finished-IsChat : All IsChat finished
finished-IsChat = (
  (role_user, [], codes "hi", inl refl, inl refl, omega arith, refl),
  (
    (
      role_assistant,
      codes "final",
      codes "yes",
      inr (inl refl),
      inr (inr (inr (inl refl))),
      omega arith,
      refl,
    ),
    tt,
  ),
)

parse_messages-chat_example :
    (toks : List ℕ) × (render_conversation loaded no_library in_turn finished none ≡ ok toks)
    × (parse_messages loaded toks none ≡ some (kept_messages finished none))
parse_messages-chat_example =
    parse_messages-chat no_tables (byte_pairs 256) no_library in_turn finished none
      byte_pairs-IsComplete finished-IsChat tt
