-- ===== src/Render/Chat/RoundTrip.antt =====
-- What the parser reads from a rendered chat is the chat.
use harmony_go.Prelude.{
  ℕ, ◌≡◌, refl, ap, ◌∙◌, Bool, false, ◌&&◌, List, [], ◌∷◌, Option, none, some, Bytes, ok,
  Bool-cases, inl, inr, arith, All, In, map, append-nil, bytes_eq,
}
use harmony_go.Tokenizer.Utf8.{Tables}
use harmony_go.Parser.{open_message}
use harmony_go.Render.Spec.{texts_of_contents, text_of_content, contents_error, content_error}
use harmony_go.Tokenizer.Segmenter.Contraction.{IsBytes}
use harmony_go.Tokenizer.Store.{Pairs}
use harmony_go.Tokenizer.Core.Loaded.{IsComplete}
use harmony_go.Types.{role_tool, Message}
use harmony_go.Encoding.Select.{is_final, is_analysis}
use harmony_go.Encoding.Select.Kept.{kept, without_analysis, ends_final}
use harmony_go.Sections.{Library}
use harmony_go.Parser.{parse_messages}
use harmony_go.Render.Spec.{IsFine, IsWritable, message_error}
use harmony_go.Render.Conversation.{Schedule, render_conversation}
use harmony_go.Render.Outcome.{kept_messages, tools_of, indices_of}
use harmony_go.Render.RoundTrip.{read_back}
use harmony_go.Render.Loaded.{load_o200k, parse_messages-load_o200k}
use harmony_go.Render.Chat.{chat, chat_roles, chat_channels, IsChat}
use harmony_go.Render.Chat.Headers.{parse_header_text-chat}

without_analysis-All :
    (P : Message → Type 0) (msgs : List Message) → All P msgs → All P (without_analysis msgs)
without_analysis-All P [] h = unfold without_analysis in tt
without_analysis-All P (m ∷ msgs) (p, h) =
    let rest = without_analysis-All P msgs h in
    elim (Bool-cases (is_final m)) [
      | inl e ↦
          let here : without_analysis (m ∷ msgs) ≡ m ∷ msgs = unfold without_analysis in rw e in
          rw here (p, h)
      | inr e ↦ elim (Bool-cases (is_analysis m)) [
        | inl e' ↦
            let here : without_analysis (m ∷ msgs) ≡ without_analysis msgs =
              unfold without_analysis in rw (e, e') in
            rw here rest
        | inr e' ↦
            let here : without_analysis (m ∷ msgs) ≡ m ∷ without_analysis msgs =
              unfold without_analysis in rw (e, e') in
            rw here (p, rest)
      ]
    ]

kept-All :
    (P : Message → Type 0) (drop : Bool) (msgs : List Message) → All P msgs → All P (kept drop msgs)
kept-All P drop msgs h = elim (Bool-cases (drop && ends_final false msgs)) [
  | inl e ↦
      let here : kept drop msgs ≡ without_analysis msgs = unfold kept in rw e in
      rw here (without_analysis-All P msgs h)
  | inr e ↦ let here : kept drop msgs ≡ msgs = unfold kept in rw e in rw here h
]

chat_role-IsBytes : (role : Bytes) → In role chat_roles → IsBytes role
chat_role-IsBytes role (inl e) = rw e (omega arith)
chat_role-IsBytes role (inr (inl e)) = rw e (omega arith)
chat_role-IsBytes role (inr (inr (inl e))) = rw e (omega arith)
chat_role-IsBytes role (inr (inr (inr (inl e)))) = rw e (omega arith)
chat_role-IsBytes role (inr (inr (inr (inr no_more)))) = absurd no_more

chat_channel-IsBytes : (channel : Bytes) → In channel chat_channels → IsBytes channel
chat_channel-IsBytes channel (inl e) = rw e tt
chat_channel-IsBytes channel (inr (inl e)) = rw e (omega arith)
chat_channel-IsBytes channel (inr (inr (inl e))) = rw e (omega arith)
chat_channel-IsBytes channel (inr (inr (inr (inl e)))) = rw e (omega arith)
chat_channel-IsBytes channel (inr (inr (inr (inr no_more)))) = absurd no_more

role_is_no_tool : (role : Bytes) → In role chat_roles → bytes_eq role role_tool ≡ false
unfolding bytes_eq
role_is_no_tool role (inl e) = rw e
role_is_no_tool role (inr (inl e)) = rw e
role_is_no_tool role (inr (inr (inl e))) = rw e
role_is_no_tool role (inr (inr (inr (inl e)))) = rw e
role_is_no_tool role (inr (inr (inr (inr no_more)))) = absurd no_more

chat_contents_fine : (role channel s : Bytes) → contents_error (chat role channel s).content ≡ none
unfolding contents_error content_error bytes_eq
chat_contents_fine role channel s = refl

chat-IsFine : (role channel s : Bytes) → In role chat_roles → IsFine (chat role channel s)
unfolding message_error
chat-IsFine role channel s r = rw (role_is_no_tool role r) (chat_contents_fine role channel s)

module _ (lib : Library) (tools : Bool) where
  chat_text :
      (role channel s : Bytes) → texts_of_contents lib tools (chat role channel s).content ≡ s
  unfolding texts_of_contents text_of_content bytes_eq
  chat_text role channel s = append-nil s

  read_back-chat :
      (role channel s : Bytes)
      → In role chat_roles
      → In channel chat_channels
      → read_back lib tools (chat role channel s) ≡ chat role channel s
  read_back-chat role channel s r c =
      unfold read_back open_message in
      rw (parse_header_text-chat role channel s r c, chat_text role channel s)

  chat-IsWritable :
      (role channel s : Bytes)
      → In role chat_roles
      → In channel chat_channels
      → IsBytes s
      → IsWritable lib tools (chat role channel s)
  unfolding texts_of_contents text_of_content bytes_eq
  chat-IsWritable role channel s r c b = record {
    role_bytes = chat_role-IsBytes role r;
    name_bytes = tt;
    recipient_bytes = tt;
    channel_bytes = chat_channel-IsBytes channel c;
    content_type_bytes = tt;
    contents_bytes = (b, tt);
  }

  AllChat-IsWritable : (ms : List Message) → All IsChat ms → All (IsWritable lib tools) ms
  AllChat-IsWritable [] h = tt
  AllChat-IsWritable (m ∷ ms) ((role, channel, t, r, c, b, e), h) =
      (rw e (chat-IsWritable role channel t r c b), AllChat-IsWritable ms h)

  AllChat-read_back : (ms : List Message) → All IsChat ms → map (read_back lib tools) ms ≡ ms
  AllChat-read_back [] h = refl
  AllChat-read_back (m ∷ ms) ((role, channel, t, r, c, b, e), h) =
      let here : read_back lib tools m ≡ m = rw e (read_back-chat role channel t r c) in
      rw (here, AllChat-read_back ms h)

AllChat-IsFine : (ms : List Message) → All IsChat ms → All IsFine ms
AllChat-IsFine [] h = tt
AllChat-IsFine (m ∷ ms) ((role, channel, t, r, c, b, e), h) =
    (rw e (chat-IsFine role channel t r), AllChat-IsFine ms h)

-- Over a complete vocabulary: a conversation whose messages have a role other than a tool's and no
-- name, one of the channels or none, no recipient, no content type and one text of bytes is
-- rendered, and what the parser reads from its tokens are exactly the messages that are kept, in
-- order, whichever path is taken and in whatever order the goroutines finish.
pub parse_messages-chat :
    (tables : Tables) (pairs : Pairs) (lib : Library) (s : Schedule) (msgs : List Message)
    (cfg : Option Bool)
    → IsComplete pairs
    → All IsChat msgs
    → All (λ i. In i (indices_of msgs cfg)) s.order
    → (toks : List ℕ) × (render_conversation (load_o200k tables pairs) lib s msgs cfg ≡ ok toks)
      × (parse_messages (load_o200k tables pairs) toks none ≡ some (kept_messages msgs cfg))
parse_messages-chat tables pairs lib s msgs cfg complete chats h =
    let those = kept-All IsChat _ msgs chats in
    let (toks, run, read) =
      parse_messages-load_o200k tables pairs complete lib s msgs cfg
        (AllChat-IsWritable lib (tools_of msgs) _ those) (AllChat-IsFine _ those) h in
    (toks, run, read ∙ ap some (AllChat-read_back lib (tools_of msgs) _ those))
