-- ===== src/Render/Loaded.antt =====
-- The encoding that LoadEncoding returns, over the pairs of the vocabulary file.
use harmony_go.Prelude.{
  Bytes, none, ok, bytes_eq, ℕ, ◌≡◌, refl, Bool, List, codes, inl, inr, arith, All, In, map, some,
  Option,
}
use harmony_go.Prelude.{Result, ok, err, bytes_eq, if◌then◌else◌, true}
use harmony_go.Tokenizer.Loader.{LoadError, load_pairs}
use harmony_go.Tokenizer.Loader.RoundTrip.{print_pairs, IsEntry, load_pairs-print_pairs}
use harmony_go.Tokenizer.Utf8.{Tables}
use harmony_go.Tokenizer.Store.{Pairs, heap_token_store}
use harmony_go.Tokenizer.Store.Lookup.{heap_token_store-Reads}
use harmony_go.Tokenizer.Segmenter.{new_o200k_segmenter}
use harmony_go.Tokenizer.Core.Build.{new_core_bpe-IsFaithful}
use harmony_go.Tokenizer.Core.Harmony.{o200k_core, o200k_core_inside}
use harmony_go.Tokenizer.Core.Loaded.{
  IsComplete, loaded-IsVocabulary, literal-DecodesTo, base-below, byte-Known,
}
use harmony_go.Tokenizer.Literals.{harmony_specials, reserved_key, named_specials}
use harmony_go.Encoding.{
  Encoding, make_encoding, is_member, tok_return, tok_constrain, tok_channel, tok_start, tok_end,
  tok_message, tok_call,
}
use harmony_go.Types.{Message}
use harmony_go.Sections.{Library}
use harmony_go.Parser.{parse_messages}
use harmony_go.Render.Texts.{IsHarmony}
use harmony_go.Render.Frames.{IsSeparate}
use harmony_go.Render.Spec.{IsFine}
use harmony_go.Render.Conversation.{Schedule, render_conversation}
use harmony_go.Render.Outcome.{kept_messages, tools_of, indices_of, IsWritableConversation}
use harmony_go.Render.RoundTrip.{read_back, parse_messages-render_conversation}

-- `LoadEncoding` for the name that it knows.
unfoldable pub load_o200k : Tables → Pairs → Encoding
load_o200k tables pairs =
    make_encoding (codes "HarmonyGptOss") (o200k_core tables pairs harmony_specials)

module _ (tables : Tables) (pairs : Pairs) (complete : IsComplete pairs) where
  pub load_o200k-IsHarmony : IsHarmony (load_o200k tables pairs)
  unfolding load_o200k make_encoding named_specials reserved_key bytes_eq
  load_o200k-IsHarmony =
      let literal = literal-DecodesTo tables pairs complete in
      record {
        faithful =
            new_core_bpe-IsFaithful heap_token_store pairs harmony_specials
              (new_o200k_segmenter tables) (heap_token_store-Reads pairs)
              (loaded-IsVocabulary tables pairs complete);
        byte_known = byte-Known tables pairs complete;
        inside = o200k_core_inside tables pairs harmony_specials;
        start_literal =
            literal (codes "<|start|>") tok_start (λ i. refl)
              (inr (inr (inr (inr (inr (inl refl))))));
        message_literal =
            literal (codes "<|message|>") tok_message (λ i. refl)
              (inr (inr (inr (inr (inr (inr (inr (inl refl))))))));
        end_literal =
            literal (codes "<|end|>") tok_end (λ i. refl)
              (inr (inr (inr (inr (inr (inr (inl refl)))))));
        return_literal = literal (codes "<|return|>") tok_return (λ i. refl) (inr (inr (inl refl)));
        call_literal =
            literal (codes "<|call|>") tok_call (λ i. refl)
              (inr (inr (inr (inr (inr (inr (inr (inr (inl refl)))))))));
        constrain_literal =
            literal (codes "<|constrain|>") tok_constrain (λ i. refl) (inr (inr (inr (inl refl))));
        channel_literal =
            literal (codes "<|channel|>") tok_channel (λ i. refl)
              (inr (inr (inr (inr (inl refl)))));
      }

  pub load_o200k-IsSeparate : IsSeparate (load_o200k tables pairs)
  unfolding load_o200k make_encoding is_member
  load_o200k-IsSeparate = record {
    start_eq = refl;
    message_eq = refl;
    base_header = λ t b. let lt = base-below tables pairs complete t b in ground arith;
    base_content = λ t b. let lt = base-below tables pairs complete t b in ground arith;
    constrain_header = (refl, refl);
    channel_header = (refl, refl);
    return_stops = refl;
    end_stops = refl;
    call_stops = refl;
  }

  -- For the encoding over a complete vocabulary: what RenderConversation
  -- returns for messages without errors, the parser reads as the messages that are kept, in order,
  -- each with the fields that its header shows and the texts of its contents as one text, whichever
  -- path is taken and in whatever order the goroutines finish.
  pub parse_messages-load_o200k :
      (lib : Library) (s : Schedule) (msgs : List Message) (cfg : Option Bool)
      → IsWritableConversation lib msgs cfg
      → All IsFine (kept_messages msgs cfg)
      → All (λ i. In i (indices_of msgs cfg)) s.order
      → (toks : List ℕ) × (render_conversation (load_o200k tables pairs) lib s msgs cfg ≡ ok toks)
        × (parse_messages (load_o200k tables pairs) toks none
            ≡ some (map (read_back lib (tools_of msgs)) (kept_messages msgs cfg)))
  parse_messages-load_o200k lib =
      parse_messages-render_conversation (load_o200k tables pairs) load_o200k-IsHarmony
        load_o200k-IsSeparate lib

abbrev pub harmony_gpt_oss : Bytes
harmony_gpt_oss = codes "HarmonyGptOss"

-- The errors of `LoadEncoding`: a name that it does not know, and those of the vocabulary file.
pub data EncodingError : Type 0 where
  unsupported_encoding : EncodingError
  bad_vocabulary : LoadError → EncodingError

-- `LoadEncoding` with the text of the vocabulary file.
unfoldable pub load_encoding : Tables → Bytes → Bytes → Result EncodingError Encoding
load_encoding tables name text =
    if bytes_eq name harmony_gpt_oss
    then (elim (load_pairs text) [
      | err e ↦ err (bad_vocabulary e)
      | ok pairs ↦ ok (load_o200k tables pairs)
    ])
    else err unsupported_encoding

-- From the vocabulary file to the messages: where the file holds the lines of a complete vocabulary,
-- whose texts are not empty, and the conversation is of bytes, LoadEncoding returns an encoding by
-- which what RenderConversation returns for messages without errors is read by the parser as the
-- messages that are kept, in order, each with the fields that its header shows and the texts of its
-- contents as one text, whichever path is taken and in whatever order the goroutines finish.
pub parse_messages-load_encoding :
    (tables : Tables) (pairs : Pairs) (lib : Library) (s : Schedule) (msgs : List Message)
    (cfg : Option Bool)
    → IsComplete pairs
    → All IsEntry pairs
    → IsWritableConversation lib msgs cfg
    → All IsFine (kept_messages msgs cfg)
    → All (λ i. In i (indices_of msgs cfg)) s.order
    → (enc : Encoding) × (toks : List ℕ) × (load_encoding tables harmony_gpt_oss (print_pairs pairs)
        ≡ ok enc)
      × (render_conversation enc lib s msgs cfg ≡ ok toks)
      × (parse_messages enc toks none
          ≡ some (map (read_back lib (tools_of msgs)) (kept_messages msgs cfg)))
parse_messages-load_encoding tables pairs lib s msgs cfg complete entries w f h =
    let (toks, run, read) = parse_messages-load_o200k tables pairs complete lib s msgs cfg w f h in
    let known : bytes_eq harmony_gpt_oss harmony_gpt_oss ≡ true = unfold bytes_eq in refl in
    (
      load_o200k tables pairs,
      toks,
      unfold load_encoding in rw (known, load_pairs-print_pairs pairs entries),
      run,
      read,
    )
