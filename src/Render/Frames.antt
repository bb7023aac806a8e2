-- ===== src/Render/Frames.antt =====
-- A rendered message as a frame of tokens that the stream parser reads.
use harmony_go.Prelude.{
  ℕ, ◌≡◌, refl, sym, ap, ◌∙◌, Bool, true, false, ◌&&◌, List, [], ◌∷◌, ◌++◌, none, bytes_eq,
  if◌then◌else◌, Result, ok, ◌>>=◌, ◌>=>◌, arith, Bool-cases, inl, inr, append_assoc, append-nil,
  Result-cases,
}
use harmony_go.Tokenizer.Core.{decode_utf8, decode_bytes}
use harmony_go.Tokenizer.Core.Decode.{IsBase, DecodesTo-base}
use harmony_go.Types.{role_tool, Message}
use harmony_go.Header.{is_empty}
use harmony_go.Encoding.{Encoding, tok_start, tok_message, is_member}
use harmony_go.Sections.{Library}
use harmony_go.Parser.Framing.{Frame, IsFrame, frame_tokens, IsHeaderToken, IsContentToken}
use harmony_go.Render.{
  Step, RenderError, emit, skip, render_text, render_formatting_token, header_pieces, header_joined,
  content_type_part, check_author, is_call, render_contents, render_message, render_message_into,
}
use harmony_go.Render.Texts.{IsHarmony, Emits, Emits-emit, Emits-then}
use harmony_go.Render.Spec.{
  author_text, recipient_text, header_text, texts_of_contents, IsWritable, contents_error,
  message_error,
}
use harmony_go.Render.Pieces.{
  header_pieces-Emits, header_joined-Emits, channel_part-Emits, content_type_part-Emits,
}
use harmony_go.Render.Contents.{render_contents-Emits}

-- The tokens of the vocabulary are apart from those of the format, which are the parser's.
pub record IsSeparate (enc : Encoding) : Type 0 where
  pub start_eq : enc.id_start ≡ tok_start
  pub message_eq : enc.id_message ≡ tok_message
  pub base_header : (t : ℕ) → IsBase enc.bpe t → IsHeaderToken t
  pub base_content : (t : ℕ) → IsBase enc.bpe t → is_member enc.stop_all t ≡ false
  pub constrain_header : IsHeaderToken enc.id_constrain
  pub channel_header : IsHeaderToken enc.id_channel
  pub return_stops : is_member enc.stop_all enc.id_return ≡ true
  pub end_stops : is_member enc.stop_all enc.id_end ≡ true
  pub call_stops : is_member enc.stop_all enc.id_call ≡ true

abbrev Runs : Step → List ℕ → Type 0
Runs f toks = (out : List ℕ) → f out ≡ ok (out ++ toks)

Runs-then : (f g : Step) (xs ys : List ℕ) → Runs f xs → Runs g ys → Runs (f >=> g) (xs ++ ys)
Runs-then f g xs ys rf rg out = rw (rf out) (rg (out ++ xs) ∙ ap ok (append_assoc out xs ys))

Runs-emit : (t : ℕ) → Runs (emit t) (t ∷ [])
Runs-emit t out = unfold emit in refl

-- Steps in sequence can be grouped.
regroup : (s f g h : Step) (out : List ℕ) → (s >=> f >=> g >=> h) out ≡ (s >=> (f >=> g >=> h)) out
regroup s f g h out = elim (Result-cases (s out)) [ inl (a, e) ↦ rw e | inr (x, e) ↦ rw e ]

-- The tokens of a message, bracketed as they are emitted, are those of a frame.
emitted-frame :
    (start mark stop : ℕ) (hs cs : List ℕ)
    → ((start ∷ (hs ++ mark ∷ [])) ++ cs) ++ stop ∷ [] ≡ start ∷ (hs ++ mark ∷ (cs ++ stop ∷ []))
emitted-frame start mark stop hs cs =
    ap (λ t. start ∷ t)
      (ap (λ t. t ++ stop ∷ []) (append_assoc hs (mark ∷ []) cs)
        ∙ append_assoc hs (mark ∷ cs) (stop ∷ []))

module _ (enc : Encoding) (harmony : IsHarmony enc) (separate : IsSeparate enc) (lib : Library)
    (tools : Bool) where
  -- A frame whose header and content have the texts of the message.
  pub record IsFrameOf (m : Message) (f : Frame) : Type 0 where
    pub whole : IsFrame enc f
    pub header_same : f.header_text ≡ header_text m
    pub content_same : f.content_text ≡ texts_of_contents lib tools m.content

  base-IsContentToken : (t : ℕ) → IsBase enc.bpe t → IsContentToken enc t
  base-IsContentToken t b =
      let (key, d) = DecodesTo-base enc.bpe harmony.faithful t b in
      (separate.base_content t b, key, d [])

  module _ (m : Message) (b : IsWritable lib tools m) (fine : message_error m ≡ none) where
    module _ (header : Step)
        (heads : Emits enc.bpe IsHeaderToken header (author_text m ++ recipient_text m)) where
      abbrev rendered : Step
      rendered =
          emit enc.id_start
          >=> check_author m
          >=> header
          >=> (if is_empty m.channel
              then skip
              else emit enc.id_channel >=> render_text enc m.channel)
          >=> content_type_part enc m
          >=> emit enc.id_message
          >=> render_contents enc lib tools m.content
          >=> (if is_call m then emit enc.id_call else emit enc.id_end)

      -- The header with its channel and content type.
      header-Emits :
          Emits enc.bpe IsHeaderToken
            (header
              >=> (if is_empty m.channel
                  then skip
                  else emit enc.id_channel >=> render_text enc m.channel)
              >=> content_type_part enc m)
            (header_text m)
      unfolding header_text
      header-Emits =
          let H = separate.base_header in
          Emits-then enc.bpe IsHeaderToken _ _ _ _
            (Emits-then enc.bpe IsHeaderToken _ _ _ _ heads (
              channel_part-Emits enc harmony IsHeaderToken H m (emit enc.id_channel) b.channel_bytes
                (Emits-emit enc.bpe IsHeaderToken enc.id_channel _ harmony.channel_literal
                  separate.channel_header)))
            (content_type_part-Emits enc harmony IsHeaderToken H separate.constrain_header m
              b.content_type_bytes)

      -- The stop token of the message.
      abbrev stop_token : ℕ
      stop_token = if is_call m then enc.id_call else enc.id_end

      end-Runs : Runs (if is_call m then emit enc.id_call else emit enc.id_end) (stop_token ∷ [])
      end-Runs out = elim (Bool-cases (is_call m)) [
        | inl e ↦ rw e (Runs-emit enc.id_call out)
        | inr e ↦ rw e (Runs-emit enc.id_end out)
      ]

      stop_token-stops : is_member enc.stop_all stop_token ≡ true
      stop_token-stops = elim (Bool-cases (is_call m)) [
        | inl e ↦ rw e separate.call_stops
        | inr e ↦ rw e separate.end_stops
      ]

      author_checked :
          (bytes_eq m.author.role role_tool && is_empty m.author.name ≡ false)
          × (contents_error m.content ≡ none)
      unfolding message_error
      author_checked =
          elim (Bool-cases (bytes_eq m.author.role role_tool && is_empty m.author.name)) [
            | inl bad ↦ absurd (ground arith)
            | inr good ↦ (good, rw good at fine)
          ]

      check-Runs : Runs (check_author m) []
      check-Runs out =
          let (good, _) = author_checked in
          unfold check_author skip in rw good (ap ok (sym (append-nil out)))

      rendered-Runs :
          (hs cs : List ℕ)
          → Runs
              (header
                >=> (if is_empty m.channel
                    then skip
                    else emit enc.id_channel >=> render_text enc m.channel)
                >=> content_type_part enc m)
              hs
          → Runs (render_contents enc lib tools m.content) cs
          → Runs rendered (tok_start ∷ (hs ++ tok_message ∷ (cs ++ stop_token ∷ [])))
      rendered-Runs hs cs heads_run body_run out =
          let start = separate.start_eq in
          let mark = separate.message_eq in
          let first = emit enc.id_start >=> check_author m in
          let ch : Step =
            if is_empty m.channel
            then skip
            else emit enc.id_channel >=> render_text enc m.channel in
          let rest = λ (r : Result RenderError (List ℕ)).
            r
            >>= emit enc.id_message
            >>= render_contents enc lib tools m.content
            >>= (if is_call m then emit enc.id_call else emit enc.id_end) in
          let grouped =
            Runs-then _ _ _ _
              (Runs-then _ _ _ _
                (Runs-then _ _ _ _
                  (Runs-then _ _ _ _ (Runs-then _ _ _ _ (Runs-emit enc.id_start) check-Runs)
                    heads_run)
                  (Runs-emit enc.id_message))
                body_run)
              end-Runs in
          ap rest (regroup first header ch (content_type_part enc m) out)
          ∙ grouped out
          ∙ ap (λ t. ok (out ++ t)) (emitted-frame enc.id_start enc.id_message stop_token hs cs)
          ∙ rw (start, mark)

      rendered-frame : (f : Frame) × IsFrameOf m f × Runs rendered (frame_tokens f)
      rendered-frame =
          let (_, no_error) = author_checked in
          let head = header-Emits in
          let body =
            render_contents-Emits enc harmony (IsContentToken enc) base-IsContentToken lib tools
              m.content b.contents_bytes no_error in
          let hs = head.toks in
          let cs = body.toks in
          let f : Frame = record {
            header_toks = hs;
            content_toks = cs;
            stop = stop_token;
            header_text = header_text m;
            content_text = texts_of_contents lib tools m.content;
          } in
          (
            f,
            record {
              whole = record {
                headers = head.within;
                contents = body.within;
                stops = stop_token-stops;
                header_decodes = unfold decode_utf8 decode_bytes in head.decodes [];
                content_decodes = unfold decode_utf8 decode_bytes in body.decodes [];
              };
              header_same = refl;
              content_same = refl;
            },
            rendered-Runs hs cs head.runs body.runs,
          )

    -- `renderMessageInto` and `renderMessage`
    pub render_message_into-frame :
        (f : Frame) × IsFrameOf m f
        × ((out : List ℕ) → render_message_into enc lib tools m out ≡ ok (out ++ frame_tokens f))
    unfolding render_message_into
    render_message_into-frame = rendered-frame (header_joined enc m) (
        header_joined-Emits enc harmony IsHeaderToken separate.base_header m b.role_bytes
          b.name_bytes b.recipient_bytes)

    pub render_message-frame :
        (f : Frame) × IsFrameOf m f × (render_message enc lib tools m ≡ ok (frame_tokens f))
    unfolding render_message render_formatting_token bytes_eq
    render_message-frame =
        let (f, is, runs) = rendered-frame (header_pieces enc m) (
          header_pieces-Emits enc harmony IsHeaderToken separate.base_header m b.role_bytes
            b.name_bytes b.recipient_bytes) in
        (f, is, runs [])
