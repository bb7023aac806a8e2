-- ===== src/Render/Whole.antt =====
-- Whole messages: both renderers emit tokens of the message's text, and return its errors.
use harmony_go.Prelude.{
  ℕ, ◌≡◌, Bool, true, false, ◌&&◌, List, [], ◌++◌, none, some, codes, bytes_eq, if◌then◌else◌, ok,
  err, ◌>=>◌, arith, Bool-cases, inl, inr, All,
}
use harmony_go.Tokenizer.Core.Decode.{IsBase, DecodesTo}
use harmony_go.Types.{role_tool, Message}
use harmony_go.Header.{is_empty}
use harmony_go.Encoding.{Encoding}
use harmony_go.Sections.{Library}
use harmony_go.Render.{
  Step, RenderError, no_tool_name, emit, skip, fail, render_text, render_formatting_token,
  header_pieces, header_joined, content_type_part, check_author, is_call, render_contents,
  render_message, render_message_into,
}
use harmony_go.Render.Texts.{IsHarmony, Emits, Emits-skip, Emits-emit, Emits-then}
use harmony_go.Render.Spec.{
  author_text, recipient_text, header_text, end_text, message_text, IsWritable, contents_error,
  message_error,
}
use harmony_go.Render.Pieces.{
  header_pieces-Emits, header_joined-Emits, channel_part-Emits, content_type_part-Emits,
}
use harmony_go.Render.Contents.{
  Fails, Fails-then, Fails-behind, render_contents-Emits, render_contents-Fails,
}

module _ (enc : Encoding) (harmony : IsHarmony enc) (P : ℕ → Type 0)
    (base : (t : ℕ) → IsBase enc.bpe t → P t) where
  module _ (lib : Library) (tools : Bool) where
    -- The steps of a message, whose header and format tokens are emitted by the steps given.
    module _ (msg : Message) (start header channel mark call stop : Step) where
      abbrev whole : Step
      whole =
          start
          >=> check_author msg
          >=> header
          >=> (if is_empty msg.channel then skip else channel >=> render_text enc msg.channel)
          >=> content_type_part enc msg
          >=> mark
          >=> render_contents enc lib tools msg.content
          >=> (if is_call msg then call else stop)

      record IsWhole : Type 0 where
        starts : Emits enc.bpe P start (codes "<|start|>")
        heads : Emits enc.bpe P header (author_text msg ++ recipient_text msg)
        channels : Emits enc.bpe P channel (codes "<|channel|>")
        marks : Emits enc.bpe P mark (codes "<|message|>")
        calls : Emits enc.bpe P call (codes "<|call|>")
        stops : Emits enc.bpe P stop (codes "<|end|>")
        constrains : P enc.id_constrain

      check_author-Emits :
          (bytes_eq msg.author.role role_tool && is_empty msg.author.name) ≡ false
          → Emits enc.bpe P (check_author msg) []
      check_author-Emits e = unfold check_author in rw e (Emits-skip enc.bpe P)

      end_part-Emits : IsWhole → Emits enc.bpe P (if is_call msg then call else stop) (end_text msg)
      end_part-Emits w = elim (Bool-cases (is_call msg)) [
        | inl e ↦ unfold end_text in rw e w.calls
        | inr e ↦ unfold end_text in rw e w.stops
      ]

      -- Everything in front of the contents.
      front-Emits :
          IsWhole
          → IsWritable lib tools msg
          → (bytes_eq msg.author.role role_tool && is_empty msg.author.name) ≡ false
          → Emits enc.bpe P
              (start
                >=> check_author msg
                >=> header
                >=> (if is_empty msg.channel then skip else channel >=> render_text enc msg.channel)
                >=> content_type_part enc msg
                >=> mark)
              ((codes "<|start|>" ++ header_text msg) ++ codes "<|message|>")
      unfolding header_text
      front-Emits w b e =
          Emits-then enc.bpe P _ _ _ _
            (Emits-then enc.bpe P _ _ _ _
              (Emits-then enc.bpe P _ _ _ _
                (Emits-then enc.bpe P _ _ _ _
                  (Emits-then enc.bpe P _ _ _ _ w.starts (check_author-Emits e)) w.heads)
                (channel_part-Emits enc harmony P base msg channel b.channel_bytes w.channels))
              (content_type_part-Emits enc harmony P base w.constrains msg b.content_type_bytes))
            w.marks

      whole-Emits :
          IsWhole
          → IsWritable lib tools msg
          → message_error msg ≡ none
          → Emits enc.bpe P whole (message_text lib tools msg)
      unfolding message_error message_text
      whole-Emits w b e =
          elim (Bool-cases (bytes_eq msg.author.role role_tool && is_empty msg.author.name)) [
            | inl bad ↦ absurd (ground arith)
            | inr fine ↦
                let none_bad : contents_error msg.content ≡ none = rw fine at e in
                Emits-then enc.bpe P _ _ _ _
                  (Emits-then enc.bpe P _ _ _ _ (front-Emits w b fine) (
                    render_contents-Emits enc harmony P base lib tools msg.content b.contents_bytes
                      none_bad))
                  (end_part-Emits w)
          ]

      check_author-Fails :
          (bytes_eq msg.author.role role_tool && is_empty msg.author.name) ≡ true
          → Fails no_tool_name (check_author msg)
      check_author-Fails e out = unfold check_author fail in rw e

      whole-Fails :
          (e : RenderError)
          → IsWhole
          → IsWritable lib tools msg
          → message_error msg ≡ some e
          → Fails e whole
      unfolding message_error
      whole-Fails e w b h =
          elim (Bool-cases (bytes_eq msg.author.role role_tool && is_empty msg.author.name)) [
            | inl bad ↦
                let first : some no_tool_name ≡ some e = rw bad at h in
                let eq : no_tool_name ≡ e = ground arith in
                rw (← eq) (
                  Fails-then _ _ _ (
                    Fails-then _ _ _ (
                      Fails-then _ _ _ (
                        Fails-then _ _ _ (
                          Fails-then _ _ _ (
                            Fails-then _ _ _ (
                              Fails-behind enc harmony P base _ _ _ _ w.starts
                                (check_author-Fails bad))))))))
            | inr fine ↦
                let later : contents_error msg.content ≡ some e = rw fine at h in
                Fails-then _ _ _ (
                  Fails-behind enc harmony P base _ _ _ _ (front-Emits w b fine) (
                    render_contents-Fails enc harmony P base lib tools msg.content e
                      b.contents_bytes later))
          ]

  -- The tokens of the format, which every predicate on tokens here accepts.
  pub record AllowsFormat : Type 0 where
    pub allow_start : P enc.id_start
    pub allow_message : P enc.id_message
    pub allow_end : P enc.id_end
    pub allow_call : P enc.id_call
    pub allow_constrain : P enc.id_constrain
    pub allow_channel : P enc.id_channel

  module _ (lib : Library) (tools : Bool) (msg : Message) (allow : AllowsFormat)
      (b : IsWritable lib tools msg) where
    IsWhole-with :
        (header : Step)
        → Emits enc.bpe P header (author_text msg ++ recipient_text msg)
        → IsWhole lib tools msg
            (emit enc.id_start)
            header
            (emit enc.id_channel)
            (emit enc.id_message)
            (emit enc.id_call)
            (emit enc.id_end)
    IsWhole-with header h =
        let E = Emits-emit enc.bpe P in
        record {
          starts = E enc.id_start _ harmony.start_literal allow.allow_start;
          heads = h;
          channels = E enc.id_channel _ harmony.channel_literal allow.allow_channel;
          marks = E enc.id_message _ harmony.message_literal allow.allow_message;
          calls = E enc.id_call _ harmony.call_literal allow.allow_call;
          stops = E enc.id_end _ harmony.end_literal allow.allow_end;
          constrains = allow.allow_constrain;
        }

    IsWhole-joined :
        IsWhole lib tools msg
          (emit enc.id_start)
          (header_joined enc msg)
          (emit enc.id_channel)
          (emit enc.id_message)
          (emit enc.id_call)
          (emit enc.id_end)
    IsWhole-joined =
        IsWhole-with (header_joined enc msg)
          (header_joined-Emits enc harmony P base msg b.role_bytes b.name_bytes b.recipient_bytes)

    IsWhole-pieces :
        IsWhole lib tools msg
          (emit enc.id_start)
          (header_pieces enc msg)
          (emit enc.id_channel)
          (emit enc.id_message)
          (emit enc.id_call)
          (emit enc.id_end)
    IsWhole-pieces =
        IsWhole-with (header_pieces enc msg)
          (header_pieces-Emits enc harmony P base msg b.role_bytes b.name_bytes b.recipient_bytes)

    -- `renderMessageInto`
    pub render_message_into-Emits :
        message_error msg ≡ none
        → Emits enc.bpe P (render_message_into enc lib tools msg) (message_text lib tools msg)
    unfolding render_message_into
    render_message_into-Emits e = whole-Emits lib tools msg _ _ _ _ _ _ IsWhole-joined b e

    pub render_message_into-Fails :
        (e : RenderError)
        → message_error msg ≡ some e
        → Fails e (render_message_into enc lib tools msg)
    unfolding render_message_into
    render_message_into-Fails e h = whole-Fails lib tools msg _ _ _ _ _ _ e IsWhole-joined b h

    -- `renderMessage`, at the tokens of the format that it looks up by name.
    pub render_message-ok :
        message_error msg ≡ none
        → (toks : List ℕ) × (render_message enc lib tools msg ≡ ok toks)
          × DecodesTo enc.bpe toks (message_text lib tools msg)
          × All P toks
    unfolding render_message render_formatting_token bytes_eq
    render_message-ok e =
        let emits = whole-Emits lib tools msg _ _ _ _ _ _ IsWhole-pieces b e in
        (emits.toks, emits.runs [], emits.decodes, emits.within)

    pub render_message-err :
        (e : RenderError) → message_error msg ≡ some e → render_message enc lib tools msg ≡ err e
    unfolding render_message render_formatting_token bytes_eq
    render_message-err e h = whole-Fails lib tools msg _ _ _ _ _ _ e IsWhole-pieces b h []
