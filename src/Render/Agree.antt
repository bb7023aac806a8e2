-- ===== src/Render/Agree.antt =====
-- The two renderers of a message agree on what their tokens decode to, and on errors.
use harmony_go.Prelude.{
  ℕ, ◌≡◌, sym, ap, ◌∙◌, Bool, List, [], Option, none, some, Bytes, Result, ok, err, Option-cases,
  inl, inr,
}
use harmony_go.Tokenizer.Core.{CoreBpe, decode_bytes}
use harmony_go.Tokenizer.Core.Decode.{DecodesTo}
use harmony_go.Types.{Message}
use harmony_go.Encoding.{Encoding}
use harmony_go.Sections.{Library}
use harmony_go.Render.{RenderError, render_message, render_message_into}
use harmony_go.Render.Texts.{IsHarmony}
use harmony_go.Render.Spec.{message_text, message_error, IsWritable}
use harmony_go.Render.Whole.{
  AllowsFormat, render_message_into-Emits, render_message_into-Fails, render_message-ok,
  render_message-err,
}

-- Every token.
abbrev pub IsAny : ℕ → Type 0
IsAny t = Unit

-- A result of rendering with its tokens decoded.
unfoldable pub decoded : CoreBpe → Result RenderError (List ℕ) → Result RenderError (Option Bytes)
decoded core (ok toks) = ok (decode_bytes core toks)
decoded core (err e) = err e

-- The text, or the error if there is one.
unfoldable pub text_or_error : Option RenderError → Bytes → Result RenderError (Option Bytes)
text_or_error none text = ok (some text)
text_or_error (some e) text = err e

DecodesTo-decode_bytes :
    (core : CoreBpe) (toks : List ℕ) (text : Bytes)
    → DecodesTo core toks text
    → decode_bytes core toks ≡ some text
unfolding decode_bytes
DecodesTo-decode_bytes core toks text d = d []

module _ (enc : Encoding) (harmony : IsHarmony enc) (lib : Library) (tools : Bool) where
  pub IsAny-AllowsFormat : AllowsFormat enc harmony IsAny (λ t b. tt)
  IsAny-AllowsFormat = record {
    allow_start = tt;
    allow_message = tt;
    allow_end = tt;
    allow_call = tt;
    allow_constrain = tt;
    allow_channel = tt;
  }

  -- The tokens of `renderMessage` decode to the text of the message, and its error is the one
  -- that the message has: a tool without a name, else that of the first content with an error.
  pub decoded-render_message :
      (msg : Message)
      → IsWritable lib tools msg
      → decoded enc.bpe (render_message enc lib tools msg)
        ≡ text_or_error (message_error msg) (message_text lib tools msg)
  unfolding decoded text_or_error
  decoded-render_message msg b = elim (Option-cases (message_error msg)) [
    | inl e ↦
        let (toks, run, d, _) =
          render_message-ok enc harmony IsAny (λ t h. tt) lib tools msg IsAny-AllowsFormat b e in
        rw (e, run) (ap ok (DecodesTo-decode_bytes enc.bpe toks _ d))
    | inr (error, e) ↦ rw (
      e,
      render_message-err enc harmony IsAny (λ t h. tt) lib tools msg IsAny-AllowsFormat b error e,
    )
  ]

  decoded-render_message_into :
      (msg : Message)
      → IsWritable lib tools msg
      → decoded enc.bpe (render_message_into enc lib tools msg [])
        ≡ text_or_error (message_error msg) (message_text lib tools msg)
  unfolding decoded text_or_error
  decoded-render_message_into msg b = elim (Option-cases (message_error msg)) [
    | inl e ↦
        let emits =
          render_message_into-Emits enc harmony IsAny (λ t h. tt) lib tools msg IsAny-AllowsFormat b
            e in
        let run = emits.runs [] in
        let toks = emits.toks in
        rw (e, run) (ap ok (DecodesTo-decode_bytes enc.bpe toks _ emits.decodes))
    | inr (error, e) ↦ rw (
      e,
      render_message_into-Fails enc harmony IsAny (λ t h. tt) lib tools msg IsAny-AllowsFormat b
          error e [],
    )
  ]

  -- The renderer that encodes the header in pieces and the one that encodes it whole return tokens
  -- that decode to the same text, or the same error.
  pub render_message-agrees :
      (msg : Message)
      → IsWritable lib tools msg
      → decoded enc.bpe (render_message enc lib tools msg)
        ≡ decoded enc.bpe (render_message_into enc lib tools msg [])
  render_message-agrees msg b =
      decoded-render_message msg b ∙ sym (decoded-render_message_into msg b)
