-- ===== src/Render/Completion.antt =====
-- RenderConversationForCompletion: the conversation, and the start of the next message.
use harmony_go.Prelude.{ℕ, ◌≡◌, Bool, List, [], ◌∷◌, ◌++◌, Option, codes, ok, All, In}
use harmony_go.Tokenizer.Segmenter.Contraction.{IsBytes}
use harmony_go.Tokenizer.Core.Decode.{DecodesTo, DecodesTo-append}
use harmony_go.Types.{Role, Message}
use harmony_go.Encoding.{Encoding}
use harmony_go.Sections.{Library}
use harmony_go.Render.{render_text}
use harmony_go.Render.Texts.{IsHarmony, Emits-text}
use harmony_go.Render.Spec.{IsFine}
use harmony_go.Render.Agree.{IsAny}
use harmony_go.Render.Conversation.{Schedule, render_conversation_for_completion}
use harmony_go.Render.Outcome.{
  kept_messages, indices_of, IsWritableConversation, text_of_conversation, render_conversation-text,
}

module _ (enc : Encoding) (harmony : IsHarmony enc) (lib : Library) where
  -- If no message that is kept has an error, RenderConversationForCompletion returns tokens that
  -- decode to the texts of the messages, and behind them `<|start|>` and the next role.
  pub render_conversation_for_completion-text :
      (s : Schedule) (msgs : List Message) (next : Role) (cfg : Option Bool)
      → IsWritableConversation lib msgs cfg
      → All IsFine (kept_messages msgs cfg)
      → All (λ i. In i (indices_of msgs cfg)) s.order
      → IsBytes next
      → (toks : List ℕ) × (render_conversation_for_completion enc lib s msgs next cfg ≡ ok toks)
        × DecodesTo enc.bpe toks ((text_of_conversation lib msgs cfg ++ codes "<|start|>") ++ next)
  render_conversation_for_completion-text s msgs next cfg w f h bytes =
      let (out, run, d) = render_conversation-text enc harmony lib s msgs cfg w f h in
      let role = Emits-text enc harmony IsAny (λ t b. tt) next bytes in
      let toks = role.toks in
      let written : render_text enc next (out ++ enc.id_start ∷ [])
          ≡ ok ((out ++ enc.id_start ∷ []) ++ toks) =
        role.runs (out ++ enc.id_start ∷ []) in
      let decodes = role.decodes in
      (
        (out ++ enc.id_start ∷ []) ++ toks,
        unfold render_conversation_for_completion in
            rw (run, render_conversation_for_completion) written,
        DecodesTo-append enc.bpe (out ++ enc.id_start ∷ []) toks _ next
            (DecodesTo-append enc.bpe out (enc.id_start ∷ []) _ _ d harmony.start_literal) decodes,
      )
