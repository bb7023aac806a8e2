-- ===== src/Render/Outcome.antt =====
-- RenderConversation as a whole: its tokens decode to the texts of the messages that are kept, and
-- it fails exactly if one of them has an error.
use harmony_go.Prelude.{
  if◌then◌else◌, ℕ, ◌≡◌, refl, Bool, true, List, [], ◌∷◌, Option, none, some, Bytes, ok, err,
  Bool-cases, inl, inr, arith, All, All-In, In, ◌==◌, length,
}
use harmony_go.Tokenizer.Core.Decode.{DecodesTo, DecodesTo-nil}
use harmony_go.Types.{Message}
use harmony_go.Encoding.{Encoding}
use harmony_go.Encoding.Estimate.{should_parallel_render}
use harmony_go.Encoding.Select.{scan, no_scan, render_idx}
use harmony_go.Encoding.Select.Kept.{kept, render_idx-kept}
use harmony_go.Sections.{Library}
use harmony_go.Render.{RenderError}
use harmony_go.Render.Texts.{IsHarmony}
use harmony_go.Render.Spec.{
  message_error, IsWritable, conversation_text, IsFine, AllWritable, HasError, first_message_error,
  error_in_turn,
}
use harmony_go.Render.Conversation.{Schedule, collect, render_parallel, render_conversation}
use harmony_go.Render.Conversations.{
  Paired, Paired-of, render_serial-Emits, render_serial-err, collect-DecodesTo, first_error-none,
  first_error-some, index_of, render_at-err,
}

-- The messages of the conversation that are rendered.
abbrev pub kept_messages : List Message → Option Bool → List Message
kept_messages msgs cfg = kept (elim cfg as (λ c. Bool) [ none ↦ true | some b ↦ b ]) msgs

abbrev pub tools_of : List Message → Bool
tools_of msgs = (scan 0 msgs no_scan).has_function_tools

abbrev pub indices_of : List Message → Option Bool → List ℕ
indices_of msgs cfg = render_idx (elim cfg as (λ c. Bool) [ none ↦ true | some b ↦ b ]) msgs

pub indices_of-Paired :
    (msgs : List Message) (cfg : Option Bool)
    → Paired msgs (indices_of msgs cfg) (kept_messages msgs cfg)
indices_of-Paired msgs cfg = Paired-of msgs _ _ (render_idx-kept _ msgs)

-- The text that a conversation stands for.
abbrev pub text_of_conversation : Library → List Message → Option Bool → Bytes
text_of_conversation lib msgs cfg = conversation_text lib (tools_of msgs) (kept_messages msgs cfg)

abbrev pub IsWritableConversation : Library → List Message → Option Bool → Type 0
IsWritableConversation lib msgs cfg = AllWritable lib (tools_of msgs) (kept_messages msgs cfg)

pub nothing_kept :
    (msgs : List Message) (indices : List ℕ) (ms : List Message)
    → Paired msgs indices ms
    → (length indices == 0) ≡ true
    → ms ≡ []
nothing_kept msgs [] [] p e = refl
nothing_kept msgs [] (m ∷ ms) p e = absurd p
nothing_kept msgs (i ∷ indices) ms p e = absurd (ground arith)

-- The error that a conversation is to give: that of the first message that is kept and has one, or
-- on the parallel path the first that comes up.
abbrev pub expected_error : Schedule → List Message → Option Bool → Option RenderError
expected_error s msgs cfg =
    if should_parallel_render s.parallel msgs (indices_of msgs cfg)
    then error_in_turn msgs s.order
    else first_message_error (kept_messages msgs cfg)

module _ (enc : Encoding) (harmony : IsHarmony enc) (lib : Library) where
  -- If no message that is kept has an error, the result is tokens that decode to the texts of the
  -- messages, whichever path is taken and in whatever order the goroutines finish.
  pub render_conversation-text :
      (s : Schedule) (msgs : List Message) (cfg : Option Bool)
      → IsWritableConversation lib msgs cfg
      → All IsFine (kept_messages msgs cfg)
      → All (λ i. In i (indices_of msgs cfg)) s.order
      → (toks : List ℕ) × (render_conversation enc lib s msgs cfg ≡ ok toks)
        × DecodesTo enc.bpe toks (text_of_conversation lib msgs cfg)
  render_conversation-text s msgs cfg w f h =
      let indices = indices_of msgs cfg in
      let tools = tools_of msgs in
      let p = indices_of-Paired msgs cfg in
      elim (Bool-cases (length indices == 0)) [
        | inl empty ↦
            let gone = nothing_kept msgs indices (kept_messages msgs cfg) p empty in
            (
              [],
              unfold render_conversation in rw empty,
              rw gone (unfold conversation_text in DecodesTo-nil enc.bpe),
            )
        | inr filled ↦ elim (Bool-cases (should_parallel_render s.parallel msgs indices)) [
          | inl parallel ↦
              let no_error =
                first_error-none enc harmony lib tools msgs s.order indices _ p w f h in
              (
                collect enc lib tools msgs indices,
                unfold render_conversation render_parallel in
                    rw (filled, parallel, no_error, render_parallel),
                collect-DecodesTo enc harmony lib tools msgs indices _ p w f,
              )
          | inr serial ↦
              let emits = render_serial-Emits enc harmony lib tools msgs indices _ p w f in
              let run = emits.runs [] in
              (emits.toks, unfold render_conversation in rw (filled, serial) run, emits.decodes)
        ]
      ]

  -- If a message that is kept has an error, the result is an error that one of them has: on the
  -- serial path that of the first of them in their order, on the parallel one that of the first in
  -- the order in which the goroutines come to their errors.
  pub render_conversation-error :
      (s : Schedule) (msgs : List Message) (cfg : Option Bool) (m : Message) (error : RenderError)
      → IsWritableConversation lib msgs cfg
      → In m (kept_messages msgs cfg)
      → message_error m ≡ some error
      → All (λ i. In i (indices_of msgs cfg)) s.order
      → All (λ i. In i s.order) (indices_of msgs cfg)
      → (e : RenderError) × (render_conversation enc lib s msgs cfg ≡ err e)
        × HasError (kept_messages msgs cfg) e
        × (expected_error s msgs cfg ≡ some e)
  render_conversation-error s msgs cfg m error w there bad h h' =
      let indices = indices_of msgs cfg in
      let tools = tools_of msgs in
      let p = indices_of-Paired msgs cfg in
      elim (Bool-cases (length indices == 0)) [
        | inl empty ↦
            let gone = nothing_kept msgs indices (kept_messages msgs cfg) p empty in
            absurd (rw gone at there)
        | inr filled ↦ elim (Bool-cases (should_parallel_render s.parallel msgs indices)) [
          | inl parallel ↦
              let (i, here, found) = index_of enc harmony lib tools msgs indices _ m p there in
              let fails =
                render_at-err enc harmony lib tools msgs i m error found
                  (All-In (IsWritable lib tools) _ m w there) bad in
              let (e, first, own, turn) =
                first_error-some enc harmony lib tools msgs s.order indices _ i error p w h
                  (All-In (λ j. In j s.order) indices i h' here) fails in
              (
                e,
                unfold render_conversation render_parallel in
                    rw (filled, parallel, first, render_parallel),
                own,
                (rw parallel turn),
              )
          | inr serial ↦
              let (e, fails, own, first) =
                render_serial-err enc harmony lib tools msgs indices _ m error p w there bad [] in
              (e, unfold render_conversation in rw (filled, serial) fails, own, (rw serial first))
        ]
      ]
