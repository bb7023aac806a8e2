-- ===== src/Render/Conversation.antt =====
-- encoding.go: RenderConversation, RenderConversationForCompletion, RenderConversationForTraining.
use harmony_go.Prelude.{
  ℕ, Bool, true, ◌&&◌, List, [], ◌∷◌, ◌++◌, Option, none, some, ◌==◌, if◌then◌else◌, length, set,
  ◌-◌, get_elem?, Result, ok, err, ◌>>=◌, ◌>=>◌,
}
use harmony_go.Types.{Role, Message}
use harmony_go.Encoding.{Encoding}
use harmony_go.Encoding.Estimate.{should_parallel_render}
use harmony_go.Encoding.Select.{scan, no_scan, render_idx, is_final, is_assistant}
use harmony_go.Parser.{last_message}
use harmony_go.Sections.{Library}
use harmony_go.Render.{
  RenderError, no_tokens, Step, render_text, render_message, render_message_into, skip,
}

-- What the code takes from outside: whether rendering in parallel is enabled in the environment,
-- and the order in which the goroutines of the messages come to their errors.
pub record Schedule : Type 0 where
  pub parallel : Bool
  pub order : List ℕ

module _ (enc : Encoding) (lib : Library) where
  module _ (has_function_tools : Bool) (msgs : List Message) where
    -- An index of `renderIdx` is always that of a message.
    unfoldable pub render_at : ℕ → Result RenderError (List ℕ)
    render_at idx = elim (get_elem? msgs idx) [
      | none ↦ err no_tokens
      | some m ↦ render_message enc lib has_function_tools m
    ]

    unfoldable pub render_into_at : ℕ → Step
    render_into_at idx out = elim (get_elem? msgs idx) [
      | none ↦ err no_tokens
      | some m ↦ render_message_into enc lib has_function_tools m out
    ]

    unfoldable pub render_serial : List ℕ → Step
    render_serial [] = skip
    render_serial (idx ∷ indices) = render_into_at idx >=> render_serial indices

    -- `errOnce.Do(func() { firstErr = err })`
    unfoldable pub first_error : List ℕ → Option RenderError
    first_error [] = none
    first_error (idx ∷ order) =
        let rest = first_error order in elim (render_at idx) [ ok toks ↦ rest | err e ↦ some e ]

    -- The tokens in `results`, none where a message failed.
    unfoldable pub collect : List ℕ → List ℕ
    collect [] = []
    collect (idx ∷ indices) =
        (elim (render_at idx) [ ok toks ↦ toks | err e ↦ [] ]) ++ collect indices

    unfoldable pub render_parallel : List ℕ → List ℕ → Result RenderError (List ℕ)
    render_parallel order indices = elim (first_error order) [
      | some e ↦ err e
      | none ↦ ok (collect indices)
    ]

  -- `cfg` is the field AutoDropAnalysis, true where the configuration is nil.
  unfoldable pub render_conversation :
      Schedule → List Message → Option Bool → Result RenderError (List ℕ)
  render_conversation s msgs cfg =
      let auto_drop = elim cfg as (λ c. Bool) [ none ↦ true | some b ↦ b ] in
      let indices = render_idx auto_drop msgs in
      let tools = (scan 0 msgs no_scan).has_function_tools in
      if length indices == 0
      then ok []
      else if should_parallel_render s.parallel msgs indices
      then render_parallel tools msgs s.order indices
      else render_serial tools msgs indices []

  unfoldable pub render_conversation_for_completion :
      Schedule → List Message → Role → Option Bool → Result RenderError (List ℕ)
  render_conversation_for_completion s msgs next cfg =
      render_conversation s msgs cfg >>= λ out. render_text enc next (out ++ enc.id_start ∷ [])

  -- `out[len(out)-1] = e.idReturn`
  unfoldable pub replace_last : List ℕ → List ℕ
  replace_last out = if length out == 0 then out else set out (length out - 1) enc.id_return

  unfoldable pub render_conversation_for_training :
      Schedule → List Message → Option Bool → Result RenderError (List ℕ)
  render_conversation_for_training s msgs cfg = elim (last_message msgs) [
    | none ↦ ok []
    | some m ↦ render_conversation s msgs cfg >>= λ out.
        ok (if is_assistant m && is_final m then replace_last out else out)
  ]
