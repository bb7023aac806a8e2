-- ===== src/Render/Training.antt =====
-- RenderConversationForTraining: the token that ends the last message.
use harmony_go.Prelude.{
  ℕ, ◌-◌, ◌≡◌, refl, sym, ap, ◌∙◌, Bool, true, false, ◌&&◌, List, [], ◌∷◌, ◌++◌, Option, none, some,
  ok, Bool-cases, inl, inr, arith, All, In, map, concat, append-nil, length, set, ◌==◌,
  if◌then◌else◌,
}
use harmony_go.Types.{Message}
use harmony_go.Encoding.{Encoding, is_member, tok_start, tok_message}
use harmony_go.Encoding.Select.{is_assistant, is_final}
use harmony_go.Encoding.Select.{is_analysis}
use harmony_go.Encoding.Select.Kept.{kept, without_analysis, ends_final}
use harmony_go.Sections.{Library}
use harmony_go.Parser.{parse_messages, last_message}
use harmony_go.Parser.Framing.{Frame, IsFrame, frame_tokens, frame_message, parse_messages-frames}
use harmony_go.Render.Texts.{IsHarmony}
use harmony_go.Render.Spec.{IsFine}
use harmony_go.Render.Conversation.{
  Schedule, render_conversation, replace_last, render_conversation_for_training,
}
use harmony_go.Render.Outcome.{kept_messages, tools_of, indices_of, IsWritableConversation}
use harmony_go.Render.Frames.{IsSeparate}
use harmony_go.Render.RoundTrip.{
  FramesOf, FramesOf-IsFrame, FramesOf-read_back, render_conversation-frames, read_back,
}

-- The list with another last element.
abbrev replaced : ℕ → List ℕ → List ℕ
replaced v [] = []
replaced v (x ∷ []) = v ∷ []
replaced v (x ∷ y ∷ s) = x ∷ replaced v (y ∷ s)

set-last : (v x : ℕ) (s : List ℕ) → set (x ∷ s) (length s) v ≡ replaced v (x ∷ s)
set-last v x [] = refl
set-last v x (y ∷ s) = ap (λ t. x ∷ t) (set-last v y s)

replace_last-replaced :
    (enc : Encoding) (lib : Library) (out : List ℕ)
    → replace_last enc lib out ≡ replaced enc.id_return out
replace_last-replaced enc lib [] = unfold replace_last in refl
replace_last-replaced enc lib (x ∷ s) =
    let filled : (length (x ∷ s) == 0) ≡ false = ground arith in
    let place : length (x ∷ s) - 1 ≡ length s = omega arith in
    unfold replace_last in rw (filled, place) (set-last enc.id_return x s)

replaced-append : (v y : ℕ) (xs ys : List ℕ) → replaced v (xs ++ y ∷ ys) ≡ xs ++ replaced v (y ∷ ys)
replaced-append v y [] ys = refl
replaced-append v y (x ∷ []) ys = refl
replaced-append v y (x ∷ x' ∷ xs) ys = ap (λ t. x ∷ t) (replaced-append v y (x' ∷ xs) ys)

-- The frames with another stop token of the last one.
abbrev stopped : ℕ → List Frame → List Frame
stopped v [] = []
stopped v (f ∷ []) = record f { stop = v } ∷ []
stopped v (f ∷ g ∷ fs) = f ∷ stopped v (g ∷ fs)

replaced-frame_tokens :
    (v : ℕ) (f : Frame) → replaced v (frame_tokens f) ≡ frame_tokens (record f { stop = v })
replaced-frame_tokens v f =
    replaced-append v tok_message (tok_start ∷ f.header_toks) (f.content_toks ++ f.stop ∷ [])
    ∙ ap (λ t. tok_start ∷ (f.header_toks ++ t))
        (replaced-append v f.stop (tok_message ∷ f.content_toks) [])

replaced-concat :
    (v : ℕ) (fs : List Frame)
    → replaced v (concat (map frame_tokens fs)) ≡ concat (map frame_tokens (stopped v fs))
replaced-concat v [] = refl
replaced-concat v (f ∷ []) =
    ap (replaced v) (append-nil (frame_tokens f))
    ∙ replaced-frame_tokens v f
    ∙ sym (append-nil (frame_tokens (record f { stop = v })))
replaced-concat v (f ∷ g ∷ fs) =
    replaced-append v tok_start (frame_tokens f) _
    ∙ ap (λ t. frame_tokens f ++ t) (replaced-concat v (g ∷ fs))

stopped-frame_message :
    (v : ℕ) (fs : List Frame) → map frame_message (stopped v fs) ≡ map frame_message fs
stopped-frame_message v [] = refl
stopped-frame_message v (f ∷ []) = refl
stopped-frame_message v (f ∷ g ∷ fs) =
    ap (λ t. frame_message f ∷ t) (stopped-frame_message v (g ∷ fs))

stopped-IsFrame :
    (enc : Encoding) (v : ℕ) (fs : List Frame)
    → is_member enc.stop_all v ≡ true
    → All (IsFrame enc) fs
    → All (IsFrame enc) (stopped v fs)
stopped-IsFrame enc v [] e h = tt
stopped-IsFrame enc v (f ∷ []) e (is, _) = (
  record {
    headers = is.headers;
    contents = is.contents;
    stops = e;
    header_decodes = is.header_decodes;
    content_decodes = is.content_decodes;
  },
  tt,
)
stopped-IsFrame enc v (f ∷ g ∷ fs) e (is, h) = (is, stopped-IsFrame enc v (g ∷ fs) e h)

-- The tokens for training: those of the conversation, with another one in place of the last if the
-- last message is to be returned.
abbrev pub EndsAs : Bool → ℕ → List ℕ → List ℕ → Type 0
EndsAs false v plain toks = toks ≡ plain
EndsAs true v plain toks =
    (front : List ℕ) × (last : ℕ) × (plain ≡ front ++ last ∷ []) × (toks ≡ front ++ v ∷ [])

replaced-EndsAs : (v x : ℕ) (s : List ℕ) → EndsAs true v (x ∷ s) (replaced v (x ∷ s))
replaced-EndsAs v x [] = ([], x, refl, refl)
replaced-EndsAs v x (y ∷ s) =
    let (front, last, e, e') = replaced-EndsAs v y s in
    (x ∷ front, last, ap (λ t. x ∷ t) e, ap (λ t. x ∷ t) e')

-- A final message at the end is kept.
without_analysis_filled :
    (msgs : List Message) (m : Message)
    → last_message msgs ≡ some m
    → is_final m ≡ true
    → (n : Message) × (ms : List Message) × (without_analysis msgs ≡ n ∷ ms)
without_analysis_filled [] m e f =
    let start : last_message [] ≡ none = unfold last_message in refl in
    let clash : none ≡ some m = sym start ∙ e in absurd (ground arith)
without_analysis_filled (x ∷ []) m e f =
    let start : last_message (x ∷ []) ≡ some x = unfold last_message in refl in
    let same' : some x ≡ some m = sym start ∙ e in
    let same : x ≡ m = ground arith in
    let final : is_final x ≡ true = rw same f in
    (x, [], unfold without_analysis in rw (final, without_analysis))
without_analysis_filled (x ∷ y ∷ msgs) m e f =
    let start : last_message (x ∷ y ∷ msgs) ≡ last_message (y ∷ msgs) =
      unfold last_message in refl in
    let (n, ms, rest) = without_analysis_filled (y ∷ msgs) m (sym start ∙ e) f in
    elim (Bool-cases (is_final x)) [
      | inl a ↦ (x, y ∷ msgs, unfold without_analysis in rw a)
      | inr a ↦ elim (Bool-cases (is_analysis x)) [
        | inl b ↦
            let here : without_analysis (x ∷ y ∷ msgs) ≡ without_analysis (y ∷ msgs) =
              unfold without_analysis in rw (a, b) in
            (n, ms, here ∙ rest)
        | inr b ↦ (x, without_analysis (y ∷ msgs), unfold without_analysis in rw (a, b))
      ]
    ]

kept_filled :
    (drop : Bool) (msgs : List Message) (m : Message)
    → last_message msgs ≡ some m
    → is_final m ≡ true
    → (n : Message) × (ms : List Message) × (kept drop msgs ≡ n ∷ ms)
kept_filled drop [] m e f =
    let start : last_message [] ≡ none = unfold last_message in refl in
    let clash : none ≡ some m = sym start ∙ e in absurd (ground arith)
kept_filled drop (x ∷ msgs) m e f =
    let (n, ms, rest) = without_analysis_filled (x ∷ msgs) m e f in
    elim (Bool-cases (drop && ends_final false (x ∷ msgs))) [
      | inl a ↦
          let here : kept drop (x ∷ msgs) ≡ without_analysis (x ∷ msgs) = unfold kept in rw a in
          (n, ms, here ∙ rest)
      | inr a ↦ (x, msgs, unfold kept in rw a)
    ]

module _ (enc : Encoding) (harmony : IsHarmony enc) (separate : IsSeparate enc)
    (lib : Library) where
  training-cases :
      (s : Schedule) (msgs : List Message) (cfg : Option Bool) (m : Message) (out : List ℕ)
      → last_message msgs ≡ some m
      → render_conversation enc lib s msgs cfg ≡ ok out
      → render_conversation_for_training enc lib s msgs cfg
        ≡ ok (if is_assistant m && is_final m then replace_last enc lib out else out)
  training-cases s msgs cfg m out last run =
      unfold render_conversation_for_training in rw (last, run, render_conversation_for_training)

  -- The frames of messages of which there is one are not empty.
  FramesOf-EndsAs :
      (tools : Bool) (ms : List Message) (fs : List Frame) (n : Message) (ns : List Message)
      → ms ≡ n ∷ ns
      → FramesOf enc harmony separate lib tools ms fs
      → EndsAs true enc.id_return
          (concat (map frame_tokens fs))
          (replaced enc.id_return (concat (map frame_tokens fs)))
  FramesOf-EndsAs tools [] fs n ns e are = absurd (ground arith)
  FramesOf-EndsAs tools (m ∷ ms) [] n ns e are = absurd are
  FramesOf-EndsAs tools (m ∷ ms) (f ∷ fs) n ns e are = replaced-EndsAs enc.id_return tok_start _

  -- For a conversation that is not empty, of messages without errors, RenderConversationForTraining
  -- returns the tokens that RenderConversation returns, and if the last message is a final one of
  -- an assistant, it has the token of `<|return|>` in place of the last of them. Either way the
  -- parser reads them as the messages that are kept, in order, each with the fields that its header
  -- shows and the texts of its contents as one text.
  pub parse_messages-render_conversation_for_training :
      (s : Schedule) (msgs : List Message) (cfg : Option Bool) (m : Message)
      → last_message msgs ≡ some m
      → IsWritableConversation lib msgs cfg
      → All IsFine (kept_messages msgs cfg)
      → All (λ i. In i (indices_of msgs cfg)) s.order
      → (plain : List ℕ) × (toks : List ℕ) × (render_conversation enc lib s msgs cfg ≡ ok plain)
        × (render_conversation_for_training enc lib s msgs cfg ≡ ok toks)
        × EndsAs (is_assistant m && is_final m) enc.id_return plain toks
        × (parse_messages enc toks none
            ≡ some (map (read_back lib (tools_of msgs)) (kept_messages msgs cfg)))
  parse_messages-render_conversation_for_training s msgs cfg m last w f h =
      let (fs, are, run) = render_conversation-frames enc harmony separate lib s msgs cfg w f h in
      let whole = FramesOf-IsFrame enc harmony separate lib (tools_of msgs) _ fs are in
      let same = FramesOf-read_back enc harmony separate lib (tools_of msgs) _ fs are in
      let plain = concat (map frame_tokens fs) in
      let cases = training-cases s msgs cfg m plain last run in
      elim (Bool-cases (is_assistant m && is_final m)) [
        | inr e ↦ (
          plain,
          plain,
          run,
          cases ∙ (rw e),
          (rw e refl),
          parse_messages-frames enc fs whole ∙ ap some same,
        )
        | inl e ↦
            let final : is_final m ≡ true = ground arith in
            let (n, ns, filled) = kept_filled _ msgs m last final in
            let out = replace_last-replaced enc lib plain in
            let tokens = replaced-concat enc.id_return fs in
            let ends = FramesOf-EndsAs (tools_of msgs) _ fs n ns filled are in
            (
              plain,
              replaced enc.id_return plain,
              run,
              cases ∙ (rw e (ap ok out)),
              (rw e ends),
              (rw tokens (
                  parse_messages-frames enc (stopped enc.id_return fs)
                    (stopped-IsFrame enc enc.id_return fs separate.return_stops whole)
                  ∙ ap some (stopped-frame_message enc.id_return fs ∙ same))),
            )
      ]
