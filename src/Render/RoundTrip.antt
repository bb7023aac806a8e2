-- ===== src/Render/RoundTrip.antt =====
-- The stream parser on the tokens of a rendered conversation.
use harmony_go.Prelude.{
  ℕ, ◌≡◌, refl, sym, ap, ◌∙◌, Bool, List, [], ◌∷◌, ◌++◌, Option, none, some, ok, Bool-cases, inl,
  inr, All, In, map, concat, ◌==◌, length, append-nil, append_assoc,
}
use harmony_go.Types.{Message}
use harmony_go.Encoding.{Encoding}
use harmony_go.Encoding.Estimate.{should_parallel_render}
use harmony_go.Sections.{Library}
use harmony_go.Parser.{parse_messages, parse_header_text, open_message}
use harmony_go.Parser.Steps.{with_text}
use harmony_go.Parser.Framing.{Frame, IsFrame, frame_tokens, frame_message, parse_messages-frames}
use harmony_go.Render.{skip}
use harmony_go.Render.Texts.{IsHarmony}
use harmony_go.Render.Spec.{header_text, texts_of_contents, AllWritable, IsFine}
use harmony_go.Render.Conversation.{
  Schedule, render_at, render_into_at, render_serial, collect, render_parallel, render_conversation,
}
use harmony_go.Render.Conversations.{Paired, first_error-none}
use harmony_go.Render.Outcome.{
  kept_messages, tools_of, indices_of, IsWritableConversation, indices_of-Paired, nothing_kept,
}
use harmony_go.Render.Frames.{
  IsSeparate, IsFrameOf, render_message_into-frame, render_message-frame,
}

-- What the parser reads back from a rendered message: the fields that its header shows, and the
-- texts of its contents as one text.
unfoldable pub read_back : Library → Bool → Message → Message
read_back lib tools m =
    with_text (open_message (parse_header_text none (header_text m)))
      (texts_of_contents lib tools m.content)

module _ (enc : Encoding) (harmony : IsHarmony enc) (separate : IsSeparate enc)
    (lib : Library) where
  module _ (tools : Bool) where
    abbrev pub FramesOf : List Message → List Frame → Type 0
    FramesOf [] [] = Unit
    FramesOf [] (f ∷ fs) = ⊥
    FramesOf (m ∷ ms) [] = ⊥
    FramesOf (m ∷ ms) (f ∷ fs) = IsFrameOf enc harmony separate lib tools m f × FramesOf ms fs

    pub FramesOf-IsFrame :
        (ms : List Message) (fs : List Frame) → FramesOf ms fs → All (IsFrame enc) fs
    FramesOf-IsFrame [] [] h = tt
    FramesOf-IsFrame [] (f ∷ fs) h = absurd h
    FramesOf-IsFrame (m ∷ ms) [] h = absurd h
    FramesOf-IsFrame (m ∷ ms) (f ∷ fs) (is, h) = (is.whole, FramesOf-IsFrame ms fs h)

    pub FramesOf-read_back :
        (ms : List Message) (fs : List Frame)
        → FramesOf ms fs
        → map frame_message fs ≡ map (read_back lib tools) ms
    unfolding read_back
    FramesOf-read_back [] [] h = refl
    FramesOf-read_back [] (f ∷ fs) h = absurd h
    FramesOf-read_back (m ∷ ms) [] h = absurd h
    FramesOf-read_back (m ∷ ms) (f ∷ fs) (is, h) =
        let header = is.header_same in
        let content = is.content_same in rw (header, content, FramesOf-read_back ms fs h)

    module _ (msgs : List Message) where
      render_serial-frames :
          (indices : List ℕ) (ms : List Message)
          → Paired msgs indices ms
          → AllWritable lib tools ms
          → All IsFine ms
          → (fs : List Frame) × FramesOf ms fs
            × ((out : List ℕ)
                → render_serial enc lib tools msgs indices out
                  ≡ ok (out ++ concat (map frame_tokens fs)))
      unfolding render_serial
      render_serial-frames [] [] p w f =
          ([], tt, λ out. unfold skip in ap ok (sym (append-nil out)))
      render_serial-frames [] (m ∷ ms) p w f = absurd p
      render_serial-frames (i ∷ indices) [] p w f = absurd p
      render_serial-frames (i ∷ indices) (m ∷ ms) (e, p) (b, w) (fine, f) =
          let (frame, is, runs) =
            render_message_into-frame enc harmony separate lib tools m b fine in
          let (fs, are, rest) = render_serial-frames indices ms p w f in
          (
            frame ∷ fs,
            (is, are),
            λ out.
                let here : render_into_at enc lib tools msgs i out
                    ≡ ok (out ++ frame_tokens frame) =
                  unfold render_into_at in rw (e, render_into_at) (runs out) in
                rw here (
                  rest (out ++ frame_tokens frame)
                  ∙ ap ok (append_assoc out (frame_tokens frame) (concat (map frame_tokens fs)))),
          )

      collect-frames :
          (indices : List ℕ) (ms : List Message)
          → Paired msgs indices ms
          → AllWritable lib tools ms
          → All IsFine ms
          → (fs : List Frame) × FramesOf ms fs
            × (collect enc lib tools msgs indices ≡ concat (map frame_tokens fs))
      unfolding collect
      collect-frames [] [] p w f = ([], tt, refl)
      collect-frames [] (m ∷ ms) p w f = absurd p
      collect-frames (i ∷ indices) [] p w f = absurd p
      collect-frames (i ∷ indices) (m ∷ ms) (e, p) (b, w) (fine, f) =
          let (frame, is, runs) = render_message-frame enc harmony separate lib tools m b fine in
          let (fs, are, rest) = collect-frames indices ms p w f in
          let here : render_at enc lib tools msgs i ≡ ok (frame_tokens frame) =
            unfold render_at in rw (e, render_at) runs in
          (frame ∷ fs, (is, are), rw (here, rest))

  pub render_conversation-frames :
      (s : Schedule) (msgs : List Message) (cfg : Option Bool)
      → IsWritableConversation lib msgs cfg
      → All IsFine (kept_messages msgs cfg)
      → All (λ i. In i (indices_of msgs cfg)) s.order
      → (fs : List Frame) × FramesOf (tools_of msgs) (kept_messages msgs cfg) fs
        × (render_conversation enc lib s msgs cfg ≡ ok (concat (map frame_tokens fs)))
  render_conversation-frames s msgs cfg w f h =
      let indices = indices_of msgs cfg in
      let tools = tools_of msgs in
      let p = indices_of-Paired msgs cfg in
      elim (Bool-cases (length indices == 0)) [
        | inl empty ↦
            let gone = nothing_kept msgs indices (kept_messages msgs cfg) p empty in
            ([], rw gone tt, unfold render_conversation in rw empty)
        | inr filled ↦ elim (Bool-cases (should_parallel_render s.parallel msgs indices)) [
          | inl parallel ↦
              let no_error =
                first_error-none enc harmony lib tools msgs s.order indices _ p w f h in
              let (fs, are, collected) = collect-frames tools msgs indices _ p w f in
              (
                fs,
                are,
                unfold render_conversation render_parallel in
                    rw (filled, parallel, no_error, render_parallel) (ap ok collected),
              )
          | inr serial ↦
              let (fs, are, runs) = render_serial-frames tools msgs indices _ p w f in
              (fs, are, unfold render_conversation in rw (filled, serial) (runs []))
        ]
      ]

  -- What RenderConversation returns for messages without errors, the parser reads as the messages
  -- that are kept, in order: each with the fields that its header shows and the texts of its
  -- contents as one text, whichever path is taken and in whatever order the goroutines finish.
  pub parse_messages-render_conversation :
      (s : Schedule) (msgs : List Message) (cfg : Option Bool)
      → IsWritableConversation lib msgs cfg
      → All IsFine (kept_messages msgs cfg)
      → All (λ i. In i (indices_of msgs cfg)) s.order
      → (toks : List ℕ) × (render_conversation enc lib s msgs cfg ≡ ok toks)
        × (parse_messages enc toks none
            ≡ some (map (read_back lib (tools_of msgs)) (kept_messages msgs cfg)))
  parse_messages-render_conversation s msgs cfg w f h =
      let (fs, are, run) = render_conversation-frames s msgs cfg w f h in
      (
        concat (map frame_tokens fs),
        run,
        parse_messages-frames enc fs (FramesOf-IsFrame (tools_of msgs) _ fs are)
            ∙ ap some (FramesOf-read_back (tools_of msgs) _ fs are),
      )
