-- ===== src/Render/Contents.antt =====
-- The contents of a message: each is rendered as its text, or it is an error.
use harmony_go.Prelude.{
  ℕ, ◌≡◌, refl, sym, ◌∙◌, Bool, List, [], ◌∷◌, ◌++◌, none, some, Bytes, bytes_eq, err, ◌>=>◌, arith,
  Bool-cases, Option-cases, inl, inr, ◌⊎◌,
}
use harmony_go.Tokenizer.Core.Decode.{IsBase}
use harmony_go.Types.{Content, content_text, content_system, content_developer}
use harmony_go.Encoding.{Encoding}
use harmony_go.Sections.{Library}
use harmony_go.Render.{
  Step, RenderError, nil_system, nil_developer, unknown_content, fail, render_text, render_content,
  render_contents,
}
use harmony_go.Render.Texts.{IsHarmony, Emits, Emits-skip, Emits-then, Emits-text}
use harmony_go.Render.Spec.{
  text_of_content, texts_of_contents, AreWritable, content_error, contents_error,
}

-- The step returns the error whatever it is given.
abbrev pub Fails : RenderError → Step → Type 0
Fails e f = (out : List ℕ) → f out ≡ err e

pub Fails-then : (e : RenderError) (f g : Step) → Fails e f → Fails e (f >=> g)
Fails-then e f g h out = rw (h out)

-- A content is rendered as its text, or it is an error.
module _ (enc : Encoding) (lib : Library) (tools : Bool) where
  abbrev IsText : Content → Type 0
  IsText c =
      (content_error c ≡ none)
      × (render_content enc lib tools c ≡ render_text enc (text_of_content lib tools c))

  abbrev IsError : Content → Type 0
  IsError c =
      (e : RenderError) × (content_error c ≡ some e) × (render_content enc lib tools c ≡ fail e)

  content_cases : (c : Content) → IsText c ⊎ IsError c
  unfolding content_error render_content text_of_content
  content_cases c = elim (Bool-cases (bytes_eq c.kind content_text)) [
    | inl a ↦ inl (rw a, rw a)
    | inr a ↦ elim (Bool-cases (bytes_eq c.kind content_system)) [
      | inl b ↦ elim (Option-cases c.system) [
        | inl missing ↦ inr (nil_system, rw (a, b, missing), rw (a, b, missing))
        | inr (sys, known) ↦ inl (rw (a, b, known), rw (a, b, known))
      ]
      | inr b ↦ elim (Bool-cases (bytes_eq c.kind content_developer)) [
        | inl d ↦ elim (Option-cases c.developer) [
          | inl missing ↦ inr (nil_developer, rw (a, b, d, missing), rw (a, b, d, missing))
          | inr (dev, known) ↦ inl (rw (a, b, d, known), rw (a, b, d, known))
        ]
        | inr d ↦ inr (unknown_content, rw (a, b, d), rw (a, b, d))
      ]
    ]
  ]

contents_error_nil : (e : RenderError) → contents_error [] ≡ some e → ⊥
unfolding contents_error
contents_error_nil e h = ground arith

module _ (enc : Encoding) (harmony : IsHarmony enc) (P : ℕ → Type 0)
    (base : (t : ℕ) → IsBase enc.bpe t → P t) where
  pub Fails-behind :
      (e : RenderError) (f g : Step) (s : Bytes)
      → Emits enc.bpe P f s
      → Fails e g
      → Fails e (f >=> g)
  Fails-behind e f g s ef h out =
      let run = ef.runs in let toks = ef.toks in rw (run out) (h (out ++ toks))

  module _ (lib : Library) (tools : Bool) where
    contents_error_next :
        (c : Content) (cs : List Content)
        → content_error c ≡ none
        → contents_error (c ∷ cs) ≡ contents_error cs
    contents_error_next c cs e = unfold contents_error in rw (e, contents_error)

    contents_error_first :
        (c : Content) (cs : List Content) (e : RenderError)
        → content_error c ≡ some e
        → contents_error (c ∷ cs) ≡ some e
    contents_error_first c cs e h = unfold contents_error in rw (h, contents_error)

    pub render_contents-Emits :
        (cs : List Content)
        → AreWritable lib tools cs
        → contents_error cs ≡ none
        → Emits enc.bpe P (render_contents enc lib tools cs) (texts_of_contents lib tools cs)
    unfolding render_contents texts_of_contents
    render_contents-Emits [] w e = Emits-skip enc.bpe P
    render_contents-Emits (c ∷ cs) (h, w) e = elim (content_cases enc lib tools c) [
      | inl (fine, same) ↦ rw same (
          Emits-then enc.bpe P _ _ _ _ (Emits-text enc harmony P base _ h)
            (render_contents-Emits cs w (sym (contents_error_next c cs fine) ∙ e)))
      | inr (error, bad, same) ↦
          let clash : some error ≡ none = sym (contents_error_first c cs error bad) ∙ e in
          absurd (ground arith)
    ]

    pub render_contents-Fails :
        (cs : List Content) (e : RenderError)
        → AreWritable lib tools cs
        → contents_error cs ≡ some e
        → Fails e (render_contents enc lib tools cs)
    unfolding render_contents fail
    render_contents-Fails [] e w h = absurd (contents_error_nil e h)
    render_contents-Fails (c ∷ cs) e (b, w) h = elim (content_cases enc lib tools c) [
      | inl (fine, same) ↦ rw same (
          Fails-behind e _ _ _ (Emits-text enc harmony P base _ b)
            (render_contents-Fails cs e w (sym (contents_error_next c cs fine) ∙ h)))
      | inr (error, bad, same) ↦
          let first : some error ≡ some e = sym (contents_error_first c cs error bad) ∙ h in
          let eq : error ≡ e = ground arith in
          rw (same, eq)
            (Fails-then e (λ out. err e) (render_contents enc lib tools cs) (λ out. refl))
    ]
