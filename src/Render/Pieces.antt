-- ===== src/Render/Pieces.antt =====
-- The header of a message: both renderers emit tokens of the same text.
use harmony_go.Prelude.{
  All-drop, ℕ, ◌≡◌, refl, sym, ap, ◌∙◌, true, false, not, ◌&&◌, [], ◌∷◌, ◌++◌, Bytes, codes,
  bytes_eq, if◌then◌else◌, length, All-append, append_assoc, append-nil, ◌>=>◌, drop, arith,
  Bool-cases, inl, inr,
}
use harmony_go.Tokenizer.Segmenter.Contraction.{IsBytes}
use harmony_go.Tokenizer.Core.Decode.{IsBase}
use harmony_go.Types.{role_tool, Message}
use harmony_go.Header.{is_empty, constrain_marker}
use harmony_go.Text.{has_prefix}
use harmony_go.Encoding.{Encoding}
use harmony_go.Encoding.Estimate.{needs_recipient}
use harmony_go.Render.{
  Step, emit, skip, render_text, header_pieces, header_joined, render_content_type,
  content_type_part,
}
use harmony_go.Render.Texts.{IsHarmony, Emits, Emits-skip, Emits-emit, Emits-then, Emits-text}
use harmony_go.Render.Spec.{author_text, recipient_text, channel_text, content_type_text}

-- A text that begins with a prefix is the prefix and the rest.
pub has_prefix-append : (s pat : Bytes) → has_prefix s pat ≡ true → pat ++ drop (length pat) s ≡ s
unfolding has_prefix
has_prefix-append s [] h = refl
has_prefix-append [] (p ∷ pat) h = absurd (ground arith)
has_prefix-append (b ∷ s) (p ∷ pat) h =
    let same : b ≡ p = ground arith in
    let rest : has_prefix s pat ≡ true = ground arith in
    rw same (ap (λ t. p ∷ t) (has_prefix-append s pat rest))

pub is_empty→nil : (s : Bytes) → is_empty s ≡ true → s ≡ []
unfolding is_empty
is_empty→nil [] h = refl
is_empty→nil (b ∷ s) h = absurd (ground arith)

module _ (enc : Encoding) (harmony : IsHarmony enc) (P : ℕ → Type 0)
    (base : (t : ℕ) → IsBase enc.bpe t → P t) where
  abbrev Emit : Step → Bytes → Type 0
  Emit f text = Emits enc.bpe P f text

  text : (s : Bytes) → IsBytes s → Emit (render_text enc s) s
  text s h = Emits-text enc harmony P base s h

  -- ` to=` and the recipient, as one text or as two.
  recipient_pieces :
      (s : Bytes)
      → IsBytes s
      → Emit (render_text enc (codes " to=") >=> render_text enc s) (codes " to=" ++ s)
  recipient_pieces s h =
      Emits-then enc.bpe P (render_text enc (codes " to=")) (render_text enc s) (codes " to=") s
        (text (codes " to=") (omega arith)) (text s h)

  name_pieces :
      (s : Bytes)
      → IsBytes s
      → Emit
          (if is_empty s then skip else render_text enc (codes ":") >=> render_text enc s)
          (if is_empty s then [] else codes ":" ++ s)
  name_pieces s h = elim (Bool-cases (is_empty s)) [
    | inl e ↦ rw e (Emits-skip enc.bpe P)
    | inr e ↦ rw e (
        Emits-then enc.bpe P (render_text enc (codes ":")) (render_text enc s) (codes ":") s
          (text (codes ":") (omega arith)) (text s h))
  ]

  recipient_part :
      (msg : Message)
      → IsBytes msg.recipient
      → Emit
          (if needs_recipient msg
            then render_text enc (codes " to=") >=> render_text enc msg.recipient
            else skip)
          (recipient_text msg)
  recipient_part msg h = elim (Bool-cases (needs_recipient msg)) [
    | inl e ↦ unfold recipient_text in rw e (recipient_pieces msg.recipient h)
    | inr e ↦ unfold recipient_text in rw e (Emits-skip enc.bpe P)
  ]

  -- A text that is nothing but skipped parts.
  Emit-as : (f : Step) (s t : Bytes) → s ≡ t → Emit f s → Emit f t
  Emit-as f s t e h = rw (← e) h

  pub header_pieces-Emits :
      (msg : Message)
      → IsBytes msg.author.role
      → IsBytes msg.author.name
      → IsBytes msg.recipient
      → Emit (header_pieces enc msg) (author_text msg ++ recipient_text msg)
  header_pieces-Emits msg role name recipient =
      elim (Bool-cases (bytes_eq msg.author.role role_tool)) [
        | inl tool ↦ elim (Bool-cases (needs_recipient msg)) [
          | inl needs ↦
              unfold header_pieces author_text recipient_text in
              rw (tool, needs)
                (Emit-as _ _ _ (append_assoc msg.author.name (codes " to=") msg.recipient) (
                  Emits-then enc.bpe P
                    (render_text enc msg.author.name >=> render_text enc (codes " to="))
                    (render_text enc msg.recipient) (msg.author.name ++ codes " to=") msg.recipient
                    (Emits-then enc.bpe P (render_text enc msg.author.name)
                      (render_text enc (codes " to=")) msg.author.name (codes " to=")
                      (text msg.author.name name) (text (codes " to=") (omega arith)))
                    (text msg.recipient recipient)))
          | inr alone ↦
              unfold header_pieces author_text recipient_text in
              rw (tool, alone, append-nil) (text msg.author.name name)
        ]
        | inr other ↦ elim (Bool-cases (is_empty msg.author.name && not (needs_recipient msg))) [
          | inl bare ↦
              let no_name : is_empty msg.author.name ≡ true = ground arith in
              let alone : needs_recipient msg ≡ false = ground arith in
              unfold header_pieces author_text recipient_text in
              rw (other, bare, no_name, alone, append-nil, append-nil) (text msg.author.role role)
          | inr more ↦
              unfold header_pieces author_text in
              rw (other, more)
                (Emits-then enc.bpe P _ _ _ _
                  (Emits-then enc.bpe P _ _ _ _ (text msg.author.role role)
                    (name_pieces msg.author.name name))
                  (recipient_part msg recipient))
        ]
      ]

  joined_bytes : (s t : Bytes) → IsBytes s → IsBytes t → IsBytes (s ++ t)
  joined_bytes s t hs ht = All-append _ s t hs ht

  pub recipient_text-IsBytes :
      (msg : Message) → IsBytes msg.recipient → IsBytes (recipient_text msg)
  recipient_text-IsBytes msg h = elim (Bool-cases (needs_recipient msg)) [
    | inl e ↦
        unfold recipient_text in rw e (joined_bytes (codes " to=") msg.recipient (omega arith) h)
    | inr e ↦ unfold recipient_text in rw e tt
  ]

  name_text_bytes : (s : Bytes) → IsBytes s → IsBytes (if is_empty s then [] else codes ":" ++ s)
  name_text_bytes s h = elim (Bool-cases (is_empty s)) [
    | inl e ↦ rw e tt
    | inr e ↦ rw e (joined_bytes (codes ":") s (omega arith) h)
  ]

  pub header_joined-Emits :
      (msg : Message)
      → IsBytes msg.author.role
      → IsBytes msg.author.name
      → IsBytes msg.recipient
      → Emit (header_joined enc msg) (author_text msg ++ recipient_text msg)
  header_joined-Emits msg role name recipient =
      elim (Bool-cases (bytes_eq msg.author.role role_tool)) [
        | inl tool ↦ elim (Bool-cases (needs_recipient msg)) [
          | inl needs ↦
              let all =
                joined_bytes (msg.author.name ++ codes " to=") msg.recipient
                  (joined_bytes msg.author.name (codes " to=") name (omega arith)) recipient in
              unfold header_joined author_text recipient_text in
              rw (tool, needs)
                (Emit-as _ _ _ (append_assoc msg.author.name (codes " to=") msg.recipient)
                  (text (msg.author.name ++ codes " to=" ++ msg.recipient) all))
          | inr alone ↦
              unfold header_joined author_text recipient_text in
              rw (tool, alone, append-nil) (text msg.author.name name)
        ]
        | inr other ↦ elim (Bool-cases (is_empty msg.author.name && not (needs_recipient msg))) [
          | inl bare ↦
              let no_name : is_empty msg.author.name ≡ true = ground arith in
              let alone : needs_recipient msg ≡ false = ground arith in
              unfold header_joined author_text recipient_text in
              rw (other, bare, no_name, alone, append-nil, append-nil) (text msg.author.role role)
          | inr more ↦
              let author =
                joined_bytes msg.author.role
                  (if is_empty msg.author.name then [] else codes ":" ++ msg.author.name) role
                  (name_text_bytes msg.author.name name) in
              let recipient' = recipient_text-IsBytes msg recipient in
              unfold header_joined author_text recipient_text in
              rw (other, more)
                (text _ (joined_bytes _ _ author (unfold recipient_text in recipient')))
        ]
      ]

  -- The part of the channel, where the token of the format is emitted by the step `f`.
  pub channel_part-Emits :
      (msg : Message) (f : Step)
      → IsBytes msg.channel
      → Emit f (codes "<|channel|>")
      → Emit
          (if is_empty msg.channel then skip else f >=> render_text enc msg.channel)
          (channel_text msg)
  channel_part-Emits msg f h ef = elim (Bool-cases (is_empty msg.channel)) [
    | inl e ↦ unfold channel_text in rw e (Emits-skip enc.bpe P)
    | inr e ↦
        unfold channel_text in
        rw e (
          Emits-then enc.bpe P f (render_text enc msg.channel) (codes "<|channel|>") msg.channel ef
            (text msg.channel h))
  ]

  module _ (constrain : P enc.id_constrain) where
    render_content_type-Emits :
        (ct : Bytes) → IsBytes ct → Emit (render_content_type enc ct) (codes " " ++ ct)
    render_content_type-Emits ct h = elim (Bool-cases (has_prefix ct constrain_marker)) [
      | inr e ↦
          unfold render_content_type in
          rw e (text (codes " " ++ ct) (joined_bytes (codes " ") ct (omega arith) h))
      | inl e ↦
          let rest = drop (length constrain_marker) ct in
          let split : constrain_marker ++ rest ≡ ct = has_prefix-append ct constrain_marker e in
          let rest_bytes : IsBytes rest = All-drop _ (length constrain_marker) ct h in
          let marked =
            Emits-then enc.bpe P (render_text enc (codes " ")) (emit enc.id_constrain) (codes " ")
              constrain_marker (text (codes " ") (omega arith))
              (Emits-emit enc.bpe P enc.id_constrain constrain_marker harmony.constrain_literal
                constrain) in
          elim (Bool-cases (is_empty rest)) [
            | inl none_left ↦
                let nothing : rest ≡ [] = is_empty→nil rest none_left in
                unfold render_content_type in
                rw (e, none_left)
                  (Emit-as _ _ _
                    (ap (λ t. (codes " " ++ constrain_marker) ++ t) (sym nothing)
                      ∙ ap (λ t. codes " " ++ t) split)
                    (Emits-then enc.bpe P _ skip (codes " " ++ constrain_marker) [] marked
                      (Emits-skip enc.bpe P)))
            | inr some_left ↦
                unfold render_content_type in
                rw (e, some_left)
                  (Emit-as _ _ _ (ap (λ t. codes " " ++ t) split) (
                    Emits-then enc.bpe P _ (render_text enc rest) (codes " " ++ constrain_marker)
                      rest marked (text rest rest_bytes)))
          ]
    ]

    pub content_type_part-Emits :
        (msg : Message)
        → IsBytes msg.content_type
        → Emit (content_type_part enc msg) (content_type_text msg)
    content_type_part-Emits msg h = elim (Bool-cases (is_empty msg.content_type)) [
      | inl e ↦ unfold content_type_part content_type_text in rw e (Emits-skip enc.bpe P)
      | inr e ↦
          unfold content_type_part content_type_text in
          rw e (render_content_type-Emits msg.content_type h)
    ]
