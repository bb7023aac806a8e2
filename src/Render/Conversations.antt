-- ===== src/Render/Conversations.antt =====
-- Conversations: what the serial and the parallel path return, whatever the schedule.
use harmony_go.Prelude.{
  ℕ, ◌≡◌, refl, sym, ◌∙◌, Bool, List, [], ◌∷◌, ◌++◌, none, some, ok, err, Option-cases, inl, inr,
  arith, All, All-In, In, map, get_elem?,
}
use harmony_go.Tokenizer.Core.Decode.{DecodesTo, DecodesTo-nil, DecodesTo-append}
use harmony_go.Types.{Message}
use harmony_go.Encoding.{Encoding}
use harmony_go.Encoding.Select.Kept.{at_indices}
use harmony_go.Sections.{Library}
use harmony_go.Render.{RenderError}
use harmony_go.Render.Texts.{IsHarmony, Emits, Emits-skip, Emits-then}
use harmony_go.Render.Spec.{
  message_text, message_error, IsWritable, conversation_text, AllWritable, IsFine, HasError,
  first_message_error, error_in_turn,
}
use harmony_go.Render.Contents.{Fails}
use harmony_go.Render.Whole.{
  render_message_into-Emits, render_message_into-Fails, render_message-ok, render_message-err,
}
use harmony_go.Render.Agree.{IsAny, IsAny-AllowsFormat}
use harmony_go.Render.Conversation.{render_at, render_into_at, render_serial, first_error, collect}

-- The messages at the indices.
abbrev pub Paired : List Message → List ℕ → List Message → Type 0
Paired msgs [] [] = Unit
Paired msgs [] (m ∷ ms) = ⊥
Paired msgs (i ∷ indices) [] = ⊥
Paired msgs (i ∷ indices) (m ∷ ms) = (get_elem? msgs i ≡ some m) × Paired msgs indices ms

pub Paired-of :
    (msgs : List Message) (indices : List ℕ) (ms : List Message)
    → at_indices msgs indices ≡ map some ms
    → Paired msgs indices ms
Paired-of msgs [] [] e = tt
Paired-of msgs [] (m ∷ ms) e = ground arith
Paired-of msgs (i ∷ indices) [] e = ground arith
Paired-of msgs (i ∷ indices) (m ∷ ms) e =
    let head : get_elem? msgs i ≡ some m = ground arith in
    let tail : at_indices msgs indices ≡ map some ms = ground arith in
    (head, Paired-of msgs indices ms tail)

module _ (enc : Encoding) (harmony : IsHarmony enc) (lib : Library) (tools : Bool) where
  module _ (msgs : List Message) where
    render_into_at-Emits :
        (i : ℕ) (m : Message)
        → get_elem? msgs i ≡ some m
        → IsWritable lib tools m
        → IsFine m
        → Emits enc.bpe IsAny (render_into_at enc lib tools msgs i) (message_text lib tools m)
    render_into_at-Emits i m e b fine =
        let emits =
          render_message_into-Emits enc harmony IsAny (λ t h. tt) lib tools m
            (IsAny-AllowsFormat enc harmony lib tools) b fine in
        let run = emits.runs in
        record {
          toks = emits.toks;
          runs = λ out. unfold render_into_at in rw (e, render_into_at) (run out);
          decodes = emits.decodes;
          within = emits.within;
        }

    render_into_at-Fails :
        (i : ℕ) (m : Message) (error : RenderError)
        → get_elem? msgs i ≡ some m
        → IsWritable lib tools m
        → message_error m ≡ some error
        → Fails error (render_into_at enc lib tools msgs i)
    render_into_at-Fails i m error e b bad out =
        unfold render_into_at in
        rw (e, render_into_at)
          (render_message_into-Fails enc harmony IsAny (λ t h. tt) lib tools m
            (IsAny-AllowsFormat enc harmony lib tools) b error bad out)

    pub render_serial-Emits :
        (indices : List ℕ) (ms : List Message)
        → Paired msgs indices ms
        → AllWritable lib tools ms
        → All IsFine ms
        → Emits enc.bpe IsAny
            (render_serial enc lib tools msgs indices)
            (conversation_text lib tools ms)
    unfolding render_serial conversation_text
    render_serial-Emits [] [] p w f = Emits-skip enc.bpe IsAny
    render_serial-Emits [] (m ∷ ms) p w f = absurd p
    render_serial-Emits (i ∷ indices) [] p w f = absurd p
    render_serial-Emits (i ∷ indices) (m ∷ ms) (e, p) (b, w) (fine, f) =
        Emits-then enc.bpe IsAny _ _ _ _ (render_into_at-Emits i m e b fine)
          (render_serial-Emits indices ms p w f)

    -- The tokens of a message, at its index.
    render_at-ok :
        (i : ℕ) (m : Message)
        → get_elem? msgs i ≡ some m
        → IsWritable lib tools m
        → IsFine m
        → (toks : List ℕ) × (render_at enc lib tools msgs i ≡ ok toks)
          × DecodesTo enc.bpe toks (message_text lib tools m)
    render_at-ok i m e b fine =
        let (toks, run, d, _) =
          render_message-ok enc harmony IsAny (λ t h. tt) lib tools m
            (IsAny-AllowsFormat enc harmony lib tools) b fine in
        (toks, unfold render_at in rw (e, render_at) run, d)

    pub render_at-err :
        (i : ℕ) (m : Message) (error : RenderError)
        → get_elem? msgs i ≡ some m
        → IsWritable lib tools m
        → message_error m ≡ some error
        → render_at enc lib tools msgs i ≡ err error
    render_at-err i m error e b bad =
        unfold render_at in
        rw (e, render_at)
          (render_message-err enc harmony IsAny (λ t h. tt) lib tools m
            (IsAny-AllowsFormat enc harmony lib tools) b error bad)

    pub collect-DecodesTo :
        (indices : List ℕ) (ms : List Message)
        → Paired msgs indices ms
        → AllWritable lib tools ms
        → All IsFine ms
        → DecodesTo enc.bpe (collect enc lib tools msgs indices) (conversation_text lib tools ms)
    unfolding collect conversation_text
    collect-DecodesTo [] [] p w f = DecodesTo-nil enc.bpe
    collect-DecodesTo [] (m ∷ ms) p w f = absurd p
    collect-DecodesTo (i ∷ indices) [] p w f = absurd p
    collect-DecodesTo (i ∷ indices) (m ∷ ms) (e, p) (b, w) (fine, f) =
        let (toks, run, d) = render_at-ok i m e b fine in
        let rest = collect-DecodesTo indices ms p w f in
        rw run (DecodesTo-append enc.bpe toks _ _ _ d rest)

    -- The message at an index of the list.
    message_of :
        (indices : List ℕ) (ms : List Message) (i : ℕ)
        → Paired msgs indices ms
        → In i indices
        → (m : Message) × In m ms × (get_elem? msgs i ≡ some m)
    message_of [] ms i p h = absurd h
    message_of (j ∷ indices) [] i p h = absurd p
    message_of (j ∷ indices) (m ∷ ms) i (e, p) (inl same) = (m, inl refl, rw same e)
    message_of (j ∷ indices) (m ∷ ms) i (e, p) (inr h) =
        let (n, there, found) = message_of indices ms i p h in (n, inr there, found)

    -- The index of a message of the list.
    pub index_of :
        (indices : List ℕ) (ms : List Message) (m : Message)
        → Paired msgs indices ms
        → In m ms
        → (i : ℕ) × In i indices × (get_elem? msgs i ≡ some m)
    index_of [] [] m p h = absurd h
    index_of [] (n ∷ ms) m p h = absurd p
    index_of (i ∷ indices) [] m p h = absurd h
    index_of (i ∷ indices) (n ∷ ms) m (e, p) (inl same) = (i, inl refl, rw same e)
    index_of (i ∷ indices) (n ∷ ms) m (e, p) (inr h) =
        let (j, there, found) = index_of indices ms m p h in (j, inr there, found)

    first_error_next :
        (i : ℕ) (order toks : List ℕ)
        → render_at enc lib tools msgs i ≡ ok toks
        → first_error enc lib tools msgs (i ∷ order) ≡ first_error enc lib tools msgs order
    first_error_next i order toks e = unfold first_error in rw (e, first_error)

    first_error_here :
        (i : ℕ) (order : List ℕ) (error : RenderError)
        → render_at enc lib tools msgs i ≡ err error
        → first_error enc lib tools msgs (i ∷ order) ≡ some error
    first_error_here i order error e = unfold first_error in rw (e, first_error)

    pub first_error-none :
        (order indices : List ℕ) (ms : List Message)
        → Paired msgs indices ms
        → AllWritable lib tools ms
        → All IsFine ms
        → All (λ i. In i indices) order
        → first_error enc lib tools msgs order ≡ none
    first_error-none [] indices ms p w f h = unfold first_error in refl
    first_error-none (i ∷ order) indices ms p w f (here, h) =
        let (m, there, e) = message_of indices ms i p here in
        let (toks, run, _) =
          render_at-ok i m e (All-In (IsWritable lib tools) ms m w there)
            (All-In IsFine ms m f there) in
        first_error_next i order toks run ∙ first_error-none order indices ms p w f h

    first_message_error_here :
        (m : Message) (ms : List Message) (e : RenderError)
        → message_error m ≡ some e
        → first_message_error (m ∷ ms) ≡ some e
    first_message_error_here m ms e h = unfold first_message_error in rw (h, first_message_error)

    first_message_error_next :
        (m : Message) (ms : List Message)
        → IsFine m
        → first_message_error (m ∷ ms) ≡ first_message_error ms
    first_message_error_next m ms h = unfold first_message_error in rw (h, first_message_error)

    error_in_turn_here :
        (i : ℕ) (order : List ℕ) (m : Message) (e : RenderError)
        → get_elem? msgs i ≡ some m
        → message_error m ≡ some e
        → error_in_turn msgs (i ∷ order) ≡ some e
    error_in_turn_here i order m e h h' = unfold error_in_turn in rw (h, h', error_in_turn)

    error_in_turn_next :
        (i : ℕ) (order : List ℕ) (m : Message)
        → get_elem? msgs i ≡ some m
        → IsFine m
        → error_in_turn msgs (i ∷ order) ≡ error_in_turn msgs order
    error_in_turn_next i order m h h' = unfold error_in_turn in rw (h, h', error_in_turn)

    -- The serial path stops at the first message with an error.
    pub render_serial-err :
        (indices : List ℕ) (ms : List Message) (m : Message) (error : RenderError)
        → Paired msgs indices ms
        → AllWritable lib tools ms
        → In m ms
        → message_error m ≡ some error
        → (out : List ℕ)
        → (e : RenderError) × (render_serial enc lib tools msgs indices out ≡ err e)
          × HasError ms e
          × (first_message_error ms ≡ some e)
    unfolding render_serial
    render_serial-err [] [] m error p w there bad out = absurd there
    render_serial-err [] (n ∷ ms) m error p w there bad out = absurd p
    render_serial-err (i ∷ indices) [] m error p w there bad out = absurd there
    render_serial-err (i ∷ indices) (n ∷ ms) m error (e, p) (b, w) there bad out =
        elim (Option-cases (message_error n)) [
          | inr (own, mine) ↦ (
            own,
            rw (render_into_at-Fails i n own e b mine out),
            (n, inl refl, mine),
            first_message_error_here n ms own mine,
          )
          | inl fine ↦
              let emits = render_into_at-Emits i n e b fine in
              let run = emits.runs out in
              let toks = emits.toks in
              elim there [
                | inl same ↦
                    let clash : message_error m ≡ none = rw same fine in
                    absurd (ground (arith, sym clash ∙ bad))
                | inr later ↦
                    let (e', fails, (k, in_rest, own), first) =
                      render_serial-err indices ms m error p w later bad (out ++ toks) in
                    (
                      e',
                      rw run fails,
                      (k, inr in_rest, own),
                      first_message_error_next n ms fine ∙ first,
                    )
              ]
        ]

    -- Of the messages in the order, the first that fails fails with its own error.
    pub first_error-some :
        (order indices : List ℕ) (ms : List Message) (i : ℕ) (error : RenderError)
        → Paired msgs indices ms
        → AllWritable lib tools ms
        → All (λ i. In i indices) order
        → In i order
        → render_at enc lib tools msgs i ≡ err error
        → (e : RenderError) × (first_error enc lib tools msgs order ≡ some e)
          × HasError ms e
          × (error_in_turn msgs order ≡ some e)
    first_error-some [] indices ms i error p w h here bad = absurd here
    first_error-some (j ∷ order) indices ms i error p w (this, h) here bad =
        let (m, there, e) = message_of indices ms j p this in
        let writable = All-In (IsWritable lib tools) ms m w there in
        elim (Option-cases (message_error m)) [
          | inr (own, mine) ↦ (
            own,
            first_error_here j order own (render_at-err j m own e writable mine),
            (m, there, mine),
            error_in_turn_here j order m own e mine,
          )
          | inl fine ↦
              let (toks, run, _) = render_at-ok j m e writable fine in
              elim here [
                | inl same ↦
                    let clash : render_at enc lib tools msgs i ≡ ok toks = rw same run in
                    absurd (ground (arith, sym clash ∙ bad))
                | inr later ↦
                    let (e', found, own, turn) =
                      first_error-some order indices ms i error p w h later bad in
                    (
                      e',
                      first_error_next j order toks run ∙ found,
                      own,
                      error_in_turn_next j order m e fine ∙ turn,
                    )
              ]
        ]
