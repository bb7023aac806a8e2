-- ===== src/Parser/History.antt =====
-- What holds of a parser whatever tokens it was fed, errors included.
use harmony_go.Prelude.{
  ◌⊎◌, ℕ, ◌≡◌, refl, ap, ◌∙◌, List, [], ◌∷◌, ◌++◌, Option, none, some, Bytes, ◌==◌, Bool-cases,
  Option-cases, inl, inr,
}
use harmony_go.Tokenizer.Core.{decode_bytes_into, decode_utf8}
use harmony_go.Types.{Message, Role}
use harmony_go.Encoding.{Encoding, tok_start, tok_message, is_member}
use harmony_go.Parser.{
  StreamParser, StreamState, expect_start, header, content, ParseError, unknown_token, process,
  process_eos, new_stream_parser, dispatch, process_start, process_header, process_content,
  close_header, close_message, add_content, finalize_message, set_last_content, last_message,
  parse_header_from_tokens, open_message,
}
use harmony_go.Parser.Steps.{fed}

-- The parsers that calls of `Process` and `ProcessEOS` lead to, with the tokens that were fed. A
-- caller may go on after an error.
pub data Reached (enc : Encoding) (role : Option Role) : List ℕ → StreamParser → Type 0 where
  made : Reached enc role [] (new_stream_parser enc role)
  fed_one :
      {ts : List ℕ} {p : StreamParser} (t : ℕ)
      → Reached enc role ts p
      → Reached enc role (ts ++ t ∷ []) (process p t).0
  ended :
      {ts : List ℕ} {p : StreamParser}
      → Reached enc role ts p
      → Reached enc role ts (process_eos p).0

-- A message is open only if there is one; in a state without messages the hint is the one given.
abbrev pub HasOpen : StreamState → List Message → Type 0
HasOpen expect_start ms = Unit
HasOpen header ms = Unit
HasOpen content ms = (m : Message) × (last_message ms ≡ some m)

pub record IsSound (enc : Encoding) (ts : List ℕ) (p : StreamParser) : Type 0 where
  pub same_enc : p.enc ≡ enc
  pub recorded : p.tokens ≡ ts
  pub opened : HasOpen p.state p.messages

pub last_message-snoc : (ms : List Message) (m : Message) → last_message (ms ++ m ∷ []) ≡ some m
unfolding last_message
last_message-snoc [] m = refl
last_message-snoc (a ∷ []) m = refl
last_message-snoc (a ∷ b ∷ ms) m = last_message-snoc (b ∷ ms) m

last_message-set_last_content :
    (ms : List Message) (m : Message) (text : Bytes)
    → last_message ms ≡ some m
    → (n : Message) × (last_message (set_last_content ms text) ≡ some n)
unfolding last_message set_last_content
last_message-set_last_content [] m text h = (m, h)
last_message-set_last_content (a ∷ []) m text h = (_, refl)
last_message-set_last_content (a ∷ b ∷ []) m text h = (_, refl)
last_message-set_last_content (a ∷ b ∷ c ∷ ms) m text h =
    last_message-set_last_content (b ∷ c ∷ ms) m text h

-- The encoding and the record of the tokens stay, and so does an open message.
record Keeps (p q : StreamParser) : Type 0 where
  keeps_enc : q.enc ≡ p.enc
  keeps_tokens : q.tokens ≡ p.tokens
  keeps_open : HasOpen p.state p.messages → HasOpen q.state q.messages

Keeps-same : (p : StreamParser) → Keeps p p
Keeps-same p = record { keeps_enc = refl; keeps_tokens = refl; keeps_open = λ h. h }

-- With its content set, the message is still there.
abbrev finalized : StreamParser → Bytes → StreamParser
finalized p text = record p {
  messages = set_last_content p.messages text;
  header_toks = [];
  content_toks = [];
}

List-cases : (ms : List Message) → (ms ≡ []) ⊎ ((m : Message) × (ns : List Message) × (ms ≡ m ∷ ns))
List-cases [] = inl refl
List-cases (m ∷ ns) = inr (m, ns, refl)

finalize_message-cases :
    (p : StreamParser)
    → ((err : Option ParseError) × (finalize_message p ≡ (p, err)))
      ⊎ ((text : Bytes) × (finalize_message p ≡ (finalized p text, none)))
finalize_message-cases p = elim (List-cases p.messages) [
  | inl e ↦ inl (none, unfold finalize_message in rw (e, finalize_message) (rw e))
  | inr (m, ns, e) ↦ elim (Option-cases (decode_utf8 p.enc.bpe p.content_toks)) [
    | inl e' ↦
        inl (some unknown_token, unfold finalize_message in rw (e, e', finalize_message) (rw e))
    | inr (text, e') ↦ inr (text, unfold finalize_message in rw (e, e', finalize_message) (rw e))
  ]
]

HasOpen-finalized :
    (s : StreamState) (ms : List Message) (text : Bytes)
    → HasOpen s ms
    → HasOpen s (set_last_content ms text)
HasOpen-finalized expect_start ms text h = h
HasOpen-finalized header ms text h = h
HasOpen-finalized content ms text (m, h) = last_message-set_last_content ms m text h

finalize_message-Keeps : (p : StreamParser) → Keeps p (finalize_message p).0
finalize_message-Keeps p = elim (finalize_message-cases p) [
  | inl (err, e) ↦ rw e (Keeps-same p)
  | inr (text, e) ↦ rw e (record {
    keeps_enc = refl;
    keeps_tokens = refl;
    keeps_open = HasOpen-finalized p.state p.messages text;
  })
]

close_message-Keeps : (p : StreamParser) → Keeps p (close_message p).0
close_message-Keeps p =
    let kept = finalize_message-Keeps p in
    elim (Option-cases (finalize_message p).1) [
      | inr (err, e) ↦ unfold close_message in rw (e, close_message) kept
      | inl e ↦
          let enc = kept.keeps_enc in
          let tokens = kept.keeps_tokens in
          unfold close_message in
          rw (e, close_message)
            (record { keeps_enc = enc; keeps_tokens = tokens; keeps_open = λ h. tt })
    ]

add_content-Keeps : (p : StreamParser) (t : ℕ) → Keeps p (add_content p t).0
add_content-Keeps p t = elim (Option-cases (decode_bytes_into p.enc.bpe [] (t ∷ []))) [
  | inr (delta, e) ↦
      unfold add_content in
      rw (e, add_content) (record { keeps_enc = refl; keeps_tokens = refl; keeps_open = λ h. h })
  | inl e ↦
      unfold add_content in
      rw (e, add_content) (record { keeps_enc = refl; keeps_tokens = refl; keeps_open = λ h. h })
]

close_header-Keeps : (p : StreamParser) → Keeps p (close_header p).0
close_header-Keeps p = elim (Option-cases (parse_header_from_tokens p p.header_toks)) [
  | inl e ↦ unfold close_header in rw (e, close_header) (Keeps-same p)
  | inr (h, e) ↦
      unfold close_header in
      rw (e, close_header)
        (record {
          keeps_enc = refl;
          keeps_tokens = refl;
          keeps_open = λ _. (open_message h, last_message-snoc p.messages (open_message h));
        })
]

dispatch-Keeps :
    (s : StreamState) (p : StreamParser) (t : ℕ) → p.state ≡ s → Keeps p (dispatch s p t).0
dispatch-Keeps expect_start p t e =
    unfold dispatch process_start in
    elim (Bool-cases (t == tok_start)) [
      | inl h ↦ rw h (record { keeps_enc = refl; keeps_tokens = refl; keeps_open = λ _. tt })
      | inr h ↦ rw h (Keeps-same p)
    ]
dispatch-Keeps header p t e =
    unfold dispatch process_header in
    elim (Bool-cases (t == tok_start)) [
      | inl h ↦ rw h (Keeps-same p)
      | inr h ↦ elim (Bool-cases (t == tok_message)) [
        | inl h' ↦ rw (h, h') (close_header-Keeps p)
        | inr h' ↦
            rw (h, h') (record { keeps_enc = refl; keeps_tokens = refl; keeps_open = λ o. o })
      ]
    ]
dispatch-Keeps content p t e =
    unfold dispatch process_content in
    elim (Bool-cases (is_member p.enc.stop_all t)) [
      | inl h ↦ rw h (close_message-Keeps p)
      | inr h ↦ rw h (add_content-Keeps p t)
    ]

process_eos-Keeps : (p : StreamParser) → Keeps p (process_eos p).0
process_eos-Keeps p = process_eos_in p p.state refl
  where
    process_eos_in : (p : StreamParser) (s : StreamState) → p.state ≡ s → Keeps p (process_eos p).0
    process_eos_in p expect_start e =
        let same : process_eos p ≡ (p, none) = unfold process_eos in rw (e, process_eos) (rw e) in
        rw same (Keeps-same p)
    process_eos_in p header e =
        let same : process_eos p ≡ (p, none) = unfold process_eos in rw (e, process_eos) (rw e) in
        rw same (Keeps-same p)
    process_eos_in p content e =
        let same : process_eos p ≡ finalize_message p =
          unfold process_eos in rw (e, process_eos) (rw e) in
        rw same (finalize_message-Keeps p)

process-Keeps : (p : StreamParser) (t : ℕ) → Keeps (fed p t) (process p t).0
unfolding process
process-Keeps p t = dispatch-Keeps p.state (fed p t) t refl

-- A parser that was made by `NewStreamParser` and fed tokens, whatever errors it returned and
-- wherever its end was declared, keeps its encoding, has recorded exactly the tokens that it was
-- fed, and in the state of content has a message that is open.
pub Reached-IsSound :
    (enc : Encoding) (role : Option Role) (ts : List ℕ) (p : StreamParser)
    → Reached enc role ts p
    → IsSound enc ts p
Reached-IsSound enc none ts p made =
    unfold new_stream_parser in record { same_enc = refl; recorded = refl; opened = tt }
Reached-IsSound enc (some r) ts p made =
    unfold new_stream_parser in record { same_enc = refl; recorded = refl; opened = tt }
Reached-IsSound enc role ts p (fed_one {ts = us} {p = q} t reached) =
    let sound = Reached-IsSound enc role us q reached in
    let kept = process-Keeps q t in
    let enc_q = sound.same_enc in
    let tokens_q = sound.recorded in
    record {
      same_enc = kept.keeps_enc ∙ enc_q;
      recorded = kept.keeps_tokens ∙ ap (λ ts. ts ++ t ∷ []) tokens_q;
      opened = kept.keeps_open sound.opened;
    }
Reached-IsSound enc role ts p (ended {ts = us} {p = q} reached) =
    let sound = Reached-IsSound enc role us q reached in
    let kept = process_eos-Keeps q in
    record {
      same_enc = kept.keeps_enc ∙ sound.same_enc;
      recorded = kept.keeps_tokens ∙ sound.recorded;
      opened = kept.keeps_open sound.opened;
    }
