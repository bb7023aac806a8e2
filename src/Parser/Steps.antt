-- ===== src/Parser/Steps.antt =====
-- The step of the parser in each state, on each branch.
use harmony_go.Prelude.{
  arith, ℕ, ◌≡◌, refl, ap, ◌∙◌, true, false, List, [], ◌∷◌, ◌++◌, none, some, Bytes, ◌==◌,
}
use harmony_go.Tokenizer.Core.{decode_bytes_into, decode_utf8}
use harmony_go.Types.{Message, content_text}
use harmony_go.Encoding.{tok_start, tok_message, is_member}
use harmony_go.Parser.{
  StreamParser, StreamState, expect_start, header, content, process, dispatch, process_start,
  process_header, process_content, close_header, close_message, add_content, finalize_message,
  parse_header_text, parse_header_from_tokens, open_message, set_last_content,
}

pub close_header_lem :
    (p : StreamParser) (text : Bytes)
    → decode_utf8 p.enc.bpe p.header_toks ≡ some text
    → close_header p ≡ (
      record p {
        next_role = none;
        content_toks = [];
        messages = p.messages ++ open_message (parse_header_text p.next_role text) ∷ [];
        state = content;
      },
      none,
    )
close_header_lem p text e =
    unfold close_header parse_header_from_tokens in rw (e, parse_header_from_tokens, close_header)

add_content_lem :
    (p : StreamParser) (t : ℕ) (delta : Bytes)
    → decode_bytes_into p.enc.bpe [] (t ∷ []) ≡ some delta
    → add_content p t
      ≡ (record p { content_toks = p.content_toks ++ t ∷ []; last_delta_bytes = delta }, none)
add_content_lem p t delta e = unfold add_content in rw (e, add_content)

module _ (p : StreamParser) (t : ℕ) where
  -- The parser once the token is recorded.
  abbrev pub fed : StreamParser
  fed = record p { tokens = p.tokens ++ t ∷ [] }

  pub process_in : (s : StreamState) → p.state ≡ s → process p t ≡ dispatch s fed t
  process_in s e = unfold process in rw e

  pub process-start :
      t ≡ tok_start
      → p.state ≡ expect_start
      → process p t ≡ (record fed { header_toks = []; state = header }, none)
  process-start e' e =
      rw (process_in expect_start e)
        (unfold dispatch process_start in let e2 : (t == tok_start) ≡ true = ground arith in rw e2)

  pub process-header_token :
      p.state ≡ header
      → (t == tok_start) ≡ false
      → (t == tok_message) ≡ false
      → process p t ≡ (record fed { header_toks = p.header_toks ++ t ∷ [] }, none)
  process-header_token e e1 e2 =
      rw (process_in header e) (unfold dispatch process_header in rw (e1, e2))

  pub process-message :
      (text : Bytes)
      → p.state ≡ header
      → t ≡ tok_message
      → decode_utf8 p.enc.bpe p.header_toks ≡ some text
      → process p t ≡ (
        record fed {
          next_role = none;
          content_toks = [];
          messages = p.messages ++ open_message (parse_header_text p.next_role text) ∷ [];
          state = content;
        },
        none,
      )
  process-message text e e1 e2 = rw (process_in header e) (
      unfold dispatch process_header in
      let e3 : (t == tok_start) ≡ false = ground arith in
      let e4 : (t == tok_message) ≡ true = ground arith in
      rw (e3, e4) (close_header_lem fed text e2))

  pub process-content_token :
      (delta : Bytes)
      → p.state ≡ content
      → is_member p.enc.stop_all t ≡ false
      → decode_bytes_into p.enc.bpe [] (t ∷ []) ≡ some delta
      → process p t
        ≡ (record fed { content_toks = p.content_toks ++ t ∷ []; last_delta_bytes = delta }, none)
  process-content_token delta e e1 e2 =
      rw (process_in content e)
        (unfold dispatch process_content in rw e1 (add_content_lem fed t delta e2))

-- A message with the text as its content.
abbrev pub with_text : Message → Bytes → Message
with_text m text = record m {
  content = record { kind = content_text; text = text; system = none; developer = none } ∷ [];
}

pub set_last_content-append :
    (ms : List Message) (m : Message) (text : Bytes)
    → set_last_content (ms ++ m ∷ []) text ≡ ms ++ with_text m text ∷ []
unfolding set_last_content
set_last_content-append [] m text = refl
set_last_content-append (a ∷ []) m text = refl
set_last_content-append (a ∷ b ∷ ms) m text =
    ap (λ t. a ∷ t) (set_last_content-append (b ∷ ms) m text)

-- The end of the last message.
abbrev pub closed : StreamParser → List Message → Message → Bytes → StreamParser
closed p ms m text = record p {
  messages = ms ++ with_text m text ∷ [];
  header_toks = [];
  content_toks = [];
}

finalize_message_nonempty :
    (p : StreamParser) (n : Message) (ns : List Message) (text : Bytes)
    → p.messages ≡ n ∷ ns
    → decode_utf8 p.enc.bpe p.content_toks ≡ some text
    → finalize_message p ≡ (
      record p { messages = set_last_content p.messages text; header_toks = []; content_toks = [] },
      none,
    )
finalize_message_nonempty p n ns text e e' =
    unfold finalize_message in rw (e, e', finalize_message) (rw e)

pub finalize_message_last :
    (p : StreamParser) (ms : List Message) (m : Message) (text : Bytes)
    → p.messages ≡ ms ++ m ∷ []
    → decode_utf8 p.enc.bpe p.content_toks ≡ some text
    → finalize_message p ≡ (closed p ms m text, none)
finalize_message_last p [] m text e e' =
    finalize_message_nonempty p m [] text e e' ∙ (rw (e, set_last_content-append [] m text))
finalize_message_last p (a ∷ ms) m text e e' =
    finalize_message_nonempty p a (ms ++ m ∷ []) text e e'
    ∙ (rw (e, set_last_content-append (a ∷ ms) m text))

close_message_last :
    (p : StreamParser) (ms : List Message) (m : Message) (text : Bytes)
    → p.messages ≡ ms ++ m ∷ []
    → decode_utf8 p.enc.bpe p.content_toks ≡ some text
    → close_message p ≡ (record (closed p ms m text) { state = expect_start }, none)
close_message_last p ms m text e e' =
    let f = finalize_message_last p ms m text e e' in
    unfold close_message in rw (f, close_message) (rw f)

pub process-stop :
    (p : StreamParser) (t : ℕ) (ms : List Message) (m : Message) (text : Bytes)
    → p.state ≡ content
    → is_member p.enc.stop_all t ≡ true
    → p.messages ≡ ms ++ m ∷ []
    → decode_utf8 p.enc.bpe p.content_toks ≡ some text
    → process p t ≡ (record (closed (fed p t) ms m text) { state = expect_start }, none)
process-stop p t ms m text e e1 e2 e3 =
    rw (process_in p t content e)
      (unfold dispatch process_content in rw e1 (close_message_last (fed p t) ms m text e2 e3))
