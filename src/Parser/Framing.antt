-- ===== src/Parser/Framing.antt =====
-- A sequence of whole messages: what the parser makes of the tokens of each.
use harmony_go.Prelude.{
  ℕ, ◌≡◌, refl, sym, ap, ◌∙◌, true, false, List, [], ◌∷◌, ◌++◌, Option, none, some, Bytes, ◌==◌,
  All, map, concat, append_assoc, append-nil,
}
use harmony_go.Tokenizer.Core.{decode_bytes_into, decode_utf8}
use harmony_go.Types.{Message, Role}
use harmony_go.Encoding.{Encoding, tok_start, tok_message, is_member}
use harmony_go.Parser.{
  StreamParser, expect_start, header, content, process, process_all, process_eos, parse_messages,
  new_stream_parser, open_message, parse_header_text,
}
use harmony_go.Parser.Steps.{
  fed, with_text, process-start, process-header_token, process-message, process-content_token,
  process-stop,
}

pub process_all_step :
    (p q : StreamParser) (t : ℕ) (ts : List ℕ)
    → process p t ≡ (q, none)
    → process_all p (t ∷ ts) ≡ process_all q ts
process_all_step p q t ts e = unfold process_all in rw (e, process_all) (rw e)

pub process_all_nil : (p : StreamParser) → process_all p [] ≡ (p, none)
unfolding process_all
process_all_nil p = refl

-- The token belongs to a header.
abbrev pub IsHeaderToken : ℕ → Type 0
IsHeaderToken t = ((t == tok_start) ≡ false) × ((t == tok_message) ≡ false)

-- The token belongs to a content: it is no stop token, and it can be decoded alone.
abbrev pub IsContentToken : Encoding → ℕ → Type 0
IsContentToken enc t =
    (is_member enc.stop_all t ≡ false)
    × (delta : Bytes) × (decode_bytes_into enc.bpe [] (t ∷ []) ≡ some delta)

header_tokens :
    (hs rest : List ℕ) (p : StreamParser)
    → All IsHeaderToken hs
    → p.state ≡ header
    → process_all p (hs ++ rest)
      ≡ process_all (record p { tokens = p.tokens ++ hs; header_toks = p.header_toks ++ hs }) rest
header_tokens [] rest p h e = rw (append-nil p.tokens, append-nil p.header_toks)
header_tokens (t ∷ hs) rest p ((h1, h2), h) e =
    let q = record (fed p t) { header_toks = p.header_toks ++ t ∷ [] } in
    process_all_step p q t (hs ++ rest) (process-header_token p t e h1 h2)
    ∙ header_tokens hs rest q h e
    ∙ rw (append_assoc p.tokens (t ∷ []) hs, append_assoc p.header_toks (t ∷ []) hs)

pub content_tokens :
    (cs rest : List ℕ) (p : StreamParser)
    → All (IsContentToken p.enc) cs
    → p.state ≡ content
    → (delta : Bytes) × (process_all p (cs ++ rest)
        ≡ process_all
            (record p {
              tokens = p.tokens ++ cs;
              content_toks = p.content_toks ++ cs;
              last_delta_bytes = delta;
            })
            rest)
content_tokens [] rest p h e =
    (p.last_delta_bytes, rw (append-nil p.tokens, append-nil p.content_toks))
content_tokens (t ∷ cs) rest p ((h1, d, h2), h) e =
    let q = record (fed p t) { content_toks = p.content_toks ++ t ∷ []; last_delta_bytes = d } in
    let (delta, e') = content_tokens cs rest q h e in
    (
      delta,
      process_all_step p q t (cs ++ rest) (process-content_token p t d e h1 h2)
          ∙ e'
          ∙ rw (append_assoc p.tokens (t ∷ []) cs, append_assoc p.content_toks (t ∷ []) cs),
    )

-- A message as its tokens, and the texts of its header and its content.
pub record Frame : Type 0 where
  pub header_toks : List ℕ
  pub content_toks : List ℕ
  pub stop : ℕ
  pub header_text : Bytes
  pub content_text : Bytes

abbrev pub frame_tokens : Frame → List ℕ
frame_tokens f = tok_start ∷ (f.header_toks ++ tok_message ∷ (f.content_toks ++ f.stop ∷ []))

abbrev pub frame_message : Frame → Message
frame_message f = with_text (open_message (parse_header_text none f.header_text)) f.content_text

pub record IsFrame (enc : Encoding) (f : Frame) : Type 0 where
  pub headers : All IsHeaderToken f.header_toks
  pub contents : All (IsContentToken enc) f.content_toks
  pub stops : is_member enc.stop_all f.stop ≡ true
  pub header_decodes : decode_utf8 enc.bpe f.header_toks ≡ some f.header_text
  pub content_decodes : decode_utf8 enc.bpe f.content_toks ≡ some f.content_text

-- The parser stands between two messages.
pub record IsReady (p : StreamParser) : Type 0 where
  pub waits : p.state ≡ expect_start
  pub no_hint : p.next_role ≡ none

frame_tokens-append :
    (f : Frame) (rest : List ℕ)
    → frame_tokens f ++ rest
      ≡ tok_start ∷ (f.header_toks ++ tok_message ∷ (f.content_toks ++ f.stop ∷ rest))
frame_tokens-append f rest =
    ap (λ t. tok_start ∷ t)
      (append_assoc f.header_toks (tok_message ∷ (f.content_toks ++ f.stop ∷ [])) rest
        ∙ ap (λ t. f.header_toks ++ tok_message ∷ t)
            (append_assoc f.content_toks (f.stop ∷ []) rest))

-- The parser with the header read, from a state in which it stands between two messages.
pub header_step :
    (f : Frame) (rest : List ℕ) (p : StreamParser)
    → IsFrame p.enc f
    → IsReady p
    → process_all p (tok_start ∷ (f.header_toks ++ tok_message ∷ rest))
      ≡ process_all
          (record p {
            next_role = none;
            state = content;
            tokens = ((p.tokens ++ tok_start ∷ []) ++ f.header_toks) ++ tok_message ∷ [];
            messages = p.messages ++ open_message (parse_header_text none f.header_text) ∷ [];
            header_toks = f.header_toks;
            content_toks = [];
          })
          rest
header_step f rest p ok ready =
    let hs = f.header_toks in
    let p1 = record (fed p tok_start) { header_toks = []; state = header } in
    let p2 = record p1 { tokens = p1.tokens ++ hs; header_toks = hs } in
    let p3 = record (fed p2 tok_message) {
      next_role = none;
      content_toks = [];
      messages = p.messages ++ open_message (parse_header_text p.next_role f.header_text) ∷ [];
      state = content;
    } in
    process_all_step p p1 tok_start (hs ++ tok_message ∷ rest)
      (process-start p tok_start refl ready.waits)
    ∙ header_tokens hs (tok_message ∷ rest) p1 ok.headers refl
    ∙ process_all_step p2 p3 tok_message rest
        (process-message p2 tok_message f.header_text refl refl ok.header_decodes)
    ∙ (let hint = ready.no_hint in rw hint)

pub frame_step :
    (f : Frame) (rest : List ℕ) (p : StreamParser)
    → IsFrame p.enc f
    → IsReady p
    → (q : StreamParser) × (process_all p (frame_tokens f ++ rest) ≡ process_all q rest)
      × (q.enc ≡ p.enc)
      × IsReady q
      × (q.messages ≡ p.messages ++ frame_message f ∷ [])
frame_step f rest p ok ready =
    let m = open_message (parse_header_text none f.header_text) in
    let p3 = record p {
      next_role = none;
      state = content;
      tokens = ((p.tokens ++ tok_start ∷ []) ++ f.header_toks) ++ tok_message ∷ [];
      messages = p.messages ++ m ∷ [];
      header_toks = f.header_toks;
      content_toks = [];
    } in
    let (d, read) = content_tokens f.content_toks (f.stop ∷ rest) p3 ok.contents refl in
    let p4 = record p3 {
      tokens = p3.tokens ++ f.content_toks;
      content_toks = f.content_toks;
      last_delta_bytes = d;
    } in
    let p5 = record (fed p4 f.stop) {
      messages = p.messages ++ with_text m f.content_text ∷ [];
      header_toks = [];
      content_toks = [];
      state = expect_start;
    } in
    (
      p5,
      ap (process_all p) (frame_tokens-append f rest)
          ∙ header_step f (f.content_toks ++ f.stop ∷ rest) p ok ready
          ∙ read
          ∙ process_all_step p4 p5 f.stop rest (
              process-stop p4 f.stop p.messages m f.content_text refl ok.stops refl
                ok.content_decodes),
      refl,
      record { waits = refl; no_hint = refl },
      refl,
    )

pub frames_step :
    (fs : List Frame) (p : StreamParser)
    → All (IsFrame p.enc) fs
    → IsReady p
    → (q : StreamParser) × (process_all p (concat (map frame_tokens fs)) ≡ (q, none))
      × (q.enc ≡ p.enc)
      × IsReady q
      × (q.messages ≡ p.messages ++ map frame_message fs)
frames_step [] p h ready = (p, process_all_nil p, refl, ready, sym (append-nil p.messages))
frames_step (f ∷ fs) p (hf, h) ready =
    let (q, e, same, ready_q, added) = frame_step f (concat (map frame_tokens fs)) p hf ready in
    let (r, e', same', ready_r, added') = frames_step fs q (rw same h) ready_q in
    (
      r,
      e ∙ e',
      same' ∙ same,
      ready_r,
      added'
          ∙ ap (λ t. t ++ map frame_message fs) added
          ∙ append_assoc p.messages (frame_message f ∷ []) (map frame_message fs),
    )

pub parse_messages_done :
    (enc : Encoding) (tokens : List ℕ) (role : Option Role) (q r : StreamParser)
    → process_all (new_stream_parser enc role) tokens ≡ (q, none)
    → process_eos q ≡ (r, none)
    → parse_messages enc tokens role ≡ some r.messages
parse_messages_done enc tokens role q r e e' =
    unfold parse_messages in rw (e, parse_messages) (rw (e, e', parse_messages) (rw (e, e')))

-- Tokens that are the messages of a list of frames parse to the messages of the frames, in order.
pub parse_messages-frames :
    (enc : Encoding) (fs : List Frame)
    → All (IsFrame enc) fs
    → parse_messages enc (concat (map frame_tokens fs)) none ≡ some (map frame_message fs)
parse_messages-frames enc fs h =
    let p = new_stream_parser enc none in
    let (q, e, _, ready, added) =
      frames_step fs p (unfold new_stream_parser in h)
        (unfold new_stream_parser in record { waits = refl; no_hint = refl }) in
    let waits = ready.waits in
    parse_messages_done enc (concat (map frame_tokens fs)) none q q e
      (unfold process_eos in rw (waits, process_eos))
    ∙ ap some (added ∙ (unfold new_stream_parser in refl))
