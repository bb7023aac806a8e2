-- ===== src/Parser/Unfinished.antt =====
-- A message whose stop token has not been read: what the getters show, and what the end of the
-- stream makes of it.
use harmony_go.Prelude.{
  arith, inr, inl, Option-cases, ℕ, ◌≡◌, refl, sym, ap, ◌∙◌, List, [], ◌∷◌, ◌++◌, none, some, Bytes,
  All, map, concat, append-nil, arith,
}
use harmony_go.Tokenizer.Core.{decode_utf8}
use harmony_go.Encoding.{Encoding, tok_start, tok_message}
use harmony_go.Parser.{
  process, ParseError, StreamParser, content, ParsedHeader, process_all, process_eos,
  parse_messages, new_stream_parser, open_message, parse_header_text, open_of, current_role,
  current_content, current_content_type, current_channel, current_recipient, last_message,
  finalize_message,
}
use harmony_go.Parser.Steps.{closed, finalize_message_last}
use harmony_go.Parser.History.{last_message-snoc}
use harmony_go.Parser.Framing.{
  parse_messages_done, Frame, IsFrame, IsReady, frame_tokens, frame_message, header_step,
  content_tokens, frames_step, process_all_nil,
}

-- The tokens of a message without the stop token.
abbrev pub open_tokens : Frame → List ℕ
open_tokens f = tok_start ∷ (f.header_toks ++ tok_message ∷ f.content_toks)

abbrev pub header_of : Frame → ParsedHeader
header_of f = parse_header_text none f.header_text

-- The parser that has read a message but for its stop token, from the parser `p`.
pub record IsReading (p : StreamParser) (f : Frame) (q : StreamParser) : Type 0 where
  pub same_enc : q.enc ≡ p.enc
  pub reads : q.state ≡ content
  pub opened : q.messages ≡ p.messages ++ open_message (header_of f) ∷ []
  pub gathered : q.content_toks ≡ f.content_toks

pub open_step :
    (f : Frame) (p : StreamParser)
    → IsFrame p.enc f
    → IsReady p
    → (q : StreamParser) × (process_all p (open_tokens f) ≡ (q, none)) × IsReading p f q
open_step f p ok ready =
    let p3 = record p {
      next_role = none;
      state = content;
      tokens = ((p.tokens ++ tok_start ∷ []) ++ f.header_toks) ++ tok_message ∷ [];
      messages = p.messages ++ open_message (header_of f) ∷ [];
      header_toks = f.header_toks;
      content_toks = [];
    } in
    let (d, read) = content_tokens f.content_toks [] p3 ok.contents refl in
    let p4 = record p3 {
      tokens = p3.tokens ++ f.content_toks;
      content_toks = f.content_toks;
      last_delta_bytes = d;
    } in
    (
      p4,
      header_step f f.content_toks p ok ready
          ∙ ap (process_all p3) (sym (append-nil f.content_toks))
          ∙ read
          ∙ process_all_nil p4,
      record { same_enc = refl; reads = refl; opened = refl; gathered = refl },
    )

-- What the getters return.
pub record Shows (q : StreamParser) (h : ParsedHeader) (text : Bytes) : Type 0 where
  pub shows_role : current_role q ≡ some h.author.role
  pub shows_channel : current_channel q ≡ h.channel
  pub shows_recipient : current_recipient q ≡ h.recipient
  pub shows_content_type : current_content_type q ≡ h.content_type
  pub shows_content : current_content q ≡ text

IsReading-Shows :
    (f : Frame) (p q : StreamParser)
    → IsFrame p.enc f
    → IsReading p f q
    → Shows q (header_of f) f.content_text
IsReading-Shows f p q ok reading =
    let s = reading.reads in
    let m = open_message (header_of f) in
    let last : last_message q.messages ≡ some m =
      ap last_message reading.opened ∙ last_message-snoc p.messages m in
    let opens : open_of q ≡ some m = unfold open_of in rw (s, open_of) last in
    let same = reading.same_enc in
    let toks = reading.gathered in
    let decoded : decode_utf8 q.enc.bpe q.content_toks ≡ some f.content_text =
      rw (same, toks) ok.content_decodes in
    record {
      shows_role = unfold current_role open_message in rw (s, last, current_role);
      shows_channel = unfold current_channel open_message in rw (opens, current_channel);
      shows_recipient = unfold current_recipient open_message in rw (opens, current_recipient);
      shows_content_type =
          unfold current_content_type open_message in rw (opens, current_content_type);
      shows_content = unfold current_content in rw (s, decoded, current_content);
    }

-- From a parser between two messages, with no hint for a role, the tokens of a message without its
-- stop token are read without an error, and then the getters show the role, channel, recipient and
-- content type that its decoded header says, and the text of its content.
pub open_step-Shows :
    (f : Frame) (p : StreamParser)
    → IsFrame p.enc f
    → IsReady p
    → (q : StreamParser) × (process_all p (open_tokens f) ≡ (q, none))
      × Shows q (header_of f) f.content_text
open_step-Shows f p ok ready =
    let (q, e, reading) = open_step f p ok ready in (q, e, IsReading-Shows f p q ok reading)

process_all_on :
    (p : StreamParser) (t : ℕ) (ts : List ℕ)
    → (process p t).1 ≡ none
    → process_all p (t ∷ ts) ≡ process_all (process p t).0 ts
process_all_on p t ts e = unfold process_all in rw (e, process_all)

process_all_error :
    (p : StreamParser) (t : ℕ) (ts : List ℕ) (err : ParseError)
    → (process p t).1 ≡ some err
    → process_all p (t ∷ ts) ≡ ((process p t).0, some err)
process_all_error p t ts err e = unfold process_all in rw (e, process_all)

process_all-append :
    (xs ys : List ℕ) (p q : StreamParser)
    → process_all p xs ≡ (q, none)
    → process_all p (xs ++ ys) ≡ process_all q ys
process_all-append [] ys p q e = ap (λ o. process_all o.0 ys) (sym (process_all_nil p) ∙ e)
process_all-append (t ∷ xs) ys p q e = elim (Option-cases (process p t).1) [
  | inl h ↦
      process_all_on p t (xs ++ ys) h
      ∙ process_all-append xs ys (process p t).0 q (sym (process_all_on p t xs h) ∙ e)
  | inr (err, h) ↦
      let clash : some err ≡ none = ap (λ o. o.1) (sym (process_all_error p t xs err h) ∙ e) in
      absurd (ground arith)
]

process_eos_reading :
    (f : Frame) (p q : StreamParser)
    → IsFrame p.enc f
    → IsReading p f q
    → process_eos q ≡ (closed q p.messages (open_message (header_of f)) f.content_text, none)
process_eos_reading f p q ok reading =
    let s = reading.reads in
    let same = reading.same_enc in
    let toks = reading.gathered in
    let decoded : decode_utf8 q.enc.bpe q.content_toks ≡ some f.content_text =
      rw (same, toks) ok.content_decodes in
    let finalized =
      finalize_message_last q p.messages (open_message (header_of f)) f.content_text reading.opened
        decoded in
    let dispatched : process_eos q ≡ finalize_message q =
      unfold process_eos in rw (s, process_eos) (rw s) in
    dispatched ∙ finalized

-- Whole messages and behind them one whose stop token is missing parse to the same messages as if
-- the stop token stood there.
pub parse_messages-unfinished :
    (enc : Encoding) (fs : List Frame) (f : Frame)
    → All (IsFrame enc) fs
    → IsFrame enc f
    → parse_messages enc (concat (map frame_tokens fs) ++ open_tokens f) none
      ≡ some (map frame_message fs ++ frame_message f ∷ [])
parse_messages-unfinished enc fs f h ok =
    let p = new_stream_parser enc none in
    let (q, e, same, ready, added) =
      frames_step fs p (unfold new_stream_parser in h)
        (unfold new_stream_parser in record { waits = refl; no_hint = refl }) in
    let same_enc : q.enc ≡ enc = same ∙ (unfold new_stream_parser in refl) in
    let ok_q : IsFrame q.enc f = rw same_enc ok in
    let (r, e', reading) = open_step f q ok_q ready in
    let eos = process_eos_reading f q r ok_q reading in
    parse_messages_done enc (concat (map frame_tokens fs) ++ open_tokens f) none r _
      (process_all-append (concat (map frame_tokens fs)) (open_tokens f) p q e ∙ e') eos
    ∙ ap (λ ms. some (ms ++ frame_message f ∷ [])) (added ∙ (unfold new_stream_parser in refl))
