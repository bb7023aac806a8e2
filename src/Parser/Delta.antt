-- ===== src/Parser/Delta.antt =====
-- The fragments of a content: what `LastContentDelta` returns token by token.
use harmony_go.Prelude.{
  ℕ, ◌≡◌, refl, sym, ap, ◌∙◌, List, [], ◌∷◌, ◌++◌, none, some, Bytes, ◌==◌, append_assoc,
  append-nil, arith, Option-cases, inl, inr, lookup, All,
}
use harmony_go.Tokenizer.Store.{Pairs, Reads, first_bytes}
use harmony_go.Tokenizer.Core.{CoreBpe, decode_bytes_into, decode_bytes, decode_utf8}
use harmony_go.Tokenizer.Core.Decode.{
  decode_base, decode_special, decode_unknown, decode_bytes_into-append,
}
use harmony_go.Parser.{StreamParser, content, process, last_content_delta}
use harmony_go.Parser.Steps.{fed, process-content_token}
use harmony_go.Parser.Framing.{IsContentToken}

-- What a caller gathers who asks for the fragment behind each token.
unfoldable pub gather : StreamParser → List ℕ → Bytes
gather p [] = []
gather p (t ∷ tokens) =
    let q = (process p t).0 in let rest = gather q tokens in last_content_delta q ++ rest

decode_nil : (core : CoreBpe) (buf : Bytes) → decode_bytes_into core buf [] ≡ some buf
unfolding decode_bytes_into
decode_nil core buf = refl

-- A token is read the same behind any text.
decode_behind :
    (core : CoreBpe) (pairs : Pairs) (t : ℕ) (delta buf : Bytes)
    → Reads pairs core.dec
    → decode_bytes_into core [] (t ∷ []) ≡ some delta
    → decode_bytes_into core buf (t ∷ []) ≡ some (buf ++ delta)
decode_behind core pairs t delta buf reads h = elim (Option-cases (first_bytes t pairs)) [
  | inr (b, e) ↦
      let at_start : core.dec.append_into [] t ≡ some b = reads [] t ∙ rw e in
      let behind : core.dec.append_into buf t ≡ some (buf ++ b) = reads buf t ∙ rw e in
      let same : some b ≡ some delta =
        sym (decode_base core [] b t [] at_start ∙ decode_nil core b) ∙ h in
      decode_base core buf (buf ++ b) t [] behind
      ∙ decode_nil core (buf ++ b)
      ∙ ap (λ o. elim o [ none ↦ none | some d ↦ some (buf ++ d) ]) same
  | inl e ↦
      let at_start : core.dec.append_into [] t ≡ none = reads [] t ∙ rw e in
      let behind : core.dec.append_into buf t ≡ none = reads buf t ∙ rw e in
      elim (Option-cases (lookup ◌==◌ t core.special_dec)) [
        | inr (v, e') ↦
            let same : some v ≡ some delta =
              sym (decode_special core [] v t [] at_start e' ∙ decode_nil core v) ∙ h in
            decode_special core buf v t [] behind e'
            ∙ decode_nil core (buf ++ v)
            ∙ ap (λ o. elim o [ none ↦ none | some d ↦ some (buf ++ d) ]) same
        | inl e' ↦
            let clash : none ≡ some delta = sym (decode_unknown core [] t [] at_start e') ∙ h in
            absurd (ground arith)
      ]
]

gather_nil : (p : StreamParser) → gather p [] ≡ []
unfolding gather
gather_nil p = refl

gather_step :
    (p q : StreamParser) (t : ℕ) (cs : List ℕ)
    → process p t ≡ (q, none)
    → gather p (t ∷ cs) ≡ last_content_delta q ++ gather q cs
gather_step p q t cs e = unfold gather in rw e

-- Behind any text, the tokens of a content add what a caller gathers.
decode-gather :
    (cs : List ℕ) (p : StreamParser) (pairs : Pairs) (buf : Bytes)
    → Reads pairs p.enc.bpe.dec
    → p.state ≡ content
    → All (IsContentToken p.enc) cs
    → decode_bytes_into p.enc.bpe buf cs ≡ some (buf ++ gather p cs)
decode-gather [] p pairs buf reads e h =
    decode_nil p.enc.bpe buf
    ∙ ap some (sym (append-nil buf) ∙ ap (λ s. buf ++ s) (sym (gather_nil p)))
decode-gather (t ∷ cs) p pairs buf reads e ((h1, d, h2), h) =
    let q = record (fed p t) { content_toks = p.content_toks ++ t ∷ []; last_delta_bytes = d } in
    let stepped : process p t ≡ (q, none) = process-content_token p t d e h1 h2 in
    let rest = decode-gather cs q pairs (buf ++ d) reads e h in
    let gathered : gather p (t ∷ cs) ≡ d ++ gather q cs =
      gather_step p q t cs stepped ∙ (unfold last_content_delta in refl) in
    let behind = decode_behind p.enc.bpe pairs t d buf reads h2 in
    decode_bytes_into-append p.enc.bpe (t ∷ []) cs buf
    ∙ rw behind rest
    ∙ ap some (append_assoc buf d (gather q cs) ∙ ap (λ s. buf ++ s) (sym gathered))

-- The fragments that a caller gathers token by token are the text of the content, where the store
-- reads an id as the bytes of the first pair that has it.
pub decode_utf8-gather :
    (pairs : Pairs) (p : StreamParser) (cs : List ℕ)
    → Reads pairs p.enc.bpe.dec
    → p.state ≡ content
    → All (IsContentToken p.enc) cs
    → decode_utf8 p.enc.bpe cs ≡ some (gather p cs)
unfolding decode_utf8 decode_bytes
decode_utf8-gather pairs p cs reads e h = decode-gather cs p pairs [] reads e h
