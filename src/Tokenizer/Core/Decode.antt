-- ===== src/Tokenizer/Core/Decode.antt =====
-- Decoding the tokens of a vocabulary's texts.
use harmony_go.Prelude.{
  ℕ, ◌≡◌, refl, sym, ap, ◌∙◌, List, [], ◌∷◌, ◌++◌, none, some, map, Bytes, lookup, bytes_eq, ◌==◌,
  All, In, concat, append_assoc, append-nil, Option-cases, inl, inr, length, ◌<◌,
}
use harmony_go.Tokenizer.Bpe.{id_of}
use harmony_go.Tokenizer.Bpe.Vocabulary.{Known, byte_pair_encode-spells}
use harmony_go.Tokenizer.Core.{CoreBpe, decode_bytes_into, encode_piece}

-- The decoder reads each id of the vocabulary, and of a special literal, as the text it stands for.
pub record IsFaithful (core : CoreBpe) : Type 0 where
  pub base :
      (key dst : Bytes) (r : ℕ)
      → lookup bytes_eq key core.enc ≡ some r
      → core.dec.append_into dst r ≡ some (dst ++ key)
  pub special :
      (lit dst : Bytes) (tok : ℕ)
      → In (lit, tok) core.special_enc
      → (core.dec.append_into dst tok ≡ none) × (lookup ◌==◌ tok core.special_dec ≡ some lit)

-- The id of a text of the vocabulary.
abbrev pub IsBase : CoreBpe → ℕ → Type 0
IsBase core t = (key : Bytes) × (lookup bytes_eq key core.enc ≡ some t)

module _ (core : CoreBpe) where
  pub decode_base :
      (buf more : Bytes) (t : ℕ) (tokens : List ℕ)
      → core.dec.append_into buf t ≡ some more
      → decode_bytes_into core buf (t ∷ tokens) ≡ decode_bytes_into core more tokens
  decode_base buf more t tokens e = unfold decode_bytes_into in rw (e, decode_bytes_into)

  pub decode_special :
      (buf v : Bytes) (t : ℕ) (tokens : List ℕ)
      → core.dec.append_into buf t ≡ none
      → lookup ◌==◌ t core.special_dec ≡ some v
      → decode_bytes_into core buf (t ∷ tokens) ≡ decode_bytes_into core (buf ++ v) tokens
  decode_special buf v t tokens e e' = unfold decode_bytes_into in rw (e, e', decode_bytes_into)

  pub decode_unknown :
      (buf : Bytes) (t : ℕ) (tokens : List ℕ)
      → core.dec.append_into buf t ≡ none
      → lookup ◌==◌ t core.special_dec ≡ none
      → decode_bytes_into core buf (t ∷ tokens) ≡ none
  decode_unknown buf t tokens e e' = unfold decode_bytes_into in rw (e, e', decode_bytes_into)

  -- Tokens decode in sequence: those behind start where those before end, an error stops it.
  pub decode_bytes_into-append :
      (xs ys : List ℕ) (buf : Bytes)
      → decode_bytes_into core buf (xs ++ ys) ≡ elim (decode_bytes_into core buf xs) [
        | none ↦ none
        | some more ↦ decode_bytes_into core more ys
      ]
  decode_bytes_into-append [] ys buf = unfold decode_bytes_into in refl
  decode_bytes_into-append (t ∷ xs) ys buf = elim (Option-cases (core.dec.append_into buf t)) [
    | inr (more, e) ↦
        rw (decode_base buf more t (xs ++ ys) e, decode_base buf more t xs e)
          (decode_bytes_into-append xs ys more)
    | inl e ↦ elim (Option-cases (lookup ◌==◌ t core.special_dec)) [
      | inr (v, e') ↦
          rw (decode_special buf v t (xs ++ ys) e e', decode_special buf v t xs e e')
            (decode_bytes_into-append xs ys (buf ++ v))
      | inl e' ↦ rw (decode_unknown buf t (xs ++ ys) e e', decode_unknown buf t xs e e')
    ]
  ]

  -- The tokens decode to the text, behind whatever stands in the buffer.
  abbrev pub DecodesTo : List ℕ → Bytes → Type 0
  DecodesTo tokens text = (buf : Bytes) → decode_bytes_into core buf tokens ≡ some (buf ++ text)

  pub DecodesTo-nil : DecodesTo [] []
  DecodesTo-nil buf = unfold decode_bytes_into in ap some (sym (append-nil buf))

  pub DecodesTo-append :
      (xs ys : List ℕ) (s t : Bytes)
      → DecodesTo xs s
      → DecodesTo ys t
      → DecodesTo (xs ++ ys) (s ++ t)
  DecodesTo-append xs ys s t hx hy buf =
      rw (decode_bytes_into-append xs ys buf, hx buf, ← append_assoc buf s t) (hy (buf ++ s))

  module _ (faithful : IsFaithful core) where
    DecodesTo-id :
        (key : Bytes) (r : ℕ) → lookup bytes_eq key core.enc ≡ some r → DecodesTo (r ∷ []) key
    DecodesTo-id key r e buf =
        decode_base buf (buf ++ key) r [] (faithful.base key buf r e)
        ∙ (unfold decode_bytes_into in refl)

    -- A token of the vocabulary is read as its text.
    pub DecodesTo-base : (t : ℕ) → IsBase core t → (key : Bytes) × DecodesTo (t ∷ []) key
    DecodesTo-base t (key, e) = (key, DecodesTo-id key t e)

    pub DecodesTo-special :
        (lit : Bytes) (tok : ℕ) → In (lit, tok) core.special_enc → DecodesTo (tok ∷ []) lit
    DecodesTo-special lit tok m buf =
        let (e, e') = faithful.special lit buf tok m in
        decode_special buf lit tok [] e e' ∙ (unfold decode_bytes_into in refl)

    DecodesTo-map :
        (segs : List Bytes)
        → All (Known core.enc) segs
        → DecodesTo (map (id_of core.enc) segs) (concat segs)
    DecodesTo-map [] h = DecodesTo-nil
    DecodesTo-map (x ∷ segs) ((r, e), h) =
        let same : id_of core.enc x ≡ r = unfold id_of in rw (e, id_of) in
        DecodesTo-append (id_of core.enc x ∷ []) (map (id_of core.enc) segs) x (concat segs)
          (rw same (DecodesTo-id x r e)) (DecodesTo-map segs h)

    map-IsBase :
        (segs : List Bytes)
        → All (Known core.enc) segs
        → All (IsBase core) (map (id_of core.enc) segs)
    map-IsBase [] h = tt
    map-IsBase (x ∷ segs) ((r, e), h) =
        let same : id_of core.enc x ≡ r = unfold id_of in rw (e, id_of) in
        ((x, rw same e), map-IsBase segs h)

    -- The tokens of a segment are ids of the vocabulary, and decode to the segment.
    pub encode_piece-DecodesTo :
        (piece : Bytes)
        → 0 < length piece
        → All (λ b. Known core.enc (b ∷ [])) piece
        → (toks : List ℕ) × (encode_piece core piece ≡ some toks)
          × DecodesTo toks piece
          × All (IsBase core) toks
    encode_piece-DecodesTo piece pos known = elim (Option-cases (lookup bytes_eq piece core.enc)) [
      | inr (id, e) ↦ (
        id ∷ [],
        unfold encode_piece in rw (e, encode_piece),
        DecodesTo-id piece id e,
        ((piece, e), tt),
      )
      | inl e ↦
          let (segs, encoded, spells, all_known, _) =
            byte_pair_encode-spells core.enc piece pos known in
          (
            map (id_of core.enc) segs,
            unfold encode_piece in rw (e, encode_piece) encoded,
            λ buf. DecodesTo-map segs all_known buf ∙ ap (λ t. some (buf ++ t)) spells,
            map-IsBase segs all_known,
          )
    ]
