-- ===== src/Tokenizer/Core/RoundTrip.antt =====
-- Decoding what `Encode` returns gives the text back.
use harmony_go.Prelude.{
  All-append, ℕ, zero, suc, ◌+◌, ◌-◌, ◌≤◌, ◌<◌, ◌≡◌, sym, ap, ◌∙◌, true, false, List, [], ◌∷◌, ◌++◌,
  some, Bytes, ltb, length, drop, slice, arith, Bool-cases, inl, inr, ◌⊎◌, All, All-drop, All-take,
  In, append_assoc, append-nil, drop_end, slice-append-drop, length-slice, lt→ltb, ltb→lt, ltb→le,
}
use harmony_go.Tokenizer.Bpe.Vocabulary.{Known}
use harmony_go.Tokenizer.Core.{
  contains, CoreBpe, encode_piece, segment_end, special_at, encode_loop, encode,
}
use harmony_go.Tokenizer.Core.Decode.{
  IsBase, IsFaithful, DecodesTo, DecodesTo-nil, DecodesTo-append, DecodesTo-special,
  encode_piece-DecodesTo,
}
use harmony_go.Tokenizer.Core.Specials.{Matches}
use harmony_go.Tokenizer.Core.Longest.{match_special_at_found}

-- A token that the encoder gives: an id of the vocabulary, or of a special literal that is allowed.
abbrev pub IsEmitted : CoreBpe → List Bytes → ℕ → Type 0
IsEmitted core allowed t =
    IsBase core t ⊎ ((lit : Bytes) × In (lit, t) core.special_enc × (contains allowed lit ≡ true))

IsEmitted-base :
    (core : CoreBpe) (allowed : List Bytes) (toks : List ℕ)
    → All (IsBase core) toks
    → All (IsEmitted core allowed) toks
IsEmitted-base core allowed [] h = tt
IsEmitted-base core allowed (t ∷ toks) (b, h) = (inl b, IsEmitted-base core allowed toks h)

module _ (core : CoreBpe) (text : Bytes) (allowed : List Bytes) where
  pub encode_loop_end :
      (fuel i : ℕ) (out : List ℕ) (last : ℕ)
      → ltb i (length text) ≡ false
      → encode_loop core text allowed (suc fuel) i out last ≡ some (out, last)
  encode_loop_end fuel i out last e = unfold encode_loop in rw (e, encode_loop)

  pub encode_loop_special :
      (fuel i : ℕ) (out : List ℕ) (last tok n : ℕ)
      → ltb i (length text) ≡ true
      → special_at core text i allowed ≡ (tok, n)
      → ltb 0 n ≡ true
      → encode_loop core text allowed (suc fuel) i out last
        ≡ encode_loop core text allowed fuel (i + n) (out ++ tok ∷ []) 0
  encode_loop_special fuel i out last tok n e e' pos =
      let pos' : ltb 0 (special_at core text i allowed).1 ≡ true = rw e' pos in
      unfold encode_loop in rw (e, pos', encode_loop) (rw e')

  pub encode_loop_piece :
      (fuel i : ℕ) (out : List ℕ) (last tok : ℕ) (toks : List ℕ)
      → ltb i (length text) ≡ true
      → special_at core text i allowed ≡ (tok, 0)
      → encode_piece core (slice text i (segment_end core text i)) ≡ some toks
      → encode_loop core text allowed (suc fuel) i out last
        ≡ encode_loop core text allowed fuel (segment_end core text i) (out ++ toks) (length toks)
  encode_loop_piece fuel i out last tok toks e e' e'' =
      unfold encode_loop in rw (e, e', e'', encode_loop)

  -- No special, or one that stands at `i`.
  special_at_cases :
      (i : ℕ)
      → (special_at core text i allowed ≡ (0, 0))
        ⊎ ((lit : Bytes) × (tok : ℕ) × In (lit, tok) core.special_enc
            × Matches text i allowed lit
            × (0 < length lit)
            × (special_at core text i allowed ≡ (tok, length lit)))
  unfolding special_at
  special_at_cases i = elim (Bool-cases (ltb 0 (length allowed))) [
    | inl e ↦ rw e (match_special_at_found core text i allowed)
    | inr e ↦ inl (rw e)
  ]

  segment_end_bounds :
      (i : ℕ)
      → i < length text
      → core.seg.next text i ≤ length text
      → (i < segment_end core text i) × (segment_end core text i ≤ length text)
  unfolding segment_end
  segment_end_bounds i lt le = ground arith

  module _ (faithful : IsFaithful core)
      (inside : (i : ℕ) → i < length text → core.seg.next text i ≤ length text)
      (known : All (λ b. Known core.enc (b ∷ [])) text) where
    -- What a round that starts at `i` with enough fuel yields.
    abbrev Encodes : ℕ → ℕ → List ℕ → ℕ → Type 0
    Encodes fuel i out last =
        (toks : List ℕ) × (last' : ℕ) × (encode_loop core text allowed fuel i out last
          ≡ some (out ++ toks, last'))
        × DecodesTo core toks (drop i text)
        × All (IsEmitted core allowed) toks

    -- The tokens of a round before those of the rest.
    Encodes-round :
        (fuel fuel' i j : ℕ) (out : List ℕ) (last last' : ℕ) (toks : List ℕ)
        → i ≤ j
        → j ≤ length text
        → encode_loop core text allowed fuel i out last
          ≡ encode_loop core text allowed fuel' j (out ++ toks) last'
        → DecodesTo core toks (slice text i j)
        → All (IsEmitted core allowed) toks
        → Encodes fuel' j (out ++ toks) last'
        → Encodes fuel i out last
    Encodes-round fuel fuel' i j out last last' toks le le' e d em (more, last'', e', d', em') = (
      toks ++ more,
      last'',
      e ∙ e' ∙ ap (λ t. some (t, last'')) (append_assoc out toks more),
      λ buf.
          DecodesTo-append core toks more (slice text i j) (drop j text) d d' buf
          ∙ ap (λ t. some (buf ++ t)) (slice-append-drop text i j le le'),
      All-append (IsEmitted core allowed) toks more em em',
    )

    encode_loop-Encodes :
        (fuel i : ℕ) (out : List ℕ) (last : ℕ)
        → i ≤ length text
        → length text < i + fuel
        → Encodes fuel i out last
    encode_loop-Encodes zero i out last le lt = absurd (omega arith)
    encode_loop-Encodes (suc fuel) i out last le lt = elim (Bool-cases (ltb i (length text))) [
      | inr stop ↦
          let end : drop i text ≡ [] = drop_end i text (ltb→le i (length text) stop) in
          (
            [],
            last,
            encode_loop_end fuel i out last stop ∙ ap (λ t. some (t, last)) (sym (append-nil out)),
            rw end (DecodesTo-nil core),
            tt,
          )
      | inl on ↦
          let before : i < length text = ltb→lt i (length text) on in
          elim (special_at_cases i) [
            | inr (lit, tok, m, h, pos, e) ↦
                let fits = h.fits in
                let equal = h.equal in
                let j = i + length lit in
                let in_text : j ≤ length text = omega arith in
                Encodes-round (suc fuel) fuel i j out last 0 (tok ∷ []) (omega arith) in_text
                  (encode_loop_special fuel i out last tok (length lit) on e (lt→ltb _ _ pos))
                  (rw equal (DecodesTo-special core faithful lit tok m))
                  (inr (lit, m, h.is_allowed), tt)
                  (encode_loop-Encodes fuel j (out ++ tok ∷ []) 0 in_text (omega arith))
            | inl e ↦
                let j = segment_end core text i in
                let (moved, in_text) = segment_end_bounds i before (inside i before) in
                let piece = slice text i j in
                let filled : 0 < length piece =
                  omega (arith, length-slice text i j (omega arith) in_text) in
                let known_piece = All-take _ (j - i) (drop i text) (All-drop _ i text known) in
                let (toks, encoded, d, base) =
                  encode_piece-DecodesTo core faithful piece filled known_piece in
                Encodes-round (suc fuel) fuel i j out last (length toks) toks (omega arith) in_text
                  (encode_loop_piece fuel i out last 0 toks on e encoded) d
                  (IsEmitted-base core allowed toks base)
                  (encode_loop-Encodes fuel j (out ++ toks) (length toks) in_text (omega arith))
          ]
    ]

    -- The encoder returns, and its tokens decode to the text, whatever specials are allowed.
    pub decode-encode :
        (toks : List ℕ) × (last : ℕ) × (encode core text allowed ≡ some (toks, last))
        × DecodesTo core toks text
        × All (IsEmitted core allowed) toks
    unfolding encode
    decode-encode =
        let (toks, last, e, d, em) =
          encode_loop-Encodes (suc (length text)) 0 [] 0 (omega arith) (omega arith) in
        (toks, last, e, d, em)
