-- ===== src/Tokenizer/Core/InPlace.antt =====
-- `encodeInto` against `Encode`.
use harmony_go.Prelude.{
  ℕ, zero, suc, ◌+◌, ◌≡◌, refl, sym, ap, ◌∙◌, true, false, List, [], ◌∷◌, ◌++◌, Option, none, some,
  Bytes, ltb, length, slice, Bool-cases, Option-cases, inl, inr, append_assoc, append-nil,
}
use harmony_go.Tokenizer.Core.{
  CoreBpe, encode_piece, segment_end, special_at, encode_loop, encode, encode_into,
}
use harmony_go.Tokenizer.Core.RoundTrip.{encode_loop_end}

-- What is in the buffer before stands before the tokens.
abbrev pub behind : List ℕ → Option (List ℕ × ℕ) → Option (List ℕ × ℕ)
behind out none = none
behind out (some (toks, last)) = some (out ++ toks, last)

module _ (core : CoreBpe) (text : Bytes) (allowed : List Bytes) where
  encode_loop_step :
      (fuel i : ℕ) (out : List ℕ) (last : ℕ)
      → ltb i (length text) ≡ true
      → encode_loop core text allowed (suc fuel) i out last ≡ (
          let (tok, n) = special_at core text i allowed in
          let end = segment_end core text i in
          elim (ltb 0 n) [
            | true ↦ encode_loop core text allowed fuel (i + n) (out ++ tok ∷ []) 0
            | false ↦ elim (encode_piece core (slice text i end)) [
              | none ↦ none
              | some toks ↦ encode_loop core text allowed fuel end (out ++ toks) (length toks)
            ]
          ])
  encode_loop_step fuel i out last e = unfold encode_loop in rw (e, encode_loop)

  encode_loop-behind :
      (fuel i : ℕ) (out more : List ℕ) (last : ℕ)
      → encode_loop core text allowed fuel i (out ++ more) last
        ≡ behind out (encode_loop core text allowed fuel i more last)
  encode_loop-behind zero i out more last = unfold encode_loop in refl
  encode_loop-behind (suc fuel) i out more last = elim (Bool-cases (ltb i (length text))) [
    | inr stop ↦ rw (
      encode_loop_end core text allowed fuel i (out ++ more) last stop,
      encode_loop_end core text allowed fuel i more last stop,
    )
    | inl on ↦
        rw (encode_loop_step fuel i (out ++ more) last on, encode_loop_step fuel i more last on)
          (elim (Bool-cases (ltb 0 (special_at core text i allowed).1)) [
            | inl special ↦
                rw (special, append_assoc)
                  (encode_loop-behind fuel (i + (special_at core text i allowed).1) out
                    (more ++ (special_at core text i allowed).0 ∷ []) 0)
            | inr piece ↦
                elim (Option-cases (encode_piece core (slice text i (segment_end core text i)))) [
                  | inl e ↦ rw (piece, e)
                  | inr (toks, e) ↦
                      rw (piece, e, append_assoc)
                        (encode_loop-behind fuel (segment_end core text i) out (more ++ toks)
                          (length toks))
                ]
          ])
  ]

  -- The in-place encoder appends the tokens of `Encode` to what is in the buffer, returns the same
  -- length of the last piece, and has no result where `Encode` has none.
  pub encode_into-behind :
      (out : List ℕ) → encode_into core text allowed out ≡ behind out (encode core text allowed)
  unfolding encode_into encode
  encode_into-behind out =
      ap (λ t. encode_loop core text allowed (suc (length text)) 0 t 0) (sym (append-nil out))
      ∙ encode_loop-behind (suc (length text)) 0 out [] 0
