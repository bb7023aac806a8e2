-- ===== src/Tokenizer/Segmenter/Moves.antt =====
-- Every character passes the first test of some rule, so some rule moves at every position.
use harmony_go.Prelude.{
  ℕ, zero, suc, ◌+◌, ◌<◌, ◌≡◌, refl, Bool, none, some, Bytes, length, arith, Option-cases, inl, inr,
  ◌⊎◌, lt→ltb,
}
use harmony_go.Tokenizer.Utf8.{Tables, is_space}
use harmony_go.Tokenizer.Segmenter.{
  advance, run, is_ascii_space, is_ascii_letter, is_ascii_digit, is_ascii_punct,
  is_newline_or_slash, is_letter, is_number, is_punct, consume_letter_run,
  rule_letters_with_contraction, number_loop, rule_numbers, rule_punct_run, rule_whitespace,
}
use harmony_go.Tokenizer.Segmenter.Walk.{
  width, width_ascii, Walk-le, advance-width, width_bounds, skip-Walk, skip_stop, run_moves,
}
use harmony_go.Tokenizer.Segmenter.Contraction.{IsBytes, take_contraction-Walk}
use harmony_go.Tokenizer.Segmenter.Rules.{number_loop-Walk, number_loop_on, number_loop_count}

-- A character passes the test.
abbrev pub Passes : (ℕ → Bool) → (ℕ → Bool) → Bytes → ℕ → Type 0
Passes ascii rune s j = (k : ℕ) × (advance ascii rune s j ≡ some k)

module _ (s : Bytes) where
  pub rule_whitespace_moves : (i : ℕ) → Passes is_ascii_space is_space s i → i < rule_whitespace s i
  rule_whitespace_moves i (k, e) =
      let lt = run_moves is_ascii_space is_space s i k e in
      unfold rule_whitespace in rw (lt→ltb _ _ lt) lt

  module _ (tables : Tables) where
    number_loop_moves :
        (fuel i : ℕ)
        → 0 < fuel
        → i < length s
        → Passes is_ascii_digit (is_number tables) s i
        → (i < (number_loop tables fuel s i 0).0) × (0 < (number_loop tables fuel s i 0).1)
    number_loop_moves zero i h lt (k, e) = absurd (omega arith)
    number_loop_moves (suc fuel) i h lt (k, e) = rw (number_loop_on tables s fuel i k 0 e refl) (
      omega (
        arith,
        Walk-le s _ k (number_loop-Walk tables s fuel k (0 + 1)),
        advance-width _ _ s i k e,
        width_bounds s i lt,
      ),
      omega (arith, number_loop_count tables s fuel k (0 + 1) (omega arith)),
    )

    pub rule_numbers_moves :
        (i : ℕ)
        → i < length s
        → Passes is_ascii_digit (is_number tables) s i
        → i < rule_numbers tables s i
    rule_numbers_moves i lt p =
        let (moved, counted) = number_loop_moves (length s) i (omega arith) lt p in
        unfold rule_numbers in rw (lt→ltb _ _ counted) moved

    pub rule_punct_run_moves :
        (i : ℕ)
        → advance is_ascii_space is_space s i ≡ none
        → Passes is_ascii_punct (is_punct tables) s i
        → i < rule_punct_run tables s i
    rule_punct_run_moves i stop (k, e) =
        let lt = run_moves is_ascii_punct (is_punct tables) s i k e in
        let end = run is_ascii_punct (is_punct tables) s i in
        let back = Walk-le s _ end (skip-Walk is_newline_or_slash is_newline_or_slash s end) in
        let same = skip_stop is_ascii_space is_space s i stop in
        unfold rule_punct_run in rw same (rw (lt→ltb _ _ lt) (omega arith))

    pub rule_letters_moves :
        (i : ℕ)
        → IsBytes s
        → Passes is_ascii_letter (is_letter tables) s i
        → i < rule_letters_with_contraction tables s i
    rule_letters_moves i bytes (k, e) =
        let lt = run_moves is_ascii_letter (is_letter tables) s i k e in
        let end = run is_ascii_letter (is_letter tables) s i in
        unfold rule_letters_with_contraction consume_letter_run in
        rw (lt→ltb _ _ lt) (omega (arith, Walk-le s _ end (take_contraction-Walk s bytes end)))

    -- The four classes cover the characters.
    punct_left :
        (i : ℕ)
        → i < length s
        → advance is_ascii_space is_space s i ≡ none
        → advance is_ascii_letter (is_letter tables) s i ≡ none
        → advance is_ascii_digit (is_number tables) s i ≡ none
        → advance is_ascii_punct (is_punct tables) s i ≡ some (i + width s i)
    unfolding advance is_punct is_ascii_punct
    punct_left i lt a b c = ground (arith, width_ascii s i)

    pub some_rule_moves :
        (i : ℕ)
        → IsBytes s
        → i < length s
        → (i < rule_letters_with_contraction tables s i)
          ⊎ (i < rule_numbers tables s i)
          ⊎ (i < rule_punct_run tables s i)
          ⊎ (i < rule_whitespace s i)
    some_rule_moves i bytes lt = elim (Option-cases (advance is_ascii_space is_space s i)) [
      | inr p ↦ inr (inr (inr (rule_whitespace_moves i p)))
      | inl a ↦ elim (Option-cases (advance is_ascii_letter (is_letter tables) s i)) [
        | inr p ↦ inl (rule_letters_moves i bytes p)
        | inl b ↦ elim (Option-cases (advance is_ascii_digit (is_number tables) s i)) [
          | inr p ↦ inr (inl (rule_numbers_moves i lt p))
          | inl c ↦
              inr (inr (inl (rule_punct_run_moves i a (i + width s i, punct_left i lt a b c))))
        ]
      ]
    ]
