-- ===== src/Tokenizer/Segmenter/Next.antt =====
-- `Next`: it moves, stays in the text, and never cuts a character.
use harmony_go.Prelude.{
  refl, ◌≢◌, ℕ, ◌≤◌, ◌<◌, ◌≡◌, true, false, List, [], ◌∷◌, Bytes, All, ltb, leb, length, arith,
  Bool-cases, inl, inr, ◌⊎◌,
}
use harmony_go.Tokenizer.Utf8.{Tables, is_space}
use harmony_go.Tokenizer.Segmenter.{
  new_o200k_segmenter, run, is_ascii_space, all_whitespace, first_end, o200k_next,
  rule_letters_with_prefix_and_contraction, rule_letters_with_contraction, rule_numbers,
  rule_punct_run, rule_newlines, rule_whitespace,
}
use harmony_go.Tokenizer.Segmenter.Walk.{Walk, run-Walk, Walk-le-length}
use harmony_go.Tokenizer.Segmenter.Contraction.{IsBytes}
use harmony_go.Tokenizer.Segmenter.Rules.{
  rule_prefix-Walk, rule_letters-Walk, rule_numbers-Walk, rule_punct_run-Walk, rule_newlines-Walk,
  rule_whitespace-Walk,
}
use harmony_go.Tokenizer.Segmenter.Moves.{some_rule_moves}

-- Some end lies behind `i`.
abbrev Moves : ℕ → List ℕ → Type 0
Moves i [] = ⊥
Moves i (j ∷ ends) = (i < j) ⊎ Moves i ends

-- The end is the first of the list that lies behind `i`.
abbrev pub FirstBehind : ℕ → List ℕ → ℕ → Type 0
FirstBehind i [] end = ⊥
FirstBehind i (j ∷ ends) end = ((i < j) × (end ≡ j)) ⊎ ((j ≤ i) × FirstBehind i ends end)

first_end-Walk :
    (s : Bytes) (i : ℕ) (ends : List ℕ)
    → All (λ j. Walk s j i) ends
    → Moves i ends
    → Walk s (first_end i ends) i × (i < first_end i ends) × FirstBehind i ends (first_end i ends)
unfolding first_end
first_end-Walk s i [] ws m = absurd m
first_end-Walk s i (j ∷ ends) (w, ws) m = elim (Bool-cases (ltb i j)) [
  | inl lt ↦ let moved : i < j = ground arith in rw lt (w, moved, inl (moved, refl))
  | inr ge ↦
      let (walk, moved, first) =
        first_end-Walk s i ends ws (elim m [ inl lt ↦ absurd (ground arith) | inr m' ↦ m' ]) in
      rw ge (walk, moved, inr (ground arith, first))
]

whitespace_end :
    (s : Bytes) (i : ℕ)
    → i < length s
    → all_whitespace s i ≡ true
    → run is_ascii_space is_space s i ≡ length s
unfolding all_whitespace
whitespace_end s i lt h =
    let inside =
      Walk-le-length s (run is_ascii_space is_space s i) i (run-Walk is_ascii_space is_space s i)
        (omega arith) in
    ground arith

not_whitespace :
    (s : Bytes) (i : ℕ) → all_whitespace s i ≡ false → run is_ascii_space is_space s i ≢ length s
unfolding all_whitespace
not_whitespace s i h = ground arith

Moves-of :
    (i a b c n d : ℕ) → (i < a) ⊎ (i < b) ⊎ (i < c) ⊎ (i < d) → Moves i (a ∷ b ∷ c ∷ n ∷ d ∷ [])
Moves-of i a b c n d (inl h) = inl h
Moves-of i a b c n d (inr (inl h)) = inr (inl h)
Moves-of i a b c n d (inr (inr (inl h))) = inr (inr (inl h))
Moves-of i a b c n d (inr (inr (inr h))) = inr (inr (inr (inr (inl h))))

-- The ends of the rules, in the order in which they are tried.
abbrev pub rule_ends : Tables → Bytes → ℕ → List ℕ
rule_ends tables s i =
    rule_letters_with_prefix_and_contraction tables s i
    ∷ rule_letters_with_contraction tables s i
    ∷ rule_numbers tables s i
    ∷ rule_punct_run tables s i
    ∷ rule_newlines s i
    ∷ rule_whitespace s i
    ∷ []

-- Where an end comes from: the rest of the text is whitespace and taken whole, or it is the end of
-- the first rule that moves.
abbrev pub IsRuleEnd : Tables → Bytes → ℕ → ℕ → Type 0
IsRuleEnd tables s i end =
    ((run is_ascii_space is_space s i ≡ length s) × (end ≡ length s))
    ⊎ ((run is_ascii_space is_space s i ≢ length s) × FirstBehind i (rule_ends tables s i) end)

module _ (tables : Tables) (s : Bytes) where
  -- At a position in a text of bytes, `Next` returns a later position that is reached by whole
  -- characters. Either the rest of the text is whitespace, and the position is its end, or it is not,
  -- some rule moves, and the position is the end of the first rule that does: the fallback of a single byte
  -- is never taken.
  pub o200k_next-Walk :
      (i : ℕ)
      → IsBytes s
      → i < length s
      → Walk s (o200k_next tables s i) i
        × (i < o200k_next tables s i)
        × IsRuleEnd tables s i (o200k_next tables s i)
  o200k_next-Walk i bytes lt =
      let inside : leb (length s) i ≡ false = ground arith in
      elim (Bool-cases (all_whitespace s i)) [
        | inl white ↦
            let end : run is_ascii_space is_space s i ≡ length s = whitespace_end s i lt white in
            let next : o200k_next tables s i ≡ length s = unfold o200k_next in rw (inside, white) in
            let walk : Walk s (length s) i = rw end at (run-Walk is_ascii_space is_space s i) in
            rw next (walk, lt, inl (end, refl))
        | inr other ↦
            let moves = some_rule_moves s tables i bytes lt in
            let next : o200k_next tables s i ≡ first_end i (rule_ends tables s i) =
              unfold o200k_next in rw (inside, other) in
            let (walk, moved, first) =
              first_end-Walk s i (rule_ends tables s i)
                (
                  rule_prefix-Walk tables s bytes i lt,
                  (
                    rule_letters-Walk tables s bytes i,
                    (
                      rule_numbers-Walk tables s i,
                      (
                        rule_punct_run-Walk tables s i,
                        (rule_newlines-Walk s i, (rule_whitespace-Walk s i, tt)),
                      ),
                    ),
                  ),
                )
                (inr (Moves-of i _ _ _ _ _ moves)) in
            rw next (walk, moved, inr (not_whitespace s i other, first))
      ]

  -- `Next` returns an end behind `i` and inside the text.
  pub o200k_next_bounds :
      (i : ℕ)
      → IsBytes s
      → i < length s
      → (i < o200k_next tables s i) × (o200k_next tables s i ≤ length s)
  o200k_next_bounds i bytes lt =
      let (w, moved, _) = o200k_next-Walk i bytes lt in
      (moved, Walk-le-length s (o200k_next tables s i) i w (omega arith))

  -- The same of the segmenter as the interface has it.
  pub new_o200k_segmenter_bounds :
      (i : ℕ)
      → IsBytes s
      → i < length s
      → (i < (new_o200k_segmenter tables).next s i)
        × ((new_o200k_segmenter tables).next s i ≤ length s)
  unfolding new_o200k_segmenter
  new_o200k_segmenter_bounds i bytes lt = o200k_next_bounds i bytes lt
