-- ===== src/Tokenizer/Segmenter/Walk.antt =====
-- Positions that lie between characters: a walk goes from one position to another by whole characters.
use harmony_go.Prelude.{
  ap, ℕ, zero, suc, ◌+◌, ◌≤◌, ◌<◌, ◌≡◌, Bool, none, some, [], ◌∷◌, Bytes, ltb, length, drop, arith,
  length-drop, Bool-cases, inl, inr, Option-cases,
}
use harmony_go.Tokenizer.Utf8.{rune_self, decode_rune, decode_rune_width, decode_rune_ascii}
use harmony_go.Tokenizer.Segmenter.{at, advance, run_from, run, skip}

-- The width of the character at `j`.
abbrev pub width : Bytes → ℕ → ℕ
width s j = (decode_rune (drop j s)).1

-- From the index to the parameter `k`, each step over one character of the text.
pub data Walk (s : Bytes) (k : ℕ) : ℕ → Type 0 where
  here : Walk s k k
  step : (j : ℕ) → j < length s → Walk s k (j + width s j) → Walk s k j

pub width_bounds : (s : Bytes) (j : ℕ) → j < length s → (1 ≤ width s j) × (j + width s j ≤ length s)
width_bounds s j h =
    omega (arith, decode_rune_width (drop j s) (omega (arith, length-drop j s)), length-drop j s)

pub width_ascii : (s : Bytes) (j : ℕ) → j < length s → at s j < rune_self → width s j ≡ 1
width_ascii [] j h lt = absurd (omega arith)
width_ascii (a ∷ s) zero h lt = ap (λ p. p.1) (decode_rune_ascii a s lt)
width_ascii (a ∷ s) (suc j) h lt = width_ascii s j (omega arith) lt

pub Walk-le : (s : Bytes) (k j : ℕ) → Walk s k j → j ≤ k
Walk-le s k j here = omega arith
Walk-le s k j (step _ lt w) = omega (arith, Walk-le s k (j + width s j) w, width_bounds s j lt)

pub Walk-le-length : (s : Bytes) (k j : ℕ) → Walk s k j → j ≤ length s → k ≤ length s
Walk-le-length s k j here h = h
Walk-le-length s k j (step _ lt w) h = Walk-le-length s k (j + width s j) w (width_bounds s j lt).1

pub Walk-trans : (s : Bytes) (k l j : ℕ) → Walk s k j → Walk s l k → Walk s l j
Walk-trans s k l j here v = v
Walk-trans s k l j (step _ lt w) v = step j lt (Walk-trans s k l (j + width s j) w v)

-- `advance` goes over one character.
pub advance-width :
    (ascii rune : ℕ → Bool) (s : Bytes) (j k : ℕ)
    → advance ascii rune s j ≡ some k
    → (j < length s) × (k ≡ j + width s j)
unfolding advance
advance-width ascii rune s j k h = elim (Bool-cases (ltb j (length s))) [
  | inl lt ↦ ground (arith, width_ascii s j)
  | inr ge ↦ ground arith
]

pub advance-Walk :
    (ascii rune : ℕ → Bool) (s : Bytes) (j k : ℕ) → advance ascii rune s j ≡ some k → Walk s k j
advance-Walk ascii rune s j k h =
    let (lt, e) = advance-width ascii rune s j k h in step j lt (rw (← e) here)

module _ (ascii rune : ℕ → Bool) (s : Bytes) where
  run_from_stop :
      (fuel j : ℕ) → advance ascii rune s j ≡ none → run_from (suc fuel) ascii rune s j ≡ j
  run_from_stop fuel j e = unfold run_from in rw (e, run_from)

  run_from_on :
      (fuel j k : ℕ)
      → advance ascii rune s j ≡ some k
      → run_from (suc fuel) ascii rune s j ≡ run_from fuel ascii rune s k
  run_from_on fuel j k e = unfold run_from in rw (e, run_from)

  pub run_from-Walk : (fuel j : ℕ) → Walk s (run_from fuel ascii rune s j) j
  run_from-Walk zero j = unfold run_from in here
  run_from-Walk (suc fuel) j = elim (Option-cases (advance ascii rune s j)) [
    | inl e ↦ rw (run_from_stop fuel j e) here
    | inr (k, e) ↦
        rw (run_from_on fuel j k e)
          (Walk-trans s k _ j (advance-Walk ascii rune s j k e) (run_from-Walk fuel k))
  ]

  pub run-Walk : (j : ℕ) → Walk s (run ascii rune s j) j
  run-Walk j = run_from-Walk (length s) j

  pub skip_stop : (j : ℕ) → advance ascii rune s j ≡ none → skip ascii rune s j ≡ j
  skip_stop j e = unfold skip in rw (e, skip)

  pub skip-Walk : (j : ℕ) → Walk s (skip ascii rune s j) j
  skip-Walk j = elim (Option-cases (advance ascii rune s j)) [
    | inl e ↦ unfold skip in rw (e, skip) here
    | inr (k, e) ↦ unfold skip in rw (e, skip) (advance-Walk ascii rune s j k e)
  ]

  run_from_stops :
      (fuel j : ℕ)
      → length s ≤ j + fuel
      → advance ascii rune s (run_from fuel ascii rune s j) ≡ none
  run_from_stops zero j h = elim (Option-cases (advance ascii rune s j)) [
    | inl e ↦ unfold run_from in e
    | inr (k, e) ↦ absurd (omega (arith, advance-width ascii rune s j k e))
  ]
  run_from_stops (suc fuel) j h = elim (Option-cases (advance ascii rune s j)) [
    | inl e ↦ rw (run_from_stop fuel j e) e
    | inr (k, e) ↦
        let (lt, e') = advance-width ascii rune s j k e in
        rw (run_from_on fuel j k e) (run_from_stops fuel k (omega (arith, width_bounds s j lt)))
  ]

  -- The loop ends by its test: what stands where it stops is not accepted.
  pub run_stops : (j : ℕ) → advance ascii rune s (run ascii rune s j) ≡ none
  run_stops j = run_from_stops (length s) j (omega arith)

  run_from_moves :
      (fuel j k : ℕ) → 0 < fuel → advance ascii rune s j ≡ some k → j < run_from fuel ascii rune s j
  run_from_moves zero j k h e = absurd (omega arith)
  run_from_moves (suc fuel) j k h e =
      let (lt, e') = advance-width ascii rune s j k e in
      rw (run_from_on fuel j k e)
        (omega (arith, Walk-le s _ k (run_from-Walk fuel k), width_bounds s j lt))

  -- Where the first character is accepted, the loop moves.
  pub run_moves : (j k : ℕ) → advance ascii rune s j ≡ some k → j < run ascii rune s j
  run_moves j k e =
      run_from_moves (length s) j k (omega (arith, advance-width ascii rune s j k e)) e
