-- ===== src/Tokenizer/Segmenter/Rules.antt =====
-- Each rule of the segmenter goes over whole characters, and moves where its first test accepts.
use harmony_go.Prelude.{
  ℕ, zero, suc, ◌+◌, ◌≤◌, ◌<◌, ◌≡◌, Bool, true, false, none, some, Bytes, leb, if◌then◌else◌,
  length, arith, Bool-cases, Option-cases, inl, inr,
}
use harmony_go.Tokenizer.Utf8.{Tables, is_space}
use harmony_go.Tokenizer.Segmenter.{
  advance, first_rune, is_ascii_space, is_ascii_letter, is_ascii_digit, is_newline,
  is_newline_or_slash, take_contraction, is_letter, is_number, consume_letter_run,
  rule_letters_with_contraction, rule_letters_with_prefix_and_contraction, number_loop,
  rule_numbers, rule_punct_run, rule_newlines, rule_whitespace,
}
use harmony_go.Tokenizer.Segmenter.Walk.{
  Walk, here, step, width, width_ascii, Walk-trans, advance-Walk, run-Walk, skip-Walk,
}
use harmony_go.Tokenizer.Segmenter.Contraction.{IsBytes, take_contraction-Walk}

if-Walk_both :
    (s : Bytes) (b : Bool) (k l i : ℕ) → Walk s k i → Walk s l i → Walk s (if b then k else l) i
if-Walk_both s true k l i v w = v
if-Walk_both s false k l i v w = w

first_rune-width : (s : Bytes) (i : ℕ) → i < length s → (first_rune s i).1 ≡ width s i
unfolding first_rune
first_rune-width s i lt = ground (arith, width_ascii s i)

-- A rule returns what it found, or `i`.
if-Walk : (s : Bytes) (b : Bool) (k i : ℕ) → Walk s k i → Walk s (if b then k else i) i
if-Walk s true k i w = w
if-Walk s false k i w = here

pub rule_newlines-Walk : (s : Bytes) (i : ℕ) → Walk s (rule_newlines s i) i
unfolding rule_newlines
rule_newlines-Walk s i = if-Walk s _ _ i (
    Walk-trans s _ _ i (run-Walk _ _ s i) (
      Walk-trans s _ _ _ (run-Walk is_newline is_newline s _) (run-Walk is_newline is_newline s _)))

pub rule_whitespace-Walk : (s : Bytes) (i : ℕ) → Walk s (rule_whitespace s i) i
unfolding rule_whitespace
rule_whitespace-Walk s i = if-Walk s _ _ i (run-Walk is_ascii_space is_space s i)

module _ (tables : Tables) (s : Bytes) where
  number_loop_stop :
      (fuel j count : ℕ)
      → advance is_ascii_digit (is_number tables) s j ≡ none
      → number_loop tables (suc fuel) s j count ≡ (j, count)
  number_loop_stop fuel j count e = unfold number_loop in rw (e, number_loop)

  number_loop_full :
      (fuel j k count : ℕ)
      → advance is_ascii_digit (is_number tables) s j ≡ some k
      → leb 3 count ≡ true
      → number_loop tables (suc fuel) s j count ≡ (j, count)
  number_loop_full fuel j k count e full = unfold number_loop in rw (e, full, number_loop)

  pub number_loop_on :
      (fuel j k count : ℕ)
      → advance is_ascii_digit (is_number tables) s j ≡ some k
      → leb 3 count ≡ false
      → number_loop tables (suc fuel) s j count ≡ number_loop tables fuel s k (count + 1)
  number_loop_on fuel j k count e room = unfold number_loop in rw (e, room, number_loop)

  pub number_loop-Walk : (fuel j count : ℕ) → Walk s (number_loop tables fuel s j count).0 j
  number_loop-Walk zero j count = unfold number_loop in here
  number_loop-Walk (suc fuel) j count =
      elim (Option-cases (advance is_ascii_digit (is_number tables) s j)) [
        | inl e ↦ rw (number_loop_stop fuel j count e) here
        | inr (k, e) ↦ elim (Bool-cases (leb 3 count)) [
          | inl full ↦ rw (number_loop_full fuel j k count e full) here
          | inr room ↦
              rw (number_loop_on fuel j k count e room) (
                Walk-trans s k _ j (advance-Walk _ _ s j k e) (number_loop-Walk fuel k (count + 1)))
        ]
      ]

  -- The count of characters taken, from 0 on, ends at 3 at most.
  pub number_loop_count :
      (fuel j count : ℕ)
      → count ≤ 3
      → (count ≤ (number_loop tables fuel s j count).1)
        × ((number_loop tables fuel s j count).1 ≤ 3)
  number_loop_count zero j count h = unfold number_loop in (omega arith, h)
  number_loop_count (suc fuel) j count h =
      elim (Option-cases (advance is_ascii_digit (is_number tables) s j)) [
        | inl e ↦ rw (number_loop_stop fuel j count e) (omega arith, h)
        | inr (k, e) ↦ elim (Bool-cases (leb 3 count)) [
          | inl full ↦ rw (number_loop_full fuel j k count e full) (omega arith, h)
          | inr room ↦
              let below : count + 1 ≤ 3 = ground arith in
              rw (number_loop_on fuel j k count e room)
                (let (lo, hi) = number_loop_count fuel k (count + 1) below in (omega arith, hi))
        ]
      ]

  pub rule_numbers-Walk : (i : ℕ) → Walk s (rule_numbers tables s i) i
  unfolding rule_numbers
  rule_numbers-Walk i = if-Walk s _ _ i (number_loop-Walk (length s) i 0)

  pub rule_punct_run-Walk : (i : ℕ) → Walk s (rule_punct_run tables s i) i
  unfolding rule_punct_run
  rule_punct_run-Walk i = if-Walk s _ _ i (
      Walk-trans s _ _ i (skip-Walk is_ascii_space is_space s i) (
        Walk-trans s _ _ _ (run-Walk _ _ s _)
          (skip-Walk is_newline_or_slash is_newline_or_slash s _)))

  module _ (bytes : IsBytes s) where
    pub rule_letters-Walk : (i : ℕ) → Walk s (rule_letters_with_contraction tables s i) i
    unfolding rule_letters_with_contraction consume_letter_run
    rule_letters-Walk i = if-Walk s _ _ i (
        Walk-trans s _ _ i (run-Walk is_ascii_letter (is_letter tables) s i)
          (take_contraction-Walk s bytes _))

    letters_behind-Walk :
        (i : ℕ)
        → i < length s
        → Walk s (take_contraction s (consume_letter_run tables s (i + (first_rune s i).1))) i
    letters_behind-Walk i lt = step i lt (
        rw (first_rune-width s i lt) (
          Walk-trans s (consume_letter_run tables s (i + width s i)) _ _
            (unfold consume_letter_run in run-Walk is_ascii_letter (is_letter tables) s _)
            (take_contraction-Walk s bytes _)))

    pub rule_prefix-Walk :
        (i : ℕ) → i < length s → Walk s (rule_letters_with_prefix_and_contraction tables s i) i
    unfolding rule_letters_with_prefix_and_contraction
    rule_prefix-Walk i lt =
        if-Walk_both s _ _ _ i (rule_letters-Walk i) (if-Walk s _ _ i (letters_behind-Walk i lt))
