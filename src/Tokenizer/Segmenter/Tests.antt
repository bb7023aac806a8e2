-- ===== src/Tokenizer/Segmenter/Tests.antt =====
-- Segments of small texts, and the theorems at them.
use harmony_go.Prelude.{ℕ, ◌≡◌, ◌<◌, refl, [], ◌∷◌, Bytes, codes, arith}
use harmony_go.Tokenizer.Utf8.{Tables, decode_rune, is_space}
use harmony_go.Tokenizer.Segmenter.{
  advance, run_from, skip, is_ascii_space, is_ascii_letter, is_ascii_digit, is_newline,
  is_newline_or_slash, is_ascii_punct, is_punct, is_letter, is_number, same_letters,
  has_case_insensitive_suffix_at, match_suffix, match_contraction, take_contraction, first_rune,
  consume_letter_run, rule_letters_with_contraction, rule_letters_with_prefix_and_contraction,
  number_loop, rule_numbers, rule_punct_run, rule_newlines, rule_whitespace, all_whitespace,
  first_end, o200k_next,
}
use harmony_go.Tokenizer.Segmenter.Walk.{Walk}
use harmony_go.Tokenizer.Segmenter.Next.{o200k_next-Walk, IsRuleEnd}

-- `é` is a letter; ASCII letters are letters.
abbrev sample_tables : Tables
sample_tables = record { letter = is_ascii_letter; number = is_ascii_digit }

sample_next : Bytes → ℕ → ℕ
unfolding o200k_next advance run_from skip is_ascii_space is_ascii_letter is_ascii_digit is_newline
    is_newline_or_slash is_ascii_punct is_punct is_letter is_number same_letters
    has_case_insensitive_suffix_at match_suffix match_contraction take_contraction first_rune
    consume_letter_run rule_letters_with_contraction rule_letters_with_prefix_and_contraction
    number_loop rule_numbers rule_punct_run rule_newlines rule_whitespace all_whitespace first_end
    is_space decode_rune
sample_next s i = o200k_next sample_tables s i

-- A letter run with its contraction.
contraction : sample_next (codes "it's 12345") 0 ≡ 4
unfolding sample_next
contraction = refl

-- Three digits at most.
digits : sample_next (codes "it's 12345") 5 ≡ 8
unfolding sample_next
digits = refl

-- The punctuation run takes the first two bytes of a special literal behind it.
swallowed : sample_next (codes "!<|end|>") 0 ≡ 3
unfolding sample_next
swallowed = refl

o200k_next-Walk_example :
    Walk (0xC3 ∷ 0xA9 ∷ 0x21 ∷ []) (o200k_next sample_tables (0xC3 ∷ 0xA9 ∷ 0x21 ∷ []) 0) 0
    × (0 < o200k_next sample_tables (0xC3 ∷ 0xA9 ∷ 0x21 ∷ []) 0)
    × IsRuleEnd sample_tables
        (0xC3 ∷ 0xA9 ∷ 0x21 ∷ [])
        0
        (o200k_next sample_tables (0xC3 ∷ 0xA9 ∷ 0x21 ∷ []) 0)
o200k_next-Walk_example =
    o200k_next-Walk sample_tables (0xC3 ∷ 0xA9 ∷ 0x21 ∷ []) 0 (omega arith) (omega arith)
