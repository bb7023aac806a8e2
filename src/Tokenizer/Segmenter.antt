-- ===== src/Tokenizer/Segmenter.antt =====
-- tokenizer/segmenter.go: `o200kSegmenter.Next` and its rules. Positions are byte offsets in the
-- text. Each scanning loop of the file has the same body, which is `advance` here: an ASCII byte is
-- tested as a byte, any other character is decoded and tested as a rune.
pub mod Walk
pub mod Contraction
pub mod Rules
pub mod Moves
pub mod Next
pub mod Tests
use Prim.Native.Nat.{bit_or}
use harmony_go.Prelude.{
  ℕ, zero, suc, ◌+◌, ◌≡◌, refl, Bool, true, false, not, ◌&&◌, ◌||◌, List, [], ◌∷◌, Option, none,
  some, Bytes, codes, ltb, leb, ◌==◌, if◌then◌else◌, length, get_or, drop,
}
use harmony_go.Tokenizer.Utf8.{Tables, rune_self, decode_rune, is_space}

-- The Go interface `Segmenter`.
pub record Segmenter : Type 0 where
  pub next : Bytes → ℕ → ℕ

-- `s[j]`
abbrev pub at : Bytes → ℕ → ℕ
at s j = get_or s j 0

unfoldable pub is_ascii_space : ℕ → Bool
is_ascii_space b = b == b' ' || b == b'\t' || b == b'\n' || b == b'\r' || b == 12 || b == 11

unfoldable pub is_ascii_letter : ℕ → Bool
is_ascii_letter b = (leb b'A' b && leb b b'Z') || (leb b'a' b && leb b b'z')

unfoldable pub is_ascii_digit : ℕ → Bool
is_ascii_digit b = leb b'0' b && leb b b'9'

pub is_ascii_punct : ℕ → Bool
is_ascii_punct b = not (is_ascii_space b || is_ascii_letter b || is_ascii_digit b)

pub is_newline : ℕ → Bool
is_newline r = r == b'\r' || r == b'\n'

pub is_newline_or_slash : ℕ → Bool
is_newline_or_slash r = r == b'\r' || r == b'\n' || r == b'/'

-- The position behind the character at `j`, if it is in the text and passes its test.
unfoldable pub advance : (ℕ → Bool) → (ℕ → Bool) → Bytes → ℕ → Option ℕ
advance ascii rune s j =
    if ltb j (length s)
    then if ltb (at s j) rune_self
      then if ascii (at s j) then some (j + 1) else none
      else (let (r, size) = decode_rune (drop j s) in if rune r then some (j + size) else none)
    else none

-- `for j < len(s) { … break … }`. The fuel is the length of the text; each round moves on.
unfoldable pub run_from : ℕ → (ℕ → Bool) → (ℕ → Bool) → Bytes → ℕ → ℕ
run_from zero ascii rune s j = j
run_from (suc fuel) ascii rune s j = elim (advance ascii rune s j) [
  | none ↦ j
  | some k ↦ run_from fuel ascii rune s k
]

abbrev pub run : (ℕ → Bool) → (ℕ → Bool) → Bytes → ℕ → ℕ
run ascii rune s j = run_from (length s) ascii rune s j

-- An optional character.
unfoldable pub skip : (ℕ → Bool) → (ℕ → Bool) → Bytes → ℕ → ℕ
skip ascii rune s j = elim (advance ascii rune s j) [ none ↦ j | some k ↦ k ]

-- The loop of `hasCaseInsensitiveSuffixAt`, over the bytes of the suffix.
pub same_letters : Bytes → ℕ → Bytes → Bool
same_letters s i [] = true
same_letters s i (b ∷ suf) =
    if bit_or (at s i) 0x20 == bit_or b 0x20 then same_letters s (suc i) suf else false

pub has_case_insensitive_suffix_at : Bytes → ℕ → Bytes → Bool
has_case_insensitive_suffix_at s i suf =
    if ltb (length s) (i + length suf) then false else same_letters s i suf

abbrev pub suffixes : List Bytes
suffixes = codes "s" ∷ codes "t" ∷ codes "re" ∷ codes "ve" ∷ codes "m" ∷ codes "ll" ∷ codes "d" ∷ []

pub match_suffix : Bytes → ℕ → List Bytes → ℕ
match_suffix s i [] = i
match_suffix s i (suf ∷ rest) =
    if has_case_insensitive_suffix_at s (i + 1) suf
    then i + 1 + length suf
    else match_suffix s i rest

pub match_contraction : Bytes → ℕ → ℕ
match_contraction s i =
    if leb (length s) i || not (at s i == b'\'') then i else match_suffix s i suffixes

-- `if end2 := matchContraction(s, j); end2 > j { j = end2 }`
pub take_contraction : Bytes → ℕ → ℕ
take_contraction s j = let k = match_contraction s j in if ltb j k then k else j

-- `r, sz := rune(s[j]), 1; if r >= 0x80 { r, sz = utf8DecodeRuneInString(s[j:]) }`
pub first_rune : Bytes → ℕ → ℕ × ℕ
first_rune s j = if leb 0x80 (at s j) then decode_rune (drop j s) else (at s j, 1)

module _ (tables : Tables) where
  pub is_letter : ℕ → Bool
  is_letter r = tables.letter r

  pub is_number : ℕ → Bool
  is_number r = tables.number r

  pub consume_letter_run : Bytes → ℕ → ℕ
  consume_letter_run s i = run is_ascii_letter is_letter s i

  pub rule_letters_with_contraction : Bytes → ℕ → ℕ
  rule_letters_with_contraction s i =
      let j = consume_letter_run s i in if ltb i j then take_contraction s j else i

  pub rule_letters_with_prefix_and_contraction : Bytes → ℕ → ℕ
  rule_letters_with_prefix_and_contraction s i =
      let (r, size) = first_rune s i in
      if not (not (is_space r) && not (is_letter r) && not (is_number r))
      then rule_letters_with_contraction s i
      else (let j = i + size in
          let k = consume_letter_run s j in if ltb j k then take_contraction s k else i)

  -- The loop of `ruleNumbers`, which takes three characters at most.
  pub number_loop : ℕ → Bytes → ℕ → ℕ → ℕ × ℕ
  number_loop zero s j count = (j, count)
  number_loop (suc fuel) s j count = elim (advance is_ascii_digit is_number s j) [
    | none ↦ (j, count)
    | some k ↦ elim (leb 3 count) [ true ↦ (j, count) | false ↦ number_loop fuel s k (count + 1) ]
  ]

  pub rule_numbers : Bytes → ℕ → ℕ
  rule_numbers s i = let (j, count) = number_loop (length s) s i 0 in if ltb 0 count then j else i

  -- The negations of the tests at which the second loop of `rulePunctRun` breaks.
  pub is_punct : ℕ → Bool
  is_punct r = not (is_space r || is_letter r || is_number r)

  -- `had` is that the loop took a character.
  pub rule_punct_run : Bytes → ℕ → ℕ
  rule_punct_run s i =
      let j = skip is_ascii_space is_space s i in
      let k = run is_ascii_punct is_punct s j in
      if ltb j k then skip is_newline_or_slash is_newline_or_slash s k else i

pub rule_newlines : Bytes → ℕ → ℕ
rule_newlines s i =
    let j =
      run (λ b. not (not (is_ascii_space b) || is_newline b))
        (λ r. not (not (is_space r) || is_newline r)) s i in
    let k = run is_newline is_newline s j in if ltb j k then run is_newline is_newline s k else i

pub rule_whitespace : Bytes → ℕ → ℕ
rule_whitespace s i = let j = run is_ascii_space is_space s i in if ltb i j then j else i

-- The first loop of `Next`: the rest of the text is whitespace if the scan reaches its end.
pub all_whitespace : Bytes → ℕ → Bool
all_whitespace s i = leb (length s) (run is_ascii_space is_space s i)

-- `if end := rule(s, i); end > i { return end }`
pub first_end : ℕ → List ℕ → ℕ
first_end i [] = i + 1
first_end i (j ∷ ends) = if ltb i j then j else first_end i ends

module _ (tables : Tables) where
  pub o200k_next : Bytes → ℕ → ℕ
  o200k_next s i =
      if leb (length s) i
      then i
      else if all_whitespace s i
      then length s
      else first_end i (
          rule_letters_with_prefix_and_contraction tables s i
          ∷ rule_letters_with_contraction tables s i
          ∷ rule_numbers tables s i
          ∷ rule_punct_run tables s i
          ∷ rule_newlines s i
          ∷ rule_whitespace s i
          ∷ [])

  pub new_o200k_segmenter : Segmenter
  new_o200k_segmenter = record { next = o200k_next }
