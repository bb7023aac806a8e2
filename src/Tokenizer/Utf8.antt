-- ===== src/Tokenizer/Utf8.antt =====
-- What the segmenter uses of Go's unicode/utf8 and unicode packages: `utf8.DecodeRuneInString` and
-- `unicode.IsSpace`, by their documented tables. The tables of letters and numbers are a parameter.
use harmony_go.Prelude.{
  ℕ, suc, ◌+◌, ◌*◌, ◌%◌, ◌≤◌, ◌<◌, ◌≡◌, Bool, ◌&&◌, ◌||◌, [], ◌∷◌, Bytes, ltb, leb, ◌==◌,
  if◌then◌else◌, length, arith,
}

-- `unicode.Is(unicode.L, r) || unicode.Is(unicode.M, r)` and `unicode.Is(unicode.N, r)`.
pub record Tables : Type 0 where
  pub letter : ℕ → Bool
  pub number : ℕ → Bool

abbrev pub rune_error : ℕ
rune_error = 0xFFFD

-- `utf8.RuneSelf`: below it a byte is a character.
abbrev pub rune_self : ℕ
rune_self = 0x80

abbrev pub within : ℕ → ℕ → ℕ → Bool
within lo hi b = leb lo b && leb b hi

-- A continuation byte.
abbrev pub is_continuation : ℕ → Bool
is_continuation b = within 0x80 0xBF b

-- The bytes of a character of two, three or four bytes, whose second byte lies in a range that
-- depends on the first.
unfoldable pub decode_two : ℕ → Bytes → ℕ × ℕ
decode_two a [] = (rune_error, 1)
decode_two a (b ∷ s) = if is_continuation b then ((a % 32) * 64 + b % 64, 2) else (rune_error, 1)

unfoldable pub decode_three : ℕ → ℕ → ℕ → Bytes → ℕ × ℕ
decode_three lo hi a [] = (rune_error, 1)
decode_three lo hi a (b ∷ []) = (rune_error, 1)
decode_three lo hi a (b ∷ c ∷ s) =
    if within lo hi b && is_continuation c
    then (((a % 16) * 64 + b % 64) * 64 + c % 64, 3)
    else (rune_error, 1)

unfoldable pub decode_four : ℕ → ℕ → ℕ → Bytes → ℕ × ℕ
decode_four lo hi a [] = (rune_error, 1)
decode_four lo hi a (b ∷ []) = (rune_error, 1)
decode_four lo hi a (b ∷ c ∷ []) = (rune_error, 1)
decode_four lo hi a (b ∷ c ∷ d ∷ s) =
    if within lo hi b && is_continuation c && is_continuation d
    then ((((a % 8) * 64 + b % 64) * 64 + c % 64) * 64 + d % 64, 4)
    else (rune_error, 1)

-- `utf8.DecodeRuneInString`: the character and its width.
unfoldable pub decode_rune : Bytes → ℕ × ℕ
decode_rune [] = (rune_error, 0)
decode_rune (a ∷ s) =
    if ltb a rune_self
    then (a, 1)
    else if ltb a 0xC2
    then (rune_error, 1)
    else if ltb a 0xE0
    then decode_two a s
    else if ltb a 0xF0
    then decode_three (if a == 0xE0 then 0xA0 else 0x80) (if a == 0xED then 0x9F else 0xBF) a s
    else if ltb a 0xF5
    then decode_four (if a == 0xF0 then 0x90 else 0x80) (if a == 0xF4 then 0x8F else 0xBF) a s
    else (rune_error, 1)

-- `unicode.IsSpace`
unfoldable pub is_space : ℕ → Bool
is_space r =
    within 9 13 r
    || r == 0x20
    || r == 0x85
    || r == 0xA0
    || r == 0x1680
    || within 0x2000 0x200A r
    || r == 0x2028
    || r == 0x2029
    || r == 0x202F
    || r == 0x205F
    || r == 0x3000

decode_two_width :
    (a : ℕ) (s : Bytes) → (1 ≤ (decode_two a s).1) × ((decode_two a s).1 ≤ suc (length s))
unfolding decode_two
decode_two_width a [] = omega arith
decode_two_width a (b ∷ s) = ground arith

decode_three_width :
    (lo hi a : ℕ) (s : Bytes)
    → (1 ≤ (decode_three lo hi a s).1) × ((decode_three lo hi a s).1 ≤ suc (length s))
unfolding decode_three
decode_three_width lo hi a [] = omega arith
decode_three_width lo hi a (b ∷ []) = omega arith
decode_three_width lo hi a (b ∷ c ∷ s) = ground arith

decode_four_width :
    (lo hi a : ℕ) (s : Bytes)
    → (1 ≤ (decode_four lo hi a s).1) × ((decode_four lo hi a s).1 ≤ suc (length s))
unfolding decode_four
decode_four_width lo hi a [] = omega arith
decode_four_width lo hi a (b ∷ []) = omega arith
decode_four_width lo hi a (b ∷ c ∷ []) = omega arith
decode_four_width lo hi a (b ∷ c ∷ d ∷ s) = ground arith

-- A character of a text that is not empty has at least one byte, and lies in the text.
pub decode_rune_width :
    (s : Bytes) → 0 < length s → (1 ≤ (decode_rune s).1) × ((decode_rune s).1 ≤ length s)
unfolding decode_rune
decode_rune_width [] h = absurd (omega arith)
decode_rune_width (a ∷ s) h =
    let lo3 : ℕ = if a == 0xE0 then 0xA0 else 0x80 in
    let hi3 : ℕ = if a == 0xED then 0x9F else 0xBF in
    let lo4 : ℕ = if a == 0xF0 then 0x90 else 0x80 in
    let hi4 : ℕ = if a == 0xF4 then 0x8F else 0xBF in
    ground
      (arith, decode_two_width a s, decode_three_width lo3 hi3 a s, decode_four_width lo4 hi4 a s)

pub decode_rune_ascii : (a : ℕ) (s : Bytes) → a < rune_self → decode_rune (a ∷ s) ≡ (a, 1)
unfolding decode_rune
decode_rune_ascii a s h = ground arith
