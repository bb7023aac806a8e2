-- ===== src/Text.antt =====
-- What the header helpers and the renderer use of Go's strings package, on strings as their bytes.
pub mod Search
pub mod Lines
use harmony_go.Prelude.{
  ℕ, zero, suc, ◌+◌, ◌-◌, Bool, true, false, ◌&&◌, ◌||◌, not, List, [], ◌∷◌, ◌++◌, Option, none,
  some, Bytes, ltb, leb, ◌==◌, if◌then◌else◌, length, take, drop,
}
use harmony_go.Tokenizer.Utf8.{decode_rune, is_space}

-- `strings.HasPrefix`
unfoldable pub has_prefix : Bytes → Bytes → Bool
has_prefix s [] = true
has_prefix [] (p ∷ pat) = false
has_prefix (b ∷ s) (p ∷ pat) = (b == p) && has_prefix s pat

-- `strings.Index`; `none` is -1.
unfoldable pub index : Bytes → Bytes → Option ℕ
index [] pat = if has_prefix [] pat then some 0 else none
index (b ∷ s) pat = elim (has_prefix (b ∷ s) pat) [
  | true ↦ some 0
  | false ↦ elim (index s pat) [ none ↦ none | some i ↦ some (suc i) ]
]

-- `strings.IndexByte`
unfoldable pub index_byte : Bytes → ℕ → Option ℕ
index_byte [] c = none
index_byte (b ∷ s) c = elim (b == c) [
  | true ↦ some 0
  | false ↦ elim (index_byte s c) [ none ↦ none | some i ↦ some (suc i) ]
]

-- `strings.Contains`
unfoldable pub contains : Bytes → Bytes → Bool
contains s pat = elim (index s pat) [ none ↦ false | some i ↦ true ]

-- `strings.ReplaceAll` of a text that is not empty, behind the bytes left of the last match.
unfoldable pub replace_from : ℕ → Bytes → Bytes → Bytes → Bytes
replace_from k [] old new = []
replace_from (suc k) (b ∷ s) old new = replace_from k s old new
replace_from zero (b ∷ s) old new = elim (has_prefix (b ∷ s) old) [
  | true ↦ new ++ replace_from (length old - 1) s old new
  | false ↦ b ∷ replace_from zero s old new
]

unfoldable pub replace_all : Bytes → Bytes → Bytes → Bytes
replace_all s old new = replace_from zero s old new

-- `strings.TrimLeftFunc(s, unicode.IsSpace)`, at most one round for each byte.
unfoldable pub trim_left : ℕ → Bytes → Bytes
trim_left zero s = s
trim_left (suc fuel) s =
    let (r, n) = decode_rune s in elim (is_space r) [ true ↦ trim_left fuel (drop n s) | false ↦ s ]

-- The last character is a space of the width `n`.
unfoldable pub space_at_end : Bytes → ℕ → Bool
space_at_end s n =
    let (r, k) = decode_rune (drop (length s - n) s) in leb n (length s) && k == n && is_space r

-- `strings.TrimRightFunc(s, unicode.IsSpace)`: no space is wider than three bytes.
unfoldable pub trim_right : ℕ → Bytes → Bytes
trim_right zero s = s
trim_right (suc fuel) s = elim (space_at_end s 1) [
  | true ↦ trim_right fuel (take (length s - 1) s)
  | false ↦ elim (space_at_end s 2) [
    | true ↦ trim_right fuel (take (length s - 2) s)
    | false ↦ elim (space_at_end s 3) [ true ↦ trim_right fuel (take (length s - 3) s) | false ↦ s ]
  ]
]

-- `strings.TrimSpace`
unfoldable pub trim_space : Bytes → Bytes
trim_space s = let left = trim_left (length s) s in trim_right (length left) left
