-- ===== src/Tokenizer/Loader/Base64.antt =====
-- tokenizer/loader.go: `base64.StdEncoding.DecodeString`, as the standard library has it.
pub mod Encode
use harmony_go.Prelude.{
  ℕ, ◌+◌, ◌*◌, ◌-◌, ◌/◌, ◌%◌, Bool, true, false, ◌&&◌, ◌||◌, List, [], ◌∷◌, ◌++◌, Option, none,
  some, Bytes, leb, ◌==◌, if◌then◌else◌,
}

-- The value of a letter of the alphabet.
unfoldable pub sextet : ℕ → Option ℕ
sextet c =
    if leb b'A' c && leb c b'Z'
    then some (c - b'A')
    else if leb b'a' c && leb c b'z'
    then some (c - b'a' + 26)
    else if leb b'0' c && leb c b'9'
    then some (c - b'0' + 52)
    else if c == b'+'
    then some 62
    else if c == b'/'
    then some 63
    else none

-- Line ends are skipped wherever they stand.
unfoldable pub without_line_ends : Bytes → Bytes
without_line_ends [] = []
without_line_ends (b ∷ s) =
    let rest = without_line_ends s in if b == b'\r' || b == b'\n' then rest else b ∷ rest

-- The bytes of four letters.
unfoldable pub quantum : ℕ → ℕ → ℕ → ℕ → Bytes
quantum a b c d = (a * 4 + b / 16) ∷ (b % 16 * 16 + c / 4) ∷ (c % 4 * 64 + d) ∷ []

-- The last letters with their padding: the bits that are left over are not looked at.
unfoldable pub last_quantum : ℕ → ℕ → ℕ → ℕ → Option Bytes
last_quantum a b c d = elim (sextet a) [
  | none ↦ none
  | some x ↦ elim (sextet b) [
    | none ↦ none
    | some y ↦ if c == b'=' && d == b'=' then some ((x * 4 + y / 16) ∷ []) else (elim (sextet c) [
      | none ↦ none
      | some z ↦
          if d == b'='
          then some ((x * 4 + y / 16) ∷ (y % 16 * 16 + z / 4) ∷ [])
          else (elim (sextet d) [ none ↦ none | some w ↦ some (quantum x y z w) ])
    ])
  ]
]

unfoldable pub full_quantum : ℕ → ℕ → ℕ → ℕ → Option Bytes
full_quantum a b c d = elim (sextet a) [
  | none ↦ none
  | some x ↦ elim (sextet b) [
    | none ↦ none
    | some y ↦ elim (sextet c) [
      | none ↦ none
      | some z ↦ elim (sextet d) [ none ↦ none | some w ↦ some (quantum x y z w) ]
    ]
  ]
]

unfoldable pub decode_quanta : Bytes → Option Bytes
decode_quanta [] = some []
decode_quanta (a ∷ []) = none
decode_quanta (a ∷ b ∷ []) = none
decode_quanta (a ∷ b ∷ c ∷ []) = none
decode_quanta (a ∷ b ∷ c ∷ d ∷ []) = last_quantum a b c d
decode_quanta (a ∷ b ∷ c ∷ d ∷ e ∷ s) =
    let rest = decode_quanta (e ∷ s) in
    elim (full_quantum a b c d) [
      | none ↦ none
      | some front ↦ elim rest [ none ↦ none | some behind ↦ some (front ++ behind) ]
    ]

unfoldable pub decode_string : Bytes → Option Bytes
decode_string s = decode_quanta (without_line_ends s)
