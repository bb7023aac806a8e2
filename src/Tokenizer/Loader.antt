-- ===== src/Tokenizer/Loader.antt =====
-- tokenizer/loader.go: the lines of the vocabulary file, and the base URL.
pub mod Base64
pub mod Lines
pub mod RoundTrip
pub mod Bounds
pub mod Tests
use harmony_go.Prelude.{
  ℕ, zero, suc, ◌+◌, ◌*◌, ◌-◌, Bool, true, false, ◌&&◌, ◌||◌, not, List, [], ◌∷◌, ◌++◌, Option,
  none, some, Bytes, codes, Result, ok, err, ltb, leb, ◌==◌, if◌then◌else◌, take, drop, length,
  bytes_eq,
}
use harmony_go.Header.{is_empty}
use harmony_go.Text.{index_byte}
use harmony_go.Tokenizer.Store.{Pairs}
use harmony_go.Tokenizer.Loader.Base64.{decode_string}

-- The errors of a line, with its number.
pub data LoadError : Type 0 where
  invalid_vocab bad_base64 bad_rank : ℕ → LoadError

-- `strings.TrimRight(line, "\r\n")`
unfoldable pub trim_line : Bytes → Bytes
trim_line [] = []
trim_line (b ∷ s) = elim (trim_line s) [
  | [] ↦ if b == b'\r' || b == b'\n' then [] else b ∷ []
  | c ∷ t ↦ b ∷ c ∷ t
]

abbrev pub max_uint32 : ℕ
max_uint32 = 4294967295

-- The loop of `strconv.ParseUint(s, 10, 32)` over the digits, with the value so far.
unfoldable pub parse_digits : ℕ → Bytes → Option ℕ
parse_digits n [] = some n
parse_digits n (b ∷ s) = elim (leb b'0' b && leb b b'9' && leb (n * 10 + (b - b'0')) max_uint32) [
  | true ↦ parse_digits (n * 10 + (b - b'0')) s
  | false ↦ none
]

unfoldable pub parse_uint : Bytes → Option ℕ
parse_uint [] = none
parse_uint (b ∷ s) = parse_digits 0 (b ∷ s)

-- The body of the loop behind the read of a line: the pairs of the line, none for an empty one.
unfoldable pub parse_line : ℕ → Bytes → Result LoadError Pairs
parse_line line_no [] = ok []
parse_line line_no (b ∷ s) = elim (index_byte (b ∷ s) b' ') [
  | none ↦ err (invalid_vocab line_no)
  | some sp ↦
      if sp == 0 then err (invalid_vocab line_no) else (elim (decode_string (take sp (b ∷ s))) [
        | none ↦ err (bad_base64 line_no)
        | some tok ↦ elim (parse_uint (drop (sp + 1) (b ∷ s))) [
          | none ↦ err (bad_rank line_no)
          | some rank ↦ ok ((tok, rank) ∷ [])
        ]
      ])
]

-- The loop over the text that is left, with its fuel, `lineNo` and `pairs`. `none` of the search is
-- the end of the file: the rest is the last line, and if it is empty there is none.
unfoldable pub load_loop : ℕ → Bytes → ℕ → Pairs → Result LoadError Pairs
load_loop zero text line_no pairs = ok pairs
load_loop (suc fuel) text line_no pairs = elim (index_byte text b'\n') [
  | none ↦ if is_empty text then ok pairs else (elim (parse_line (suc line_no) (trim_line text)) [
    | err e ↦ err e
    | ok more ↦ ok (pairs ++ more)
  ])
  | some i ↦ elim (parse_line (suc line_no) (trim_line (take (suc i) text))) [
    | err e ↦ err e
    | ok more ↦ load_loop fuel (drop (suc i) text) (suc line_no) (pairs ++ more)
  ]
]

-- The pairs of a file with this text, at most a round for each byte and one more.
unfoldable pub load_pairs : Bytes → Result LoadError Pairs
load_pairs text = load_loop (suc (length text)) text 0 []

unfoldable pub ends_in_slash : Bytes → Bool
ends_in_slash [] = false
ends_in_slash (b ∷ []) = b == b'/'
ends_in_slash (b ∷ c ∷ s) = ends_in_slash (c ∷ s)

-- `baseURL` with the value of the environment variable.
unfoldable pub base_url : Bytes → Bytes
base_url base =
    if is_empty base
    then codes "https://openaipublic.blob.core.windows.net/encodings/"
    else if ends_in_slash base
    then base
    else base ++ codes "/"
