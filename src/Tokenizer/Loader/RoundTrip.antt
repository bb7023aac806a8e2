-- ===== src/Tokenizer/Loader/RoundTrip.antt =====
-- A vocabulary that is written in the format of the file is read back.
use harmony_go.Prelude.{
  take-append_length, drop-append_length, drop-add, ℕ, zero, suc, ◌+◌, ◌*◌, ◌-◌, ◌/◌, ◌%◌, ◌≤◌, ◌<◌,
  ◌≡◌, refl, sym, ap, ◌∙◌, true, false, ◌&&◌, ◌||◌, List, [], ◌∷◌, ◌++◌, none, some, Bytes, leb,
  ltb, ◌==◌, if◌then◌else◌, arith, All, All-append, inl, inr, Bool-cases, append-nil, append_assoc,
  ok, length, take, drop,
}
use harmony_go.Text.{index_byte}
use harmony_go.Text.Lines.{split_lines, extend}
use harmony_go.Tokenizer.Segmenter.Contraction.{IsBytes}
use harmony_go.Tokenizer.Store.{Pairs}
use harmony_go.Tokenizer.Literals.{digits, decimal}
use harmony_go.Tokenizer.Loader.{
  trim_line, max_uint32, parse_digits, parse_uint, parse_line, load_pairs,
}
use harmony_go.Tokenizer.Loader.Base64.{decode_string}
use harmony_go.Tokenizer.Loader.Base64.Encode.{
  encode_string, encode_string-IsVisible, IsVisible, decode_string-encode_string,
}
use harmony_go.Tokenizer.Loader.Lines.{parse_lines, load_pairs-parse_lines, parse_lines_ok, behind}

abbrev power_of_ten : ℕ → ℕ
power_of_ten zero = 1
power_of_ten (suc n) = 10 * power_of_ten n

parse_digits_next :
    (n d : ℕ) (s : Bytes)
    → d < 10
    → n * 10 + d ≤ max_uint32
    → parse_digits n ((b'0' + d) ∷ s) ≡ parse_digits (n * 10 + d) s
parse_digits_next n d s lt le =
    let value : n * 10 + ((b'0' + d) - b'0') ≡ n * 10 + d = omega arith in
    let fits : (leb b'0' (b'0' + d)
          && leb (b'0' + d) b'9'
          && leb (n * 10 + ((b'0' + d) - b'0')) max_uint32)
        ≡ true =
      ground arith in
    unfold parse_digits in rw (fits, parse_digits) (ap (λ m. parse_digits m s) value)

-- The digits of a number are read as the number.
parse_digits-digits :
    (fuel n : ℕ) (s : Bytes)
    → n < power_of_ten fuel
    → n ≤ max_uint32
    → parse_digits 0 (digits fuel n ++ s) ≡ parse_digits n s
parse_digits-digits zero n s lt le =
    let nothing : n ≡ 0 = omega arith in rw nothing (unfold digits in refl)
parse_digits-digits (suc fuel) n s lt le = elim (Bool-cases (ltb n 10)) [
  | inl e ↦
      let here : digits (suc fuel) n ≡ (b'0' + n) ∷ [] = unfold digits in rw (e, digits) in
      let value : 0 * 10 + n ≡ n = omega arith in
      rw here
        (parse_digits_next 0 n s (ground arith) (omega arith) ∙ ap (λ m. parse_digits m s) value)
  | inr e ↦
      let here : digits (suc fuel) n ≡ digits fuel (n / 10) ++ (b'0' + n % 10) ∷ [] =
        unfold digits in rw (e, digits) in
      let value : n / 10 * 10 + n % 10 ≡ n = omega arith in
      let ih =
        parse_digits-digits fuel (n / 10) ((b'0' + n % 10) ∷ s) (omega arith) (omega arith) in
      rw (here, append_assoc (digits fuel (n / 10)) ((b'0' + n % 10) ∷ []) s)
        (ih
          ∙ parse_digits_next (n / 10) (n % 10) s (omega arith) (omega arith)
          ∙ ap (λ m. parse_digits m s) value)
]

digits_filled : (fuel n : ℕ) → (b : ℕ) × (s : Bytes) × (digits (suc fuel) n ≡ b ∷ s)
digits_filled zero n = elim (Bool-cases (ltb n 10)) [
  | inl e ↦ (b'0' + n, [], unfold digits in rw (e, digits))
  | inr e ↦ (b'0' + n % 10, [], unfold digits in rw (e, digits))
]
digits_filled (suc fuel) n = elim (Bool-cases (ltb n 10)) [
  | inl e ↦ (b'0' + n, [], unfold digits in rw (e, digits))
  | inr e ↦
      let (b, s, h) = digits_filled fuel (n / 10) in
      let here : digits (suc (suc fuel)) n ≡ digits (suc fuel) (n / 10) ++ (b'0' + n % 10) ∷ [] =
        unfold digits in rw (e, digits) in
      (b, s ++ (b'0' + n % 10) ∷ [], here ∙ ap (λ t. t ++ (b'0' + n % 10) ∷ []) h)
]

digits-IsVisible : (fuel n : ℕ) → All IsVisible (digits fuel n)
digits-IsVisible zero n = unfold digits in tt
digits-IsVisible (suc fuel) n = elim (Bool-cases (ltb n 10)) [
  | inl e ↦
      let here : digits (suc fuel) n ≡ (b'0' + n) ∷ [] = unfold digits in rw (e, digits) in
      rw here (omega arith, tt)
  | inr e ↦
      let here : digits (suc fuel) n ≡ digits fuel (n / 10) ++ (b'0' + n % 10) ∷ [] =
        unfold digits in rw (e, digits) in
      rw here (
        All-append IsVisible (digits fuel (n / 10)) ((b'0' + n % 10) ∷ [])
          (digits-IsVisible fuel (n / 10)) (omega arith, tt))
]

parse_uint-decimal : (n : ℕ) → n ≤ max_uint32 → parse_uint (decimal n) ≡ some n
parse_uint-decimal n le =
    let (b, s, filled) = digits_filled 9 n in
    let read : parse_digits 0 (digits 10 n) ≡ some n =
      ap (parse_digits 0) (sym (append-nil (digits 10 n)))
      ∙ parse_digits-digits 10 n [] (omega arith) le
      ∙ (let end : parse_digits n [] ≡ some n = unfold parse_digits in refl in end) in
    let read' : parse_digits 0 (b ∷ s) ≡ some n = ap (parse_digits 0) (sym filled) ∙ read in
    let here : decimal n ≡ b ∷ s = unfold decimal in filled in rw here (unfold parse_uint in read')

-- A line of the file.
unfoldable pub print_pair : Bytes × ℕ → Bytes
print_pair (tok, rank) = encode_string tok ++ b' ' ∷ decimal rank

unfoldable pub print_pairs : Pairs → Bytes
print_pairs [] = []
print_pairs (p ∷ ps) = print_pair p ++ b'\n' ∷ print_pairs ps

-- No line end.
abbrev IsInLine : ℕ → Type 0
IsInLine b = 32 ≤ b

visible-InLine : (s : Bytes) → All IsVisible s → All IsInLine s
visible-InLine [] h = tt
visible-InLine (b ∷ s) (le, h) = (omega arith, visible-InLine s h)

print_pair-InLine : (p : Bytes × ℕ) → All IsInLine (print_pair p)
print_pair-InLine (tok, rank) =
    let front = visible-InLine (encode_string tok) (encode_string-IsVisible tok) in
    let number = visible-InLine (digits 10 rank) (digits-IsVisible 10 rank) in
    unfold print_pair decimal in
    All-append IsInLine (encode_string tok) (b' ' ∷ digits 10 rank) front (omega arith, number)

split_lines_other :
    (b : ℕ) (s line : Bytes) (lines : List Bytes)
    → (b == b'\n') ≡ false
    → split_lines s ≡ line ∷ lines
    → split_lines (b ∷ s) ≡ (b ∷ line) ∷ lines
split_lines_other b s line lines e e' = unfold split_lines extend in rw (e, e')

trim_line_kept :
    (b : ℕ) (s : Bytes)
    → (b == b'\r' || b == b'\n') ≡ false
    → trim_line s ≡ s
    → trim_line (b ∷ s) ≡ b ∷ s
trim_line_kept b [] e e' = unfold trim_line in rw (e, trim_line)
trim_line_kept b (c ∷ s) e e' =
    let again : trim_line (b ∷ c ∷ s) ≡ elim (trim_line (c ∷ s)) [
      | [] ↦ if b == b'\r' || b == b'\n' then [] else b ∷ []
      | d ∷ t ↦ b ∷ d ∷ t
    ] =
      unfold trim_line in refl in
    again ∙ (rw e')

index_byte_other :
    (b : ℕ) (s : Bytes) (c i : ℕ)
    → (b == c) ≡ false
    → index_byte s c ≡ some i
    → index_byte (b ∷ s) c ≡ some (suc i)
index_byte_other b s c i e e' = unfold index_byte in rw (e, e', index_byte)

split_lines-line :
    (line rest : Bytes)
    → All IsInLine line
    → split_lines (line ++ b'\n' ∷ rest) ≡ line ∷ split_lines rest
split_lines-line [] rest h = unfold split_lines in refl
split_lines-line (b ∷ line) rest (le, h) =
    split_lines_other b (line ++ b'\n' ∷ rest) line (split_lines rest) (ground arith)
      (split_lines-line line rest h)

trim_line_whole : (line : Bytes) → All IsInLine line → trim_line line ≡ line
trim_line_whole [] h = unfold trim_line in refl
trim_line_whole (b ∷ line) (le, h) = trim_line_kept b line (ground arith) (trim_line_whole line h)

index_byte_space :
    (s t : Bytes) → All IsVisible s → index_byte (s ++ b' ' ∷ t) b' ' ≡ some (length s)
index_byte_space [] t h = unfold index_byte in refl
index_byte_space (b ∷ s) t (le, h) =
    index_byte_other b (s ++ b' ' ∷ t) b' ' (length s) (ground arith) (index_byte_space s t h)

parse_line_pair :
    (n k : ℕ) (line tok : Bytes) (rank : ℕ)
    → index_byte line b' ' ≡ some (suc k)
    → decode_string (take (suc k) line) ≡ some tok
    → parse_uint (drop (suc k + 1) line) ≡ some rank
    → parse_line n line ≡ ok ((tok, rank) ∷ [])
parse_line_pair n k [] tok rank e d u =
    let start : index_byte [] b' ' ≡ none = unfold index_byte in refl in
    let clash : none ≡ some (suc k) = sym start ∙ e in absurd (ground arith)
parse_line_pair n k (b ∷ s) tok rank e d u =
    let inside : (suc k == 0) ≡ false = ground arith in
    unfold parse_line in rw (e, inside, d, u, parse_line)

-- The text has a byte, and so has its encoding.
abbrev pub IsFilled : Bytes → Type 0
IsFilled s = 0 < length s

encode_string-IsFilled : (s : Bytes) → IsFilled s → IsFilled (encode_string s)
unfolding encode_string
encode_string-IsFilled [] h = h
encode_string-IsFilled (x ∷ []) h = omega arith
encode_string-IsFilled (x ∷ y ∷ []) h = omega arith
encode_string-IsFilled (x ∷ y ∷ z ∷ s) h = omega arith

behind_separator : (s t : Bytes) (b : ℕ) → drop (length s + 1) (s ++ b ∷ t) ≡ t
behind_separator s t b =
    drop-add (length s) 1 (s ++ b ∷ t) ∙ ap (drop 1) (drop-append_length s (b ∷ t))

-- What the file can hold: a text of bytes that is not empty, and a rank of 32 bits.
abbrev pub IsEntry : Bytes × ℕ → Type 0
IsEntry p = IsBytes p.0 × IsFilled p.0 × (p.1 ≤ max_uint32)

parse_line-print_pair :
    (n : ℕ) (p : Bytes × ℕ) → IsEntry p → parse_line n (print_pair p) ≡ ok (p ∷ [])
parse_line-print_pair n (tok, rank) (bytes, filled, le) =
    let text = encode_string tok in
    let k = length text - 1 in
    let size : length text ≡ suc k = let pos = encode_string-IsFilled tok filled in omega arith in
    let space = index_byte_space text (decimal rank) (encode_string-IsVisible tok) in
    let front : take (suc k) (text ++ b' ' ∷ decimal rank) ≡ text =
      ap (λ m. take m (text ++ b' ' ∷ decimal rank)) (sym size)
      ∙ take-append_length text (b' ' ∷ decimal rank) in
    let number : drop (suc k + 1) (text ++ b' ' ∷ decimal rank) ≡ decimal rank =
      ap (λ m. drop (m + 1) (text ++ b' ' ∷ decimal rank)) (sym size)
      ∙ behind_separator text (decimal rank) b' ' in
    unfold print_pair in
    parse_line_pair n k (text ++ b' ' ∷ decimal rank) tok rank (space ∙ ap some size)
      (ap decode_string front ∙ decode_string-encode_string tok bytes)
      (ap parse_uint number ∙ parse_uint-decimal rank le)

split_lines-print_pairs :
    (p : Bytes × ℕ) (ps : Pairs)
    → split_lines (print_pairs (p ∷ ps)) ≡ print_pair p ∷ split_lines (print_pairs ps)
split_lines-print_pairs p ps =
    unfold print_pairs in split_lines-line (print_pair p) (print_pairs ps) (print_pair-InLine p)

parse_lines-print_pairs :
    (n : ℕ) (ps : Pairs) → All IsEntry ps → parse_lines n (split_lines (print_pairs ps)) ≡ ok ps
parse_lines-print_pairs n [] h =
    unfold print_pairs split_lines parse_lines trim_line parse_line in refl
parse_lines-print_pairs n (p ∷ ps) (is, h) =
    let read : parse_line n (trim_line (print_pair p)) ≡ ok (p ∷ []) =
      ap (parse_line n) (trim_line_whole (print_pair p) (print_pair-InLine p))
      ∙ parse_line-print_pair n p is in
    ap (parse_lines n) (split_lines-print_pairs p ps)
    ∙ parse_lines_ok n (print_pair p) (split_lines (print_pairs ps)) (p ∷ []) read
    ∙ ap (behind (p ∷ [])) (parse_lines-print_pairs (suc n) ps h)

-- Pairs of texts that are not empty and ranks of 32 bits, written as the lines of a vocabulary
-- file, the text in base64 with padding and the rank in decimal, are the pairs that are read.
pub load_pairs-print_pairs : (ps : Pairs) → All IsEntry ps → load_pairs (print_pairs ps) ≡ ok ps
load_pairs-print_pairs ps h =
    load_pairs-parse_lines (print_pairs ps) ∙ parse_lines-print_pairs 1 ps h
