-- ===== src/Tokenizer/Loader/Lines.antt =====
-- The loop over the vocabulary file reads its lines one by one, up to the first error.
use harmony_go.Prelude.{
  ℕ, zero, suc, ◌<◌, ◌≡◌, refl, sym, ap, ◌∙◌, false, List, [], ◌∷◌, ◌++◌, Option, none, some, Bytes,
  arith, inl, inr, Option-cases, Bool-cases, length, take, drop, ◌==◌, Result, ok, err,
  Result-cases, append-nil, append_assoc,
}
use harmony_go.Header.{is_empty}
use harmony_go.Text.{index_byte}
use harmony_go.Text.Search.{length-index_byte}
use harmony_go.Text.Lines.{split_lines}
use harmony_go.Text.Lines.First.{split_lines_first, length-drop_line}
use harmony_go.Tokenizer.Store.{Pairs}
use harmony_go.Tokenizer.Loader.{LoadError, trim_line, parse_line, load_loop, load_pairs}

-- The pairs of the lines, numbered from `n` on, or the error of the first line that has one.
unfoldable pub parse_lines : ℕ → List Bytes → Result LoadError Pairs
parse_lines n [] = ok []
parse_lines n (line ∷ lines) =
    let rest = parse_lines (suc n) lines in
    elim (parse_line n (trim_line line)) [
      | err e ↦ err e
      | ok more ↦ elim rest [ err e ↦ err e | ok others ↦ ok (more ++ others) ]
    ]

-- The pairs so far in front.
abbrev pub behind : Pairs → Result LoadError Pairs → Result LoadError Pairs
behind pairs r = elim r [ err e ↦ err e | ok more ↦ ok (pairs ++ more) ]

trim_line_same :
    (b : ℕ) (s t : Bytes) → trim_line s ≡ trim_line t → trim_line (b ∷ s) ≡ trim_line (b ∷ t)
unfolding trim_line
trim_line_same b s t e = rw e

-- The line end that ends a line is trimmed.
trim_line-line_end :
    (s : Bytes) (i : ℕ)
    → index_byte s b'\n' ≡ some i
    → trim_line (take (suc i) s) ≡ trim_line (take i s)
trim_line-line_end [] i e = unfold index_byte in absurd (ground arith)
trim_line-line_end (b ∷ s) i e = elim (Bool-cases (b == b'\n')) [
  | inl here ↦
      let start : index_byte (b ∷ s) b'\n' ≡ some 0 = unfold index_byte in rw (here, index_byte) in
      let e' : ◌≡◌ {A = Option ℕ} (some 0) (some i) = sym start ∙ e in
      let zero_i : i ≡ 0 = ground arith in rw zero_i (unfold trim_line in ground arith)
  | inr other ↦ elim (Option-cases (index_byte s b'\n')) [
    | inl gone ↦
        let start : index_byte (b ∷ s) b'\n' ≡ none =
          unfold index_byte in rw (other, gone, index_byte) in
        let clash : none ≡ some i = sym start ∙ e in absurd (ground arith)
    | inr (j, found) ↦
        let start : index_byte (b ∷ s) b'\n' ≡ some (suc j) =
          unfold index_byte in rw (other, found, index_byte) in
        let e' : some (suc j) ≡ some i = sym start ∙ e in
        let suc_i : i ≡ suc j = ground arith in
        let ih = trim_line-line_end s j found in
        rw suc_i (trim_line_same b (take (suc j) s) (take j s) ih)
  ]
]

load_loop_last :
    (fuel n : ℕ) (text : Bytes) (pairs : Pairs)
    → index_byte text b'\n' ≡ none
    → load_loop (suc fuel) text n pairs ≡ behind pairs (parse_line (suc n) (trim_line text))
load_loop_last fuel n [] pairs e =
    unfold load_loop index_byte trim_line parse_line is_empty in ap ok (sym (append-nil pairs))
load_loop_last fuel n (b ∷ s) pairs e =
    let filled : is_empty (b ∷ s) ≡ false = unfold is_empty in ground arith in
    unfold load_loop in rw (e, filled, load_loop)

load_loop_next :
    (fuel n i : ℕ) (text : Bytes) (pairs : Pairs)
    → index_byte text b'\n' ≡ some i
    → load_loop (suc fuel) text n pairs ≡ elim (parse_line (suc n) (trim_line (take i text))) [
      | err e ↦ err e
      | ok more ↦ load_loop fuel (drop (suc i) text) (suc n) (pairs ++ more)
    ]
load_loop_next fuel n i text pairs e =
    unfold load_loop in rw (e, trim_line-line_end text i e, load_loop)

pub parse_lines_ok :
    (n : ℕ) (line : Bytes) (lines : List Bytes) (more : Pairs)
    → parse_line n (trim_line line) ≡ ok more
    → parse_lines n (line ∷ lines) ≡ behind more (parse_lines (suc n) lines)
parse_lines_ok n line lines more e = unfold parse_lines in rw (e, parse_lines)

pub parse_lines_err :
    (n : ℕ) (line : Bytes) (lines : List Bytes) (error : LoadError)
    → parse_line n (trim_line line) ≡ err error
    → parse_lines n (line ∷ lines) ≡ err error
parse_lines_err n line lines error e = unfold parse_lines in rw (e, parse_lines)

parse_lines_alone :
    (n : ℕ) (line : Bytes) → parse_lines n (line ∷ []) ≡ parse_line n (trim_line line)
parse_lines_alone n line = elim (Result-cases (parse_line n (trim_line line))) [
  | inl (more, e) ↦
      let alone : behind more (parse_lines (suc n) []) ≡ ok more =
        unfold parse_lines in ap ok (append-nil more) in
      parse_lines_ok n line [] more e ∙ alone ∙ sym e
  | inr (error, e) ↦ parse_lines_err n line [] error e ∙ sym e
]

behind_nil : (r : Result LoadError Pairs) → behind [] r ≡ r
behind_nil (ok zs) = refl
behind_nil (err e) = refl

behind-behind :
    (xs ys : Pairs) (r : Result LoadError Pairs) → behind (xs ++ ys) r ≡ behind xs (behind ys r)
behind-behind xs ys (ok zs) = ap ok (append_assoc xs ys zs)
behind-behind xs ys (err e) = refl

load_loop-parse_lines :
    (fuel n : ℕ) (text : Bytes) (pairs : Pairs)
    → length text < fuel
    → load_loop fuel text n pairs ≡ behind pairs (parse_lines (suc n) (split_lines text))
load_loop-parse_lines zero n text pairs lt = absurd (omega arith)
load_loop-parse_lines (suc fuel) n text pairs lt = elim (Option-cases (index_byte text b'\n')) [
  | inl gone ↦
      let lines : split_lines text ≡ text ∷ [] = split_lines_first text ∙ (rw gone) in
      rw (load_loop_last fuel n text pairs gone, lines)
        (ap (behind pairs) (sym (parse_lines_alone (suc n) text)))
  | inr (i, found) ↦
      let lines : split_lines text ≡ take i text ∷ split_lines (drop (suc i) text) =
        split_lines_first text ∙ (rw found) in
      let shorter = length-drop_line text i (length-index_byte text b'\n' i found) in
      elim (Result-cases (parse_line (suc n) (trim_line (take i text)))) [
        | inl (more, e) ↦
            let ih =
              load_loop-parse_lines fuel (suc n) (drop (suc i) text) (pairs ++ more)
                (omega arith) in
            load_loop_next fuel n i text pairs found
            ∙ (rw e)
            ∙ ih
            ∙ behind-behind pairs more _
            ∙ sym (
                ap (behind pairs)
                  (ap (parse_lines (suc n)) lines ∙ parse_lines_ok (suc n) (take i text) _ more e))
        | inr (error, e) ↦
            load_loop_next fuel n i text pairs found
            ∙ (rw e)
            ∙ sym (
                ap (behind pairs) (
                  ap (parse_lines (suc n)) lines ∙ parse_lines_err (suc n) (take i text) _ error e))
      ]
]

-- Reading the vocabulary file is reading its lines in order, numbered from 1 and each without its
-- line ends: the pairs of all of them, or the error of the first that has one, with its number.
-- The loop reaches the end of the file.
pub load_pairs-parse_lines : (text : Bytes) → load_pairs text ≡ parse_lines 1 (split_lines text)
load_pairs-parse_lines text =
    unfold load_pairs in
    load_loop-parse_lines (suc (length text)) 0 text [] (omega arith)
    ∙ behind_nil (parse_lines 1 (split_lines text))
