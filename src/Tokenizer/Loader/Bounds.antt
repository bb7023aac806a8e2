-- ===== src/Tokenizer/Loader/Bounds.antt =====
-- What the vocabulary file can give: bytes and ranks of 32 bits.
use harmony_go.Prelude.{
  ℕ, suc, ◌+◌, ◌*◌, ◌-◌, ◌≤◌, ◌<◌, ◌≡◌, refl, sym, ◌∙◌, ◌&&◌, List, [], ◌∷◌, ◌++◌, Option, none,
  some, Bytes, leb, ◌==◌, arith, All, All-append, inl, inr, Bool-cases, Option-cases, Result-cases,
  Result, ok, err, take, drop,
}
use harmony_go.Text.{index_byte}
use harmony_go.Text.Lines.{split_lines}
use harmony_go.Tokenizer.Segmenter.Contraction.{IsBytes}
use harmony_go.Tokenizer.Store.{Pairs}
use harmony_go.Tokenizer.Loader.{
  LoadError, trim_line, max_uint32, parse_digits, parse_uint, parse_line, load_pairs,
}
use harmony_go.Tokenizer.Loader.Base64.{
  decode_string, decode_quanta, last_quantum, full_quantum, sextet, quantum, without_line_ends,
}
use harmony_go.Tokenizer.Loader.Lines.{
  parse_lines, parse_lines_ok, parse_lines_err, load_pairs-parse_lines, behind,
}

sextet_below : (c n : ℕ) → sextet c ≡ some n → n < 64
unfolding sextet
sextet_below c n e = ground arith

parse_digits_bound :
    (n m : ℕ) (s : Bytes) → n ≤ max_uint32 → parse_digits n s ≡ some m → m ≤ max_uint32
parse_digits_bound n m [] le e =
    let start : parse_digits n [] ≡ some n = unfold parse_digits in refl in
    let same : some n ≡ some m = sym start ∙ e in ground arith
parse_digits_bound n m (b ∷ s) le e =
    elim (Bool-cases (leb b'0' b && leb b b'9' && leb (n * 10 + (b - b'0')) max_uint32)) [
      | inl t ↦
          let start : parse_digits n (b ∷ s) ≡ parse_digits (n * 10 + (b - b'0')) s =
            unfold parse_digits in rw (t, parse_digits) in
          parse_digits_bound (n * 10 + (b - b'0')) m s (ground arith) (sym start ∙ e)
      | inr t ↦
          let start : parse_digits n (b ∷ s) ≡ none = unfold parse_digits in rw (t, parse_digits) in
          let clash : none ≡ some m = sym start ∙ e in absurd (ground arith)
    ]

parse_uint_bound : (s : Bytes) (m : ℕ) → parse_uint s ≡ some m → m ≤ max_uint32
unfolding parse_uint
parse_uint_bound [] m e = absurd (ground arith)
parse_uint_bound (b ∷ s) m e = parse_digits_bound 0 m (b ∷ s) (omega arith) e

-- The result, if there is one, satisfies `P`.
abbrev Gives : (Bytes → Type 0) → Option Bytes → Type 0
Gives P none = Unit
Gives P (some s) = P s

quantum-IsBytes : (a b c d : ℕ) → a < 64 → b < 64 → c < 64 → d < 64 → IsBytes (quantum a b c d)
unfolding quantum
quantum-IsBytes a b c d la lb lc ld = omega arith

full_quantum-IsBytes : (a b c d : ℕ) → Gives IsBytes (full_quantum a b c d)
full_quantum-IsBytes a b c d = elim (Option-cases (sextet a)) [
  | inl e ↦ unfold full_quantum in rw (e, Gives) tt
  | inr (x, ex) ↦ elim (Option-cases (sextet b)) [
    | inl e ↦ unfold full_quantum in rw (ex, e, Gives) tt
    | inr (y, ey) ↦ elim (Option-cases (sextet c)) [
      | inl e ↦ unfold full_quantum in rw (ex, ey, e, Gives) tt
      | inr (z, ez) ↦ elim (Option-cases (sextet d)) [
        | inl e ↦ unfold full_quantum in rw (ex, ey, ez, e, Gives) tt
        | inr (w, ew) ↦
            unfold full_quantum in
            rw (ex, ey, ez, ew, Gives)
              (quantum-IsBytes x y z w (sextet_below a x ex) (sextet_below b y ey)
                (sextet_below c z ez) (sextet_below d w ew))
      ]
    ]
  ]
]

last_quantum-IsBytes : (a b c d : ℕ) → Gives IsBytes (last_quantum a b c d)
last_quantum-IsBytes a b c d = elim (Option-cases (sextet a)) [
  | inl e ↦ unfold last_quantum in rw (e, Gives) tt
  | inr (x, ex) ↦ elim (Option-cases (sextet b)) [
    | inl e ↦ unfold last_quantum in rw (ex, e, Gives) tt
    | inr (y, ey) ↦
        let lx = sextet_below a x ex in
        let ly = sextet_below b y ey in
        elim (Bool-cases (c == b'=' && d == b'=')) [
          | inl p ↦ unfold last_quantum in rw (ex, ey, p, Gives) (omega arith)
          | inr p ↦ elim (Option-cases (sextet c)) [
            | inl e ↦ unfold last_quantum in rw (ex, ey, p, e, Gives) tt
            | inr (z, ez) ↦
                let lz = sextet_below c z ez in
                elim (Bool-cases (d == b'=')) [
                  | inl q ↦ unfold last_quantum in rw (ex, ey, p, ez, q, Gives) (omega arith)
                  | inr q ↦ elim (Option-cases (sextet d)) [
                    | inl e ↦ unfold last_quantum in rw (ex, ey, p, ez, q, e, Gives) tt
                    | inr (w, ew) ↦
                        unfold last_quantum in
                        rw (ex, ey, p, ez, q, ew, Gives)
                          (quantum-IsBytes x y z w lx ly lz (sextet_below d w ew))
                  ]
                ]
          ]
        ]
  ]
]

joined :
    (a b c d e : ℕ) (s : Bytes)
    → Gives IsBytes (full_quantum a b c d)
    → Gives IsBytes (decode_quanta (e ∷ s))
    → Gives IsBytes (decode_quanta (a ∷ b ∷ c ∷ d ∷ e ∷ s))
joined a b c d e s front back = elim (Option-cases (full_quantum a b c d)) [
  | inl gone ↦
      let here : decode_quanta (a ∷ b ∷ c ∷ d ∷ e ∷ s) ≡ none =
        unfold decode_quanta in rw (gone, decode_quanta) in
      rw (here, Gives) tt
  | inr (f, found) ↦ elim (Option-cases (decode_quanta (e ∷ s))) [
    | inl gone ↦
        let here : decode_quanta (a ∷ b ∷ c ∷ d ∷ e ∷ s) ≡ none =
          unfold decode_quanta in rw (found, gone, decode_quanta) in
        rw (here, Gives) tt
    | inr (g, found') ↦
        let here : decode_quanta (a ∷ b ∷ c ∷ d ∷ e ∷ s) ≡ some (f ++ g) =
          unfold decode_quanta in rw (found, found', decode_quanta) in
        let front' : IsBytes f = rw found at front in
        let back' : IsBytes g = rw found' at back in
        rw (here, Gives) (All-append _ f g front' back')
  ]
]

decode_quanta-IsBytes : (s : Bytes) → Gives IsBytes (decode_quanta s)
decode_quanta-IsBytes [] = unfold decode_quanta in tt
decode_quanta-IsBytes (a ∷ []) = unfold decode_quanta in tt
decode_quanta-IsBytes (a ∷ b ∷ []) = unfold decode_quanta in tt
decode_quanta-IsBytes (a ∷ b ∷ c ∷ []) = unfold decode_quanta in tt
decode_quanta-IsBytes (a ∷ b ∷ c ∷ d ∷ []) = unfold decode_quanta in last_quantum-IsBytes a b c d
decode_quanta-IsBytes (a ∷ b ∷ c ∷ d ∷ e ∷ s) =
    joined a b c d e s (full_quantum-IsBytes a b c d) (decode_quanta-IsBytes (e ∷ s))

decode_string-IsBytes : (s t : Bytes) → decode_string s ≡ some t → IsBytes t
decode_string-IsBytes s t e =
    let all = decode_quanta-IsBytes (without_line_ends s) in
    let e' : decode_quanta (without_line_ends s) ≡ some t = unfold decode_string in e in
    rw e' at all

-- A pair of a text of bytes and a rank of 32 bits.
abbrev pub IsBounded : Bytes × ℕ → Type 0
IsBounded p = IsBytes p.0 × (p.1 ≤ max_uint32)

abbrev AllBounded : Result LoadError Pairs → Type 0
AllBounded (ok ps) = All IsBounded ps
AllBounded (err e) = Unit

parse_line-Bounded : (n : ℕ) (line : Bytes) → AllBounded (parse_line n line)
parse_line-Bounded n [] = unfold parse_line in tt
parse_line-Bounded n (b ∷ s) = elim (Option-cases (index_byte (b ∷ s) b' ')) [
  | inl e ↦ unfold parse_line in rw (e, AllBounded) tt
  | inr (sp, e) ↦ elim (Bool-cases (sp == 0)) [
    | inl z ↦ unfold parse_line in rw (e, z, AllBounded) tt
    | inr z ↦ elim (Option-cases (decode_string (take sp (b ∷ s)))) [
      | inl d ↦ unfold parse_line in rw (e, z, d, AllBounded) tt
      | inr (tok, d) ↦ elim (Option-cases (parse_uint (drop (sp + 1) (b ∷ s)))) [
        | inl u ↦ unfold parse_line in rw (e, z, d, u, AllBounded) tt
        | inr (rank, u) ↦
            unfold parse_line in
            rw (e, z, d, u, AllBounded)
              (
                (
                  decode_string-IsBytes (take sp (b ∷ s)) tok d,
                  parse_uint_bound (drop (sp + 1) (b ∷ s)) rank u,
                ),
                tt,
              )
      ]
    ]
  ]
]

behind-Bounded :
    (more : Pairs) (r : Result LoadError Pairs)
    → All IsBounded more
    → AllBounded r
    → AllBounded (behind more r)
behind-Bounded more (ok ps) h h' = All-append IsBounded more ps h h'
behind-Bounded more (err e) h h' = tt

parse_lines-Bounded : (n : ℕ) (lines : List Bytes) → AllBounded (parse_lines n lines)
parse_lines-Bounded n [] = unfold parse_lines in tt
parse_lines-Bounded n (line ∷ lines) =
    let ih = parse_lines-Bounded (suc n) lines in
    let here = parse_line-Bounded n (trim_line line) in
    elim (Result-cases (parse_line n (trim_line line))) [
      | inl (more, e) ↦
          let more_bounded : All IsBounded more = rw e at here in
          rw (parse_lines_ok n line lines more e) (behind-Bounded more _ more_bounded ih)
      | inr (error, e) ↦ rw (parse_lines_err n line lines error e) tt
    ]

-- Whatever the vocabulary file holds: the pairs that are read from it without an error are texts of
-- bytes with ranks of 32 bits, so that the conversion of a rank to uint32 loses nothing.
pub load_pairs-Bounded : (text : Bytes) (ps : Pairs) → load_pairs text ≡ ok ps → All IsBounded ps
load_pairs-Bounded text ps e =
    let all = parse_lines-Bounded 1 (split_lines text) in
    let e' : parse_lines 1 (split_lines text) ≡ ok ps = sym (load_pairs-parse_lines text) ∙ e in
    rw e' at all
