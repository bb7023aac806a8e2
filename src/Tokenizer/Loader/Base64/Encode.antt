-- ===== src/Tokenizer/Loader/Base64/Encode.antt =====
-- The standard encoding with padding, which the vocabulary file is written in, and its decoder.
use harmony_go.Prelude.{
  ℕ, ◌+◌, ◌*◌, ◌-◌, ◌/◌, ◌%◌, ◌≤◌, ◌<◌, ◌≡◌, refl, sym, ap, ◌∙◌, false, ◌||◌, [], ◌∷◌, ◌++◌, some,
  Bytes, ltb, ◌==◌, if◌then◌else◌, arith, All, append-nil,
}
use harmony_go.Tokenizer.Segmenter.Contraction.{IsBytes}
use harmony_go.Tokenizer.Loader.Base64.{
  sextet, without_line_ends, quantum, last_quantum, full_quantum, decode_quanta, decode_string,
}

-- The letter of a value below 64.
unfoldable pub letter : ℕ → ℕ
letter n =
    if ltb n 26
    then b'A' + n
    else if ltb n 52
    then b'a' + (n - 26)
    else if ltb n 62
    then b'0' + (n - 52)
    else if n == 62
    then b'+'
    else b'/'

unfoldable pub encode_string : Bytes → Bytes
encode_string [] = []
encode_string (x ∷ []) = letter (x / 4) ∷ letter (x % 4 * 16) ∷ b'=' ∷ b'=' ∷ []
encode_string (x ∷ y ∷ []) =
    letter (x / 4) ∷ letter (x % 4 * 16 + y / 16) ∷ letter (y % 16 * 4) ∷ b'=' ∷ []
encode_string (x ∷ y ∷ z ∷ s) =
    letter (x / 4)
    ∷ letter (x % 4 * 16 + y / 16)
    ∷ letter (y % 16 * 4 + z / 64)
    ∷ letter (z % 64)
    ∷ encode_string s

sextet-letter : (n : ℕ) → n < 64 → sextet (letter n) ≡ some n
unfolding sextet letter
sextet-letter n lt = ground arith

letter_above : (n : ℕ) → 43 ≤ letter n
unfolding letter
letter_above n = ground arith

letter_no_padding : (n : ℕ) → n < 64 → (letter n == b'=') ≡ false
unfolding letter
letter_no_padding n lt = ground arith

-- Above the space and the line ends.
abbrev pub IsVisible : ℕ → Type 0
IsVisible b = 33 ≤ b

pub encode_string-IsVisible : (s : Bytes) → All IsVisible (encode_string s)
unfolding encode_string
encode_string-IsVisible [] = tt
encode_string-IsVisible (x ∷ []) =
    let a = letter_above (x / 4) in let b = letter_above (x % 4 * 16) in omega arith
encode_string-IsVisible (x ∷ y ∷ []) =
    let a = letter_above (x / 4) in
    let b = letter_above (x % 4 * 16 + y / 16) in let c = letter_above (y % 16 * 4) in omega arith
encode_string-IsVisible (x ∷ y ∷ z ∷ s) =
    let a = letter_above (x / 4) in
    let b = letter_above (x % 4 * 16 + y / 16) in
    let c = letter_above (y % 16 * 4 + z / 64) in
    let d = letter_above (z % 64) in
    (omega arith, (omega arith, (omega arith, (omega arith, encode_string-IsVisible s))))

without_line_ends_visible : (s : Bytes) → All IsVisible s → without_line_ends s ≡ s
unfolding without_line_ends
without_line_ends_visible [] h = refl
without_line_ends_visible (b ∷ s) (le, h) =
    let e : (b == b'\r' || b == b'\n') ≡ false = ground arith in
    rw (e, without_line_ends_visible s h)

last_quantum-letters :
    (a b c d : ℕ)
    → a < 64
    → b < 64
    → c < 64
    → d < 64
    → last_quantum (letter a) (letter b) (letter c) (letter d) ≡ some (quantum a b c d)
last_quantum-letters a b c d la lb lc ld =
    unfold last_quantum in
    rw (
      sextet-letter a la,
      sextet-letter b lb,
      sextet-letter c lc,
      sextet-letter d ld,
      letter_no_padding c lc,
      letter_no_padding d ld,
      last_quantum,
    )

full_quantum-letters :
    (a b c d : ℕ)
    → a < 64
    → b < 64
    → c < 64
    → d < 64
    → full_quantum (letter a) (letter b) (letter c) (letter d) ≡ some (quantum a b c d)
full_quantum-letters a b c d la lb lc ld =
    unfold full_quantum in
    rw
      (sextet-letter a la, sextet-letter b lb, sextet-letter c lc, sextet-letter d ld, full_quantum)

decode_quanta_step :
    (a b c d : ℕ) (t front behind : Bytes)
    → last_quantum a b c d ≡ some front
    → full_quantum a b c d ≡ some front
    → decode_quanta t ≡ some behind
    → decode_quanta (a ∷ b ∷ c ∷ d ∷ t) ≡ some (front ++ behind)
decode_quanta_step a b c d [] front behind l f e =
    let start : decode_quanta [] ≡ some [] = unfold decode_quanta in refl in
    let e' : some [] ≡ some behind = sym start ∙ e in
    let nothing : behind ≡ [] = ground arith in
    rw nothing (unfold decode_quanta in l ∙ ap some (sym (append-nil front)))
decode_quanta_step a b c d (x ∷ t) front behind l f e =
    unfold decode_quanta in rw (f, e, decode_quanta)

quantum_bytes :
    (x y z : ℕ)
    → x < 256
    → y < 256
    → z < 256
    → quantum (x / 4) (x % 4 * 16 + y / 16) (y % 16 * 4 + z / 64) (z % 64) ≡ x ∷ y ∷ z ∷ []
unfolding quantum
quantum_bytes x y z hx hy hz =
    let e : x / 4 * 4 + (x % 4 * 16 + y / 16) / 16 ≡ x = omega arith in
    let f : (x % 4 * 16 + y / 16) % 16 * 16 + (y % 16 * 4 + z / 64) / 4 ≡ y = omega arith in
    let g : (y % 16 * 4 + z / 64) % 4 * 64 + z % 64 ≡ z = omega arith in rw (e, f, g)

last_quantum_one :
    (a b : ℕ)
    → a < 64
    → b < 64
    → last_quantum (letter a) (letter b) b'=' b'=' ≡ some ((a * 4 + b / 16) ∷ [])
last_quantum_one a b la lb =
    unfold last_quantum in rw (sextet-letter a la, sextet-letter b lb, last_quantum)

last_quantum_two :
    (a b c : ℕ)
    → a < 64
    → b < 64
    → c < 64
    → last_quantum (letter a) (letter b) (letter c) b'='
      ≡ some ((a * 4 + b / 16) ∷ (b % 16 * 16 + c / 4) ∷ [])
last_quantum_two a b c la lb lc =
    unfold last_quantum in
    rw (
      sextet-letter a la,
      sextet-letter b lb,
      sextet-letter c lc,
      letter_no_padding c lc,
      last_quantum,
    )

encode_string_step :
    (x y z : ℕ) (s : Bytes)
    → x < 256
    → y < 256
    → z < 256
    → decode_quanta (encode_string s) ≡ some s
    → decode_quanta (encode_string (x ∷ y ∷ z ∷ s)) ≡ some (x ∷ y ∷ z ∷ s)
encode_string_step x y z s hx hy hz ih =
    let a = x / 4 in
    let b = x % 4 * 16 + y / 16 in
    let c = y % 16 * 4 + z / 64 in
    let d = z % 64 in
    let la : a < 64 = omega arith in
    let lb : b < 64 = omega arith in
    let lc : c < 64 = omega arith in
    let ld : d < 64 = omega arith in
    let whole =
      decode_quanta_step (letter a) (letter b) (letter c) (letter d) (encode_string s)
        (quantum a b c d) s (last_quantum-letters a b c d la lb lc ld)
        (full_quantum-letters a b c d la lb lc ld) ih in
    let same = quantum_bytes x y z hx hy hz in
    unfold encode_string in whole ∙ ap (λ t. some (t ++ s)) same

-- What the encoder writes, the decoder reads.
decode_quanta-encode_string : (s : Bytes) → IsBytes s → decode_quanta (encode_string s) ≡ some s
decode_quanta-encode_string [] h = unfold encode_string decode_quanta in refl
decode_quanta-encode_string (x ∷ []) (hx, _) =
    let e : x / 4 * 4 + x % 4 * 16 / 16 ≡ x = omega arith in
    let whole = last_quantum_one (x / 4) (x % 4 * 16) (omega arith) (omega arith) in
    unfold encode_string decode_quanta in whole ∙ ap (λ t. some (t ∷ [])) e
decode_quanta-encode_string (x ∷ y ∷ []) (hx, (hy, _)) =
    let e : x / 4 * 4 + (x % 4 * 16 + y / 16) / 16 ≡ x = omega arith in
    let f : (x % 4 * 16 + y / 16) % 16 * 16 + y % 16 * 4 / 4 ≡ y = omega arith in
    let whole =
      last_quantum_two (x / 4) (x % 4 * 16 + y / 16) (y % 16 * 4) (omega arith) (omega arith)
        (omega arith) in
    unfold encode_string decode_quanta in whole ∙ (λ i. some (e i ∷ f i ∷ []))
decode_quanta-encode_string (x ∷ y ∷ z ∷ s) (hx, (hy, (hz, h))) =
    encode_string_step x y z s hx hy hz (decode_quanta-encode_string s h)

-- Every text of bytes is read back from its encoding.
pub decode_string-encode_string : (s : Bytes) → IsBytes s → decode_string (encode_string s) ≡ some s
decode_string-encode_string s h =
    unfold decode_string in
    rw (without_line_ends_visible (encode_string s) (encode_string-IsVisible s))
      (decode_quanta-encode_string s h)
