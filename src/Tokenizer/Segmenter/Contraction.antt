-- ===== src/Tokenizer/Segmenter/Contraction.antt =====
-- `matchContraction` goes over whole characters: the bytes that it compares without their case bit
-- are ASCII, since no byte of a longer character differs from a letter by that bit only.
use Prim.Native.Nat.{bit_or}
use harmony_go.Prelude.{
  ℕ, zero, suc, ◌+◌, ◌≤◌, ◌<◌, ◌≡◌, refl, Bool, true, not, ◌&&◌, ◌||◌, List, [], ◌∷◌, Bytes, ltb,
  leb, ◌==◌, length, arith, All, Bool-cases, inl, inr,
}
use harmony_go.Tokenizer.Utf8.{rune_self}
use harmony_go.Tokenizer.Segmenter.{
  at, same_letters, has_case_insensitive_suffix_at, suffixes, match_suffix, match_contraction,
  take_contraction,
}
use harmony_go.Tokenizer.Segmenter.Walk.{Walk, here, step, width, width_ascii}

-- Each element is a byte.
abbrev pub IsBytes : Bytes → Type 0
IsBytes s = All (λ b. b < 256) s

at-lt : (s : Bytes) (j : ℕ) → IsBytes s → at s j < 256
at-lt [] j h = omega arith
at-lt (b ∷ s) zero (hb, hs) = hb
at-lt (b ∷ s) (suc j) (hb, hs) = at-lt s j hs

-- No byte below `n` loses its high bit when the case bit is set.
high_bit_kept : ℕ → Bool
high_bit_kept zero = true
high_bit_kept (suc n) = (ltb n 128 || leb 128 (bit_or n 0x20)) && high_bit_kept n

high_bit_kept-at :
    (n a : ℕ) → a < n → high_bit_kept n ≡ true → (ltb a 128 || leb 128 (bit_or a 0x20)) ≡ true
unfolding high_bit_kept
high_bit_kept-at zero a lt h = absurd (omega arith)
high_bit_kept-at (suc n) a lt h = ground (arith, high_bit_kept-at n a)

high_bit_kept_bytes : high_bit_kept 256 ≡ true
unfolding high_bit_kept
high_bit_kept_bytes = refl

-- The case bit leaves a byte above ASCII there.
ascii_of_letter : (a b : ℕ) → a < 256 → (bit_or a 0x20 == b) ≡ true → b < 128 → a < rune_self
ascii_of_letter a b h e lt = ground (arith, high_bit_kept-at 256 a h high_bit_kept_bytes)

step_ascii :
    (s : Bytes) (i k : ℕ) → i < length s → at s i < rune_self → Walk s k (suc i) → Walk s k i
step_ascii s i k lt h w =
    let e : i + width s i ≡ suc i = omega (arith, width_ascii s i lt h) in step i lt (rw e w)

has_suffix_cases :
    (s : Bytes) (i : ℕ) (suf : Bytes)
    → has_case_insensitive_suffix_at s i suf ≡ true
    → (i + length suf ≤ length s) × (same_letters s i suf ≡ true)
unfolding has_case_insensitive_suffix_at
has_suffix_cases s i suf h = ground arith

-- Each byte of the suffix is ASCII, also with the case bit set.
abbrev IsLetters : Bytes → Type 0
IsLetters suf = All (λ b. bit_or b 0x20 < 128) suf

module _ (s : Bytes) (bytes : IsBytes s) where
  same_letters-Walk :
      (suf : Bytes) (i : ℕ)
      → IsLetters suf
      → i + length suf ≤ length s
      → same_letters s i suf ≡ true
      → Walk s (i + length suf) i
  unfolding same_letters
  same_letters-Walk [] i h le e = let e' : i + 0 ≡ i = omega arith in rw e' here
  same_letters-Walk (b ∷ suf) i (hb, hs) le e =
      elim (Bool-cases (bit_or (at s i) 0x20 == bit_or b 0x20)) [
        | inl same ↦
            let e' : i + suc (length suf) ≡ suc i + length suf = omega arith in
            rw e' (
              step_ascii s i _ (omega arith) (ascii_of_letter (at s i) _ (at-lt s i bytes) same hb)
                (same_letters-Walk suf (suc i) hs (omega arith) (rw same at e)))
        | inr other ↦ absurd (ground arith)
      ]

  match_suffix-Walk :
      (i : ℕ) (sufs : List Bytes)
      → i < length s
      → at s i < rune_self
      → All IsLetters sufs
      → Walk s (match_suffix s i sufs) i
  unfolding match_suffix
  match_suffix-Walk i [] lt h hs = here
  match_suffix-Walk i (suf ∷ rest) lt h (hs, hr) =
      elim (Bool-cases (has_case_insensitive_suffix_at s (i + 1) suf)) [
        | inl same ↦
            let (fits, equal) = has_suffix_cases s (i + 1) suf same in
            let e : i + 1 ≡ suc i = omega arith in
            rw same (
              step_ascii s i (i + 1 + length suf) lt h
                (rw (← e) (same_letters-Walk suf (i + 1) hs fits equal)))
        | inr other ↦ rw other (match_suffix-Walk i rest lt h hr)
      ]

  match_contraction-Walk : (i : ℕ) → Walk s (match_contraction s i) i
  match_contraction-Walk i = elim (Bool-cases (leb (length s) i || not (at s i == b'\''))) [
    | inl stop ↦ unfold match_contraction in rw stop here
    | inr quote ↦
        let lt : i < length s = ground arith in
        let h : at s i < rune_self = ground arith in
        unfold match_contraction in rw quote (match_suffix-Walk i suffixes lt h (omega arith))
  ]

  pub take_contraction-Walk : (i : ℕ) → Walk s (take_contraction s i) i
  take_contraction-Walk i = elim (Bool-cases (ltb i (match_contraction s i))) [
    | inl longer ↦ unfold take_contraction in rw longer (match_contraction-Walk i)
    | inr same ↦ unfold take_contraction in rw same here
  ]
