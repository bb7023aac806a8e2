-- ===== src/Text/Search.antt =====
-- Where the searches of the strings package find something, and what trimming leaves.
use harmony_go.Prelude.{
  ℕ, zero, suc, ◌+◌, ◌-◌, ◌≤◌, ◌<◌, ◌≡◌, sym, ◌∙◌, true, false, [], ◌∷◌, Option, none, some, Bytes,
  ◌==◌, length, take, drop, arith, Bool-cases, Option-cases, inl, inr, length-drop,
}
use harmony_go.Tokenizer.Utf8.{decode_rune, is_space}
use harmony_go.Text.{has_prefix, index, index_byte, trim_left, trim_right, trim_space, space_at_end}

pub length-take : (n : ℕ) (s : Bytes) → length (take n s) ≤ length s
length-take zero s = omega arith
length-take (suc n) [] = omega arith
length-take (suc n) (b ∷ s) = omega (arith, length-take n s)

trim_left_on :
    (fuel : ℕ) (s : Bytes)
    → is_space (decode_rune s).0 ≡ true
    → trim_left (suc fuel) s ≡ trim_left fuel (drop (decode_rune s).1 s)
trim_left_on fuel s e = unfold trim_left in rw (e, trim_left)

trim_left_off :
    (fuel : ℕ) (s : Bytes) → is_space (decode_rune s).0 ≡ false → trim_left (suc fuel) s ≡ s
trim_left_off fuel s e = unfold trim_left in rw (e, trim_left)

length-trim_left : (fuel : ℕ) (s : Bytes) → length (trim_left fuel s) ≤ length s
length-trim_left zero s = unfold trim_left in omega arith
length-trim_left (suc fuel) s = elim (Bool-cases (is_space (decode_rune s).0)) [
  | inl e ↦
      let n = (decode_rune s).1 in
      rw (trim_left_on fuel s e) (omega (arith, length-trim_left fuel (drop n s), length-drop n s))
  | inr e ↦ rw (trim_left_off fuel s e) (omega arith)
]

trim_right_on :
    (fuel n : ℕ) (s : Bytes)
    → length (trim_right fuel (take n s)) ≤ length (take n s)
    → length (trim_right fuel (take n s)) ≤ length s
trim_right_on fuel n s h = omega (arith, length-take n s)

-- Each branch of a round is no longer than the text.
trim_right_step :
    (fuel : ℕ) (s : Bytes)
    → length (trim_right fuel (take (length s - 1) s)) ≤ length s
    → length (trim_right fuel (take (length s - 2) s)) ≤ length s
    → length (trim_right fuel (take (length s - 3) s)) ≤ length s
    → length (trim_right (suc fuel) s) ≤ length s
trim_right_step fuel s h1 h2 h3 = elim (Bool-cases (space_at_end s 1)) [
  | inl e ↦ unfold trim_right in rw (e, trim_right) h1
  | inr e ↦ elim (Bool-cases (space_at_end s 2)) [
    | inl e' ↦ unfold trim_right in rw (e, e', trim_right) h2
    | inr e' ↦ elim (Bool-cases (space_at_end s 3)) [
      | inl e'' ↦ unfold trim_right in rw (e, e', e'', trim_right) h3
      | inr e'' ↦ unfold trim_right in rw (e, e', e'', trim_right) (omega arith)
    ]
  ]
]

length-trim_right : (fuel : ℕ) (s : Bytes) → length (trim_right fuel s) ≤ length s
length-trim_right zero s = unfold trim_right in omega arith
length-trim_right (suc fuel) s =
    trim_right_step fuel s
      (trim_right_on fuel (length s - 1) s (length-trim_right fuel (take (length s - 1) s)))
      (trim_right_on fuel (length s - 2) s (length-trim_right fuel (take (length s - 2) s)))
      (trim_right_on fuel (length s - 3) s (length-trim_right fuel (take (length s - 3) s)))

pub length-trim_space : (s : Bytes) → length (trim_space s) ≤ length s
length-trim_space s =
    unfold trim_space in
    let left = trim_left (length s) s in
    omega (arith, length-trim_right (length left) left, length-trim_left (length s) s)

length-has_prefix : (s pat : Bytes) → has_prefix s pat ≡ true → length pat ≤ length s
unfolding has_prefix
length-has_prefix s [] h = omega arith
length-has_prefix [] (p ∷ pat) h = ground arith
length-has_prefix (b ∷ s) (p ∷ pat) h = ground (arith, length-has_prefix s pat)

index_hit : (b : ℕ) (s pat : Bytes) → has_prefix (b ∷ s) pat ≡ true → index (b ∷ s) pat ≡ some 0
index_hit b s pat e = unfold index in rw (e, index)

index_later :
    (b : ℕ) (s pat : Bytes) (i : ℕ)
    → has_prefix (b ∷ s) pat ≡ false
    → index s pat ≡ some i
    → index (b ∷ s) pat ≡ some (suc i)
index_later b s pat i e e' = unfold index in rw (e, e', index)

index_miss :
    (b : ℕ) (s pat : Bytes)
    → has_prefix (b ∷ s) pat ≡ false
    → index s pat ≡ none
    → index (b ∷ s) pat ≡ none
index_miss b s pat e e' = unfold index in rw (e, e', index)

-- A text that is found fits behind the place.
pub length-index : (s pat : Bytes) (i : ℕ) → index s pat ≡ some i → i + length pat ≤ length s
length-index [] pat i h = elim (Bool-cases (has_prefix [] pat)) [
  | inl e ↦
      let start : index [] pat ≡ some 0 = unfold index in rw e in
      let same : ◌≡◌ {A = Option ℕ} (some 0) (some i) = sym start ∙ h in
      ground (arith, length-has_prefix [] pat e)
  | inr e ↦
      let start : index [] pat ≡ none = unfold index in rw e in
      let clash : none ≡ some i = sym start ∙ h in absurd (ground arith)
]
length-index (b ∷ s) pat i h = elim (Bool-cases (has_prefix (b ∷ s) pat)) [
  | inl e ↦
      let same : ◌≡◌ {A = Option ℕ} (some 0) (some i) = sym (index_hit b s pat e) ∙ h in
      ground (arith, length-has_prefix (b ∷ s) pat e)
  | inr e ↦ elim (Option-cases (index s pat)) [
    | inl e' ↦
        let clash : none ≡ some i = sym (index_miss b s pat e e') ∙ h in absurd (ground arith)
    | inr (j, e') ↦
        let same : some (suc j) ≡ some i = sym (index_later b s pat j e e') ∙ h in
        ground (arith, length-index s pat j e')
  ]
]

pub length-index_byte : (s : Bytes) (c i : ℕ) → index_byte s c ≡ some i → i < length s
unfolding index_byte
length-index_byte [] c i h = absurd (ground arith)
length-index_byte (b ∷ s) c i h = elim (Bool-cases (b == c)) [
  | inl e ↦
      let same : ◌≡◌ {A = Option ℕ} (some 0) (some i) = rw (e, index_byte) at h in ground arith
  | inr e ↦ elim (Option-cases (index_byte s c)) [
    | inl e' ↦ let clash : none ≡ some i = rw (e, e', index_byte) at h in absurd (ground arith)
    | inr (j, e') ↦
        let same : some (suc j) ≡ some i = rw (e, e', index_byte) at h in
        ground (arith, length-index_byte s c j e')
  ]
]
