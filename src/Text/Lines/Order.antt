-- ===== src/Text/Lines/Order.antt =====
-- The order of Go strings, which sort.Strings sorts by.
use harmony_go.Prelude.{
  ℕ, ◌≡◌, ◌≢◌, refl, sym, ◌∙◌, true, false, [], ◌∷◌, Bytes, arith, inl, inr, Bool-cases, ltb, ◌==◌,
  ==_iff,
}
use harmony_go.Text.Lines.{bytes_lt}

bytes_lt_head : (x y : ℕ) (s t : Bytes) → (x == y) ≡ false → bytes_lt (x ∷ s) (y ∷ t) ≡ ltb x y
unfolding bytes_lt
bytes_lt_head x y s t e = rw e

bytes_lt_tail : (x y : ℕ) (s t : Bytes) → (x == y) ≡ true → bytes_lt (x ∷ s) (y ∷ t) ≡ bytes_lt s t
unfolding bytes_lt
bytes_lt_tail x y s t e = rw e

-- One of two texts that differ comes first.
pub bytes_lt_total : (s t : Bytes) → s ≢ t → bytes_lt s t ≡ false → bytes_lt t s ≡ true
bytes_lt_total [] [] ne h = absurd (ne refl)
bytes_lt_total [] (y ∷ t) ne h = unfold bytes_lt in absurd (ground arith)
bytes_lt_total (x ∷ s) [] ne h = unfold bytes_lt in refl
bytes_lt_total (x ∷ s) (y ∷ t) ne h = elim (Bool-cases (x == y)) [
  | inl e ↦
      let same : x ≡ y = (==_iff x y).0 e in
      let ne' : s ≢ t = λ e'. ne (λ i. same i ∷ e' i) in
      bytes_lt_tail y x t s ((==_iff y x).1 (sym same))
      ∙ bytes_lt_total s t ne' (sym (bytes_lt_tail x y s t e) ∙ h)
  | inr e ↦
      let h' : ltb x y ≡ false = sym (bytes_lt_head x y s t e) ∙ h in
      let e' : (y == x) ≡ false = ground arith in bytes_lt_head y x t s e' ∙ ground arith
]

pub bytes_lt_asym : (s t : Bytes) → bytes_lt s t ≡ true → bytes_lt t s ≡ false
bytes_lt_asym [] [] h = unfold bytes_lt in absurd (ground arith)
bytes_lt_asym [] (y ∷ t) h = unfold bytes_lt in refl
bytes_lt_asym (x ∷ s) [] h = unfold bytes_lt in absurd (ground arith)
bytes_lt_asym (x ∷ s) (y ∷ t) h = elim (Bool-cases (x == y)) [
  | inl e ↦
      let same : x ≡ y = (==_iff x y).0 e in
      bytes_lt_tail y x t s ((==_iff y x).1 (sym same))
      ∙ bytes_lt_asym s t (sym (bytes_lt_tail x y s t e) ∙ h)
  | inr e ↦
      let h' : ltb x y ≡ true = sym (bytes_lt_head x y s t e) ∙ h in
      let e' : (y == x) ≡ false = ground arith in bytes_lt_head y x t s e' ∙ ground arith
]

pub bytes_lt_trans :
    (s t u : Bytes) → bytes_lt s t ≡ true → bytes_lt t u ≡ true → bytes_lt s u ≡ true
bytes_lt_trans [] [] [] h h' = h
bytes_lt_trans [] (y ∷ t) [] h h' = unfold bytes_lt in absurd (ground arith)
bytes_lt_trans [] t (z ∷ u) h h' = unfold bytes_lt in refl
bytes_lt_trans (x ∷ s) [] u h h' = unfold bytes_lt in absurd (ground arith)
bytes_lt_trans (x ∷ s) (y ∷ t) [] h h' = unfold bytes_lt in absurd (ground arith)
bytes_lt_trans (x ∷ s) (y ∷ t) (z ∷ u) h h' = elim (Bool-cases (x == y)) [
  | inl e ↦
      let same : x ≡ y = (==_iff x y).0 e in
      elim (Bool-cases (y == z)) [
        | inl f ↦
            let both : (x == z) ≡ true = ground arith in
            bytes_lt_tail x z s u both
            ∙ bytes_lt_trans s t u (sym (bytes_lt_tail x y s t e) ∙ h)
                (sym (bytes_lt_tail y z t u f) ∙ h')
        | inr f ↦
            let lt : ltb y z ≡ true = sym (bytes_lt_head y z t u f) ∙ h' in
            let ne : (x == z) ≡ false = ground arith in bytes_lt_head x z s u ne ∙ ground arith
      ]
  | inr e ↦
      let lt : ltb x y ≡ true = sym (bytes_lt_head x y s t e) ∙ h in
      elim (Bool-cases (y == z)) [
        | inl f ↦
            let ne : (x == z) ≡ false = ground arith in bytes_lt_head x z s u ne ∙ ground arith
        | inr f ↦
            let lt' : ltb y z ≡ true = sym (bytes_lt_head y z t u f) ∙ h' in
            let ne : (x == z) ≡ false = ground arith in bytes_lt_head x z s u ne ∙ ground arith
      ]
]
