-- ===== src/Text/Lines/First.antt =====
-- The first line of a text, as `strings.Split` and a search for the line end have it.
use harmony_go.Prelude.{
  ℕ, zero, suc, ◌<◌, ◌≡◌, refl, [], ◌∷◌, none, some, Bytes, arith, inl, inr, Option-cases,
  Bool-cases, length, take, drop, ◌==◌,
}
use harmony_go.Text.{index_byte}
use harmony_go.Text.Lines.{split_lines, extend}

-- The first line of a text and those behind its line end.
pub split_lines_first :
    (s : Bytes)
    → split_lines s ≡ elim (index_byte s b'\n') [
      | none ↦ s ∷ []
      | some i ↦ take i s ∷ split_lines (drop (suc i) s)
    ]
unfolding split_lines index_byte
split_lines_first [] = refl
split_lines_first (b ∷ s) = elim (Bool-cases (b == b'\n')) [
  | inl e ↦ rw e
  | inr e ↦
      let ih = split_lines_first s in
      elim (Option-cases (index_byte s b'\n')) [
        | inl gone ↦
            let rest : split_lines s ≡ s ∷ [] = rw gone at ih in
            rw (e, gone, rest) (unfold extend in refl)
        | inr (i, found) ↦
            let rest : split_lines s ≡ take i s ∷ split_lines (drop (suc i) s) = rw found at ih in
            rw (e, found, rest) (unfold extend in refl)
      ]
]

pub length-drop_line : (s : Bytes) (i : ℕ) → i < length s → length (drop (suc i) s) < length s
length-drop_line [] i lt = absurd (omega arith)
length-drop_line (b ∷ s) zero lt = omega arith
length-drop_line (b ∷ s) (suc i) lt = let ih = length-drop_line s i (omega arith) in omega arith
