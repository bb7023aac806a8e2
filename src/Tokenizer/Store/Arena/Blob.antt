-- ===== src/Tokenizer/Store/Arena/Blob.antt =====
-- The blob holds the texts of the ids one behind the other, and the offsets find them.
use harmony_go.Prelude.{
  ℕ, zero, suc, ◌+◌, ◌-◌, ◌^◌, List, [], ◌∷◌, ◌++◌, none, some, Bytes, ltb, if◌then◌else◌, length,
  get_or, true, ◌≡◌, ◌≤◌, ◌<◌, refl, ◌∙◌, arith, Option-cases, inl, inr, append_assoc, append-nil,
  take_all, take-append_length, drop-add, drop-append_length, length-append, length-drop, drop,
  slice,
}
use harmony_go.Tokenizer.Store.{Pairs, first_bytes}
use harmony_go.Tokenizer.Store.Arena.{as_u32, copy_at, copy_id, fill_blob}

-- The bytes of an id, none for an id without a pair.
unfoldable pub text_of : Pairs → ℕ → Bytes
text_of pairs i = elim (first_bytes i pairs) [ none ↦ [] | some b ↦ b ]

-- The texts of as many ids as there are lengths, from `i` on, and where each starts.
abbrev pub texts : Pairs → List ℕ → ℕ → Bytes
texts pairs [] i = []
texts pairs (n ∷ lens) i = text_of pairs i ++ texts pairs lens (suc i)

abbrev pub offsets : List ℕ → ℕ → List ℕ
offsets [] pos = as_u32 pos ∷ []
offsets (n ∷ lens) pos = as_u32 pos ∷ offsets lens (pos + n)

abbrev pub sum : List ℕ → ℕ
sum [] = 0
sum (n ∷ lens) = n + sum lens

-- The lengths are those of the texts.
abbrev pub Fits : Pairs → List ℕ → ℕ → Type 0
Fits pairs [] i = Unit
Fits pairs (n ∷ lens) i = (n ≡ length (text_of pairs i)) × Fits pairs lens (suc i)

copy_at-append :
    (pre z b : Bytes)
    → length b ≤ length z
    → copy_at (pre ++ z) (length pre) (length b) b ≡ (pre ++ b) ++ drop (length b) z
copy_at-append pre z b h =
    unfold copy_at in
    rw (
      take_all (length b) b (omega arith),
      take-append_length pre z,
      drop-add (length pre) (length b) (pre ++ z),
      drop-append_length pre z,
      append_assoc pre b (drop (length b) z),
    )

copy_id_found :
    (pairs : Pairs) (i : ℕ) (b pre z : Bytes)
    → first_bytes i pairs ≡ some b
    → length b ≤ length z
    → (if ltb 0 (length b) then copy_id pairs i (length pre) (length b) (pre ++ z) else pre ++ z)
      ≡ (pre ++ b) ++ drop (length b) z
copy_id_found pairs i [] pre z e h = rw (append-nil pre)
copy_id_found pairs i (x ∷ b) pre z e h =
    let copied : copy_id pairs i (length pre) (length (x ∷ b)) (pre ++ z)
        ≡ copy_at (pre ++ z) (length pre) (length (x ∷ b)) (x ∷ b) =
      unfold copy_id in rw (e, copy_id) in
    let positive : ltb 0 (length (x ∷ b)) ≡ true = ground arith in
    rw positive (copied ∙ copy_at-append pre z (x ∷ b) h)

copy_id-text :
    (pairs : Pairs) (i : ℕ) (pre z : Bytes)
    → length (text_of pairs i) ≤ length z
    → (if ltb 0 (length (text_of pairs i))
        then copy_id pairs i (length pre) (length (text_of pairs i)) (pre ++ z)
        else pre ++ z)
      ≡ (pre ++ text_of pairs i) ++ drop (length (text_of pairs i)) z
copy_id-text pairs i pre z h = elim (Option-cases (first_bytes i pairs)) [
  | inl e ↦
      let t : text_of pairs i ≡ [] = unfold text_of in rw (e, text_of) in rw t (rw (append-nil pre))
  | inr (b, e) ↦
      let t : text_of pairs i ≡ b = unfold text_of in rw (e, text_of) in
      rw t (copy_id_found pairs i b pre z e (rw t at h))
]

pub fill_blob-texts :
    (pairs : Pairs) (lens : List ℕ) (i : ℕ) (pre z : Bytes) (off : List ℕ)
    → Fits pairs lens i
    → sum lens ≡ length z
    → fill_blob pairs lens i (length pre) (pre ++ z) off
      ≡ (pre ++ texts pairs lens i, off ++ offsets lens (length pre))
unfolding fill_blob
fill_blob-texts pairs [] i pre [] off fits e = refl
fill_blob-texts pairs [] i pre (x ∷ z) off fits e = absurd (omega arith)
fill_blob-texts pairs (n ∷ lens) i pre z off (fit, fits) e =
    let t = text_of pairs i in
    let copied = copy_id-text pairs i pre z (omega arith) in
    let len : length pre + n ≡ length (pre ++ t) = omega (arith, length-append pre t) in
    let rest =
      fill_blob-texts pairs lens (suc i) (pre ++ t) (drop (length t) z)
        (off ++ as_u32 (length pre) ∷ []) fits (omega (arith, length-drop (length t) z)) in
    rw (len, fit)
      (rw copied (
        rest
        ∙ rw (
          append_assoc pre t (texts pairs lens (suc i)),
          append_assoc off (as_u32 (length pre) ∷ []) (offsets lens (length (pre ++ t))),
        )))

pub u32_small : (n : ℕ) → n < 2 ^ 32 → as_u32 n ≡ n
u32_small n h = omega arith

offsets_head : (lens : List ℕ) (pos : ℕ) → get_or (offsets lens pos) 0 0 ≡ as_u32 pos
offsets_head [] pos = refl
offsets_head (n ∷ lens) pos = refl

-- The slice between two offsets is the text of the id.
pub slice-texts :
    (pairs : Pairs) (lens : List ℕ) (i : ℕ) (pre : Bytes) (j : ℕ)
    → Fits pairs lens i
    → length pre + sum lens < 2 ^ 32
    → j < length lens
    → (get_or (offsets lens (length pre)) (suc j) 0
        ≡ get_or (offsets lens (length pre)) j 0 + length (text_of pairs (i + j)))
      × (slice
            (pre ++ texts pairs lens i)
            (get_or (offsets lens (length pre)) j 0)
            (get_or (offsets lens (length pre)) (suc j) 0)
          ≡ text_of pairs (i + j))
slice-texts pairs [] i pre j fits small lt = absurd (omega arith)
slice-texts pairs (n ∷ lens) i pre zero (fit, fits) small lt =
    let t = text_of pairs i in
    let more = texts pairs lens (suc i) in
    let e : i + 0 ≡ i = omega arith in
    let a : as_u32 (length pre) ≡ length pre = u32_small (length pre) (omega arith) in
    let b : get_or (offsets lens (length pre + n)) 0 0 ≡ length pre + length t =
      offsets_head lens (length pre + n) ∙ u32_small (length pre + n) (omega arith) ∙ (rw fit) in
    let d : (length pre + length t) - length pre ≡ length t = omega arith in
    (rw (e, a, b), rw (e, a, b, d, drop-append_length pre (t ++ more)) (take-append_length t more))
slice-texts pairs (n ∷ lens) i pre (suc j) (fit, fits) small lt =
    let t = text_of pairs i in
    let len : length pre + n ≡ length (pre ++ t) = omega (arith, length-append pre t) in
    let e : i + suc j ≡ suc i + j = omega arith in
    let (one, two) = slice-texts pairs lens (suc i) (pre ++ t) j fits (omega arith) (omega arith) in
    rw (e, len, ← append_assoc pre t (texts pairs lens (suc i))) (one, two)
