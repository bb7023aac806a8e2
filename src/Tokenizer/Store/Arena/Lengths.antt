-- ===== src/Tokenizer/Store/Arena/Lengths.antt =====
-- The loop that collects the lengths of the texts.
use harmony_go.Prelude.{
  ℕ, zero, suc, ◌+◌, ◌^◌, ◌≤◌, ◌<◌, ◌≡◌, refl, ap, ◌∙◌, true, false, List, [], ◌∷◌, Bytes, ◌==◌,
  if◌then◌else◌, length, get_or, set, replicate, All, arith, Bool-cases, inl, inr, length-set,
}
use harmony_go.Tokenizer.Store.{Pairs, first_bytes}
use harmony_go.Tokenizer.Store.Lookup.{Below}
use harmony_go.Tokenizer.Store.Arena.{as_u32, fill_lens}
use harmony_go.Tokenizer.Store.Arena.Blob.{text_of, offsets, sum, Fits, u32_small}

-- All bytes of the pairs.
abbrev pub pairs_size : Pairs → ℕ
pairs_size [] = 0
pairs_size ((b, id) ∷ pairs) = length b + pairs_size pairs

get_or-set :
    (xs : List ℕ) (i j v : ℕ)
    → i < length xs
    → get_or (set xs i v) j 0 ≡ (if i == j then v else get_or xs j 0)
get_or-set [] i j v h = absurd (omega arith)
get_or-set (x ∷ xs) zero zero v h = refl
get_or-set (x ∷ xs) zero (suc j) v h = ground arith
get_or-set (x ∷ xs) (suc i) zero v h = ground arith
get_or-set (x ∷ xs) (suc i) (suc j) v h = ground (arith, get_or-set xs i j v)

sum-set :
    (xs : List ℕ) (i v : ℕ) → i < length xs → get_or xs i 0 ≡ 0 → sum (set xs i v) ≡ sum xs + v
sum-set [] i v h e = absurd (omega arith)
sum-set (x ∷ xs) zero v h e = omega arith
sum-set (x ∷ xs) (suc i) v h e = omega (arith, sum-set xs i v (omega arith) e)

fill_lens_on :
    (b : Bytes) (id : ℕ) (pairs : Pairs) (lens : List ℕ) (total : ℕ)
    → (get_or lens id 0 == 0) ≡ true
    → fill_lens ((b, id) ∷ pairs) lens total
      ≡ fill_lens pairs (set lens id (as_u32 (length b))) (total + length b)
fill_lens_on b id pairs lens total e = unfold fill_lens in rw (e, fill_lens)

fill_lens_skip :
    (b : Bytes) (id : ℕ) (pairs : Pairs) (lens : List ℕ) (total : ℕ)
    → (get_or lens id 0 == 0) ≡ false
    → fill_lens ((b, id) ∷ pairs) lens total ≡ fill_lens pairs lens total
fill_lens_skip b id pairs lens total e = unfold fill_lens in rw (e, fill_lens)

-- What the lengths are behind the loop, from those in front of it.
pub record Filled (pairs : Pairs) (lens : List ℕ) (total : ℕ) (r : List ℕ × ℕ) : Type 0 where
  pub same_length : length r.0 ≡ length lens
  pub total_sum : r.1 + sum lens ≡ total + sum r.0
  pub sum_le : sum r.0 ≤ sum lens + pairs_size pairs
  pub each :
      (i : ℕ)
      → get_or r.0 i 0
        ≡ (if get_or lens i 0 == 0 then length (text_of pairs i) else get_or lens i 0)

text_of-cons :
    (b : Bytes) (id : ℕ) (pairs : Pairs) (i : ℕ)
    → text_of ((b, id) ∷ pairs) i ≡ (if id == i then b else text_of pairs i)
text_of-cons b id pairs i = elim (Bool-cases (id == i)) [
  | inl e ↦ unfold text_of first_bytes in rw (e, text_of)
  | inr e ↦ unfold text_of first_bytes in rw (e, text_of)
]

each_skip :
    (b : Bytes) (id : ℕ) (pairs : Pairs) (lens : List ℕ) (i v : ℕ)
    → (get_or lens id 0 == 0) ≡ false
    → v ≡ (if get_or lens i 0 == 0 then length (text_of pairs i) else get_or lens i 0)
    → v ≡ (if get_or lens i 0 == 0 then length (text_of ((b, id) ∷ pairs) i) else get_or lens i 0)
each_skip b id pairs lens i v e h = elim (Bool-cases (id == i)) [
  | inl same ↦
      let eq : id ≡ i = ground arith in
      let e' : (get_or lens i 0 == 0) ≡ false = rw eq at e in
      let h' : v ≡ get_or lens i 0 = h ∙ rw e' in rw e' h'
  | inr other ↦
      let t : text_of ((b, id) ∷ pairs) i ≡ text_of pairs i =
        text_of-cons b id pairs i ∙ rw other in
      rw t h
]

each_on :
    (b : Bytes) (id : ℕ) (pairs : Pairs) (lens : List ℕ) (i v w : ℕ)
    → 0 < length b
    → (get_or lens id 0 == 0) ≡ true
    → w ≡ (if id == i then length b else get_or lens i 0)
    → v ≡ (if w == 0 then length (text_of pairs i) else w)
    → v ≡ (if get_or lens i 0 == 0 then length (text_of ((b, id) ∷ pairs) i) else get_or lens i 0)
each_on b id pairs lens i v w pos e g h = elim (Bool-cases (id == i)) [
  | inl same ↦
      let eq : id ≡ i = ground arith in
      let e' : (get_or lens i 0 == 0) ≡ true = rw eq at e in
      let t : text_of ((b, id) ∷ pairs) i ≡ b = text_of-cons b id pairs i ∙ rw same in
      let w_b : w ≡ length b = g ∙ rw same in rw (e', t) (ground arith)
  | inr other ↦
      let t : text_of ((b, id) ∷ pairs) i ≡ text_of pairs i =
        text_of-cons b id pairs i ∙ rw other in
      let w_lens : w ≡ get_or lens i 0 = g ∙ rw other in rw (t, ← w_lens) h
]

pub fill_lens-Filled :
    (pairs : Pairs) (lens : List ℕ) (total m : ℕ)
    → Below pairs m
    → m < length lens
    → All (λ p. 0 < length p.0) pairs
    → pairs_size pairs < 2 ^ 32
    → Filled pairs lens total (fill_lens pairs lens total)
fill_lens-Filled [] lens total m below room full small =
    unfold fill_lens text_of first_bytes in
    record { same_length = refl; total_sum = refl; sum_le = omega arith; each = λ i. ground arith }
fill_lens-Filled ((b, id) ∷ pairs) lens total m (le, below) room (pos, full) small =
    elim (Bool-cases (get_or lens id 0 == 0)) [
      | inr e ↦
          let f = fill_lens-Filled pairs lens total m below room full (omega arith) in
          let skipped = fill_lens_skip b id pairs lens total e in
          let same = f.same_length in
          let total_sum = f.total_sum in
          let le = f.sum_le in
          let each = f.each in
          rw skipped (record {
            same_length = same;
            total_sum = total_sum;
            sum_le = omega arith;
            each = λ i. each_skip b id pairs lens i _ e (each i);
          })
      | inl e ↦
          let more = set lens id (length b) in
          let there : id < length lens = omega arith in
          let kept = length-set lens id (length b) in
          let zero_there : get_or lens id 0 ≡ 0 = ground arith in
          let added = sum-set lens id (length b) there zero_there in
          let f =
            fill_lens-Filled pairs more (total + length b) m below (omega arith) full
              (omega arith) in
          let short : as_u32 (length b) ≡ length b = u32_small (length b) (omega arith) in
          let taken : fill_lens ((b, id) ∷ pairs) lens total
              ≡ fill_lens pairs more (total + length b) =
            fill_lens_on b id pairs lens total e ∙ rw short in
          let same = f.same_length in
          let total_sum = f.total_sum in
          let le = f.sum_le in
          let each = f.each in
          rw taken (record {
            same_length = same ∙ kept;
            total_sum = omega arith;
            sum_le = omega arith;
            each = λ i.
                each_on b id pairs lens i _ (get_or more i 0) pos e
                  (get_or-set lens id i (length b) there) (each i);
          })
    ]

pub sum-replicate : (n : ℕ) → sum (replicate n 0) ≡ 0
sum-replicate zero = refl
sum-replicate (suc n) = omega (arith, sum-replicate n)

pub get_or-replicate_zero : (n i : ℕ) → get_or {A = ℕ} (replicate n 0) i 0 ≡ 0
get_or-replicate_zero zero i = refl
get_or-replicate_zero (suc n) zero = refl
get_or-replicate_zero (suc n) (suc i) = get_or-replicate_zero n i

pub Fits-of :
    (pairs : Pairs) (lens : List ℕ) (i : ℕ)
    → ((j : ℕ) → j < length lens → get_or lens j 0 ≡ length (text_of pairs (i + j)))
    → Fits pairs lens i
Fits-of pairs [] i h = tt
Fits-of pairs (n ∷ lens) i h =
    let e : i + 0 ≡ i = omega arith in
    let first : n ≡ length (text_of pairs (i + 0)) = h 0 (omega arith) in
    (
      rw e at first,
      Fits-of pairs lens (suc i) (λ j lt.
          let e' : i + suc j ≡ suc i + j = omega arith in
          let next = h (suc j) (omega arith) in rw e' at next),
    )

pub length-offsets : (lens : List ℕ) (pos : ℕ) → length (offsets lens pos) ≡ suc (length lens)
length-offsets [] pos = refl
length-offsets (n ∷ lens) pos = ap suc (length-offsets lens (pos + n))
