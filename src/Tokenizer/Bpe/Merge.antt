-- ===== src/Tokenizer/Bpe/Merge.antt =====
-- `bytePairMerge` with its offsets and kept ranks against the joining of segments.
use harmony_go.Prelude.{
  true, false, ℕ, zero, suc, ◌+◌, ◌<◌, ◌≤◌, ◌≡◌, refl, List, [], ◌∷◌, some, Bytes, ◌==◌, length,
  slice, arith, le→ltb, ap, map, ◌∙◌, slice-append, Bool-cases, inl, inr,
}
use harmony_go.Tokenizer.Bpe.{
  Encoder, Part, MinRank, max_rank, no_min, rank_of, id_of, lower, min_scan, merge_loop, part_ids,
}
use harmony_go.Tokenizer.Bpe.Annotate.{erase_at, annotate, merge_at-annotate}
use harmony_go.Tokenizer.Bpe.Reference.{join_at, best_pair, best, merge_pairs, best_idx}

abbrev pub Ascends : List ℕ → Type 0
Ascends [] = Unit
Ascends (a ∷ []) = Unit
Ascends (a ∷ b ∷ r) = (a ≤ b) × Ascends (b ∷ r)

Ascends-erase_at :
    (ss : List ℕ) (i : ℕ) → Ascends ss → i + 2 < length ss → Ascends (erase_at (suc i) ss)
Ascends-erase_at [] i h lt = absurd (omega arith)
Ascends-erase_at (a ∷ []) i h lt = absurd (omega arith)
Ascends-erase_at (a ∷ b ∷ []) i h lt = absurd (omega arith)
Ascends-erase_at (a ∷ b ∷ c ∷ r) zero (p, (q, h)) lt = (omega arith, h)
Ascends-erase_at (a ∷ b ∷ c ∷ r) (suc i) (p, h) lt =
    (p, Ascends-erase_at (b ∷ c ∷ r) i h (omega arith))

length-erase_at : (i : ℕ) (r : List ℕ) → i < length r → length (erase_at i r) + 1 ≡ length r
length-erase_at i [] h = absurd (omega arith)
length-erase_at zero (x ∷ r) h = omega arith
length-erase_at (suc i) (x ∷ r) h = omega (arith, length-erase_at i r)

abbrev pub starts_from : ℕ → ℕ → List ℕ
starts_from i zero = []
starts_from i (suc k) = i ∷ starts_from (suc i) k

pub Ascends-starts_from : (i k : ℕ) → Ascends (starts_from i k)
Ascends-starts_from i zero = tt
Ascends-starts_from i (suc zero) = tt
Ascends-starts_from i (suc (suc k)) = (omega arith, Ascends-starts_from (suc i) (suc k))

pub lower_le : (r j : ℕ) (m : MinRank) → (lower r j m).rank ≤ m.rank
unfolding lower
lower_le r j m = ground arith

pub lower_max : (j : ℕ) (m : MinRank) → m.rank ≤ max_rank → lower max_rank j m ≡ m
unfolding lower
lower_max j m h = rw (le→ltb max_rank m.rank h)

module _ (enc : Encoder) (piece : Bytes) where
  -- The text between adjacent starts.
  abbrev pub segments : List ℕ → List Bytes
  segments [] = []
  segments (a ∷ []) = []
  segments (a ∷ b ∷ r) = slice piece a b ∷ segments (b ∷ r)

  segments-erase_at :
      (ss : List ℕ) (i : ℕ)
      → Ascends ss
      → i + 2 < length ss
      → segments (erase_at (suc i) ss) ≡ join_at i (segments ss)
  unfolding join_at
  segments-erase_at [] i h lt = absurd (omega arith)
  segments-erase_at (a ∷ []) i h lt = absurd (omega arith)
  segments-erase_at (a ∷ b ∷ []) i h lt = absurd (omega arith)
  segments-erase_at (a ∷ b ∷ c ∷ r) zero (p, (q, h)) lt = rw (slice-append piece a b c p q)
  segments-erase_at (a ∷ b ∷ c ∷ r) (suc i) (p, h) lt =
      ap (λ t. slice piece a b ∷ t) (segments-erase_at (b ∷ c ∷ r) i h (omega arith))

  pub min_scan-annotate :
      (j : ℕ) (ss : List ℕ) (m : MinRank)
      → Ascends ss
      → m.rank ≤ max_rank
      → min_scan j (annotate enc piece ss) m ≡ best_pair enc j (segments ss) m
  unfolding min_scan best_pair
  min_scan-annotate j [] m h le = refl
  min_scan-annotate j (a ∷ []) m h le = refl
  min_scan-annotate j (a ∷ b ∷ []) m h le = lower_max j m le
  min_scan-annotate j (a ∷ b ∷ c ∷ r) m (p, (q, h)) le = rw (slice-append piece a b c p q) (
      min_scan-annotate (suc j) (b ∷ c ∷ r) (lower (rank_of enc (slice piece a c)) j m) (q, h)
        (omega (arith, lower_le)))

  pub part_ids-annotate :
      (ss : List ℕ) → part_ids enc piece (annotate enc piece ss) ≡ map (id_of enc) (segments ss)
  unfolding part_ids
  part_ids-annotate [] = refl
  part_ids-annotate (a ∷ []) = refl
  part_ids-annotate (a ∷ b ∷ r) =
      ap (λ t. id_of enc (slice piece a b) ∷ t) (part_ids-annotate (b ∷ r))

  length-segments : (a : ℕ) (ss : List ℕ) → length (segments (a ∷ ss)) ≡ length ss
  length-segments a [] = refl
  length-segments a (b ∷ r) = ap suc (length-segments b r)

  -- One round of the loop, on annotated parts.
  merge_loop_round :
      (f : ℕ) (ss : List ℕ)
      → Ascends ss
      → (best enc (segments ss)).idx + 2 < length ss
      → ((best enc (segments ss)).rank == max_rank) ≡ false
      → merge_loop enc piece (suc f) (annotate enc piece ss) (best enc (segments ss)) ≡ (
          let next = erase_at (suc (best enc (segments ss)).idx) ss in
          merge_loop enc piece f (annotate enc piece next) (best enc (segments next)))
  merge_loop_round f ss h lt more =
      unfold merge_loop in
      rw (more, merge_at-annotate enc piece ss (best enc (segments ss)).idx lt)
        (rw (
          min_scan-annotate 0 (erase_at (suc (best enc (segments ss)).idx) ss) no_min
            (Ascends-erase_at ss (best enc (segments ss)).idx h lt) (omega arith)))

  merge_loop_done :
      (f : ℕ) (parts : List Part) (m : MinRank)
      → (m.rank == max_rank) ≡ true
      → merge_loop enc piece (suc f) parts m ≡ some parts
  unfolding merge_loop
  merge_loop_done f parts m h = rw h

  -- The loop ends within its fuel, at the parts of the merged segments.
  pub merge_loop-annotate :
      (f a : ℕ) (r : List ℕ)
      → Ascends (a ∷ r)
      → length r ≤ f
      → (ss : List ℕ) × (merge_loop enc piece
            (suc f)
            (annotate enc piece (a ∷ r))
            (best enc (segments (a ∷ r)))
          ≡ some (annotate enc piece ss))
        × (segments ss ≡ merge_pairs enc f (segments (a ∷ r)))
  merge_loop-annotate zero a [] h le =
      (a ∷ [], unfold best_pair in merge_loop_done zero _ no_min refl, unfold merge_pairs in refl)
  merge_loop-annotate zero a (b ∷ r) h le = absurd (omega arith)
  merge_loop-annotate (suc f) a r h le =
      elim (Bool-cases ((best enc (segments (a ∷ r))).rank == max_rank)) [
        | inl done ↦ (a ∷ r, merge_loop_done (suc f) _ _ done, unfold merge_pairs in rw done)
        | inr more ↦
            let i = (best enc (segments (a ∷ r))).idx in
            let lt : i + 2 < length (a ∷ r) =
              omega (arith, best_idx enc (segments (a ∷ r)) more, length-segments a r) in
            let ih =
              merge_loop-annotate f a (erase_at i r) (Ascends-erase_at (a ∷ r) i h lt)
                (omega (arith, length-erase_at i r)) in
            (
              ih.0,
              merge_loop_round (suc f) (a ∷ r) h lt more ∙ ih.1,
              ih.2 ∙ (rw (segments-erase_at (a ∷ r) i h lt) (unfold merge_pairs in rw more)),
            )
      ]
