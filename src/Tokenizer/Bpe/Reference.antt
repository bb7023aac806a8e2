-- ===== src/Tokenizer/Bpe/Reference.antt =====
-- The byte pair encoding that `bytePairMerge` is to compute, with no offsets and no kept ranks: a
-- list of segments, in which the leftmost adjacent pair of lowest rank is joined until no pair is in
-- the vocabulary.
use harmony_go.Prelude.{
  ℕ, zero, suc, ◌+◌, ◌<◌, ◌≤◌, ◌≡◌, refl, List, [], ◌∷◌, ◌++◌, Bytes, ◌==◌, if◌then◌else◌, length,
  arith, concat, append_assoc, ap, map, inl, ◌⊎◌, false,
}
use harmony_go.Tokenizer.Bpe.{Encoder, MinRank, max_rank, no_min, rank_of, lower}

-- Segments `i` and `i+1` become one.
unfoldable pub join_at : ℕ → List Bytes → List Bytes
join_at i [] = []
join_at i (x ∷ []) = x ∷ []
join_at zero (x ∷ y ∷ r) = (x ++ y) ∷ r
join_at (suc i) (x ∷ y ∷ r) = x ∷ join_at i (y ∷ r)

pub concat-join_at : (i : ℕ) (segs : List Bytes) → concat (join_at i segs) ≡ concat segs
unfolding join_at
concat-join_at i [] = refl
concat-join_at i (x ∷ []) = refl
concat-join_at zero (x ∷ y ∷ r) = append_assoc x y (concat r)
concat-join_at (suc i) (x ∷ y ∷ r) = ap (λ t. x ++ t) (concat-join_at i (y ∷ r))

pub length-join_at :
    (i : ℕ) (segs : List Bytes) → i + 1 < length segs → length (join_at i segs) + 1 ≡ length segs
unfolding join_at
length-join_at i [] h = absurd (omega arith)
length-join_at i (x ∷ []) h = absurd (omega arith)
length-join_at zero (x ∷ y ∷ r) h = omega arith
length-join_at (suc i) (x ∷ y ∷ r) h = omega (arith, length-join_at i (y ∷ r))

module _ (enc : Encoder) where
  -- The first pair of lowest rank below the one at hand.
  unfoldable pub best_pair : ℕ → List Bytes → MinRank → MinRank
  unfolding lower
  best_pair j [] m = m
  best_pair j (x ∷ []) m = m
  best_pair j (x ∷ y ∷ r) m = best_pair (suc j) (y ∷ r) (lower (rank_of enc (x ++ y)) j m)

  abbrev pub best : List Bytes → MinRank
  best segs = best_pair 0 segs no_min

  -- Joins until no pair is in the vocabulary. Each round has one segment less, so the number of
  -- segments is fuel enough.
  unfoldable pub merge_pairs : ℕ → List Bytes → List Bytes
  merge_pairs zero segs = segs
  merge_pairs (suc fuel) segs =
      let rest = merge_pairs fuel (join_at (best segs).idx segs) in
      if (best segs).rank == max_rank then segs else rest

  -- The segments of one byte each, merged.
  unfoldable pub bpe_segments : Bytes → List Bytes
  unfolding merge_pairs best_pair join_at rank_of
  bpe_segments piece = merge_pairs (length piece) (map (λ b. b ∷ []) piece)

  -- Where the rank is not the greatest, the index is that of a pair.
  pub best_pair_idx :
      (j : ℕ) (segs : List Bytes) (m : MinRank)
      → ((best_pair j segs m).rank ≡ m.rank) × ((best_pair j segs m).idx ≡ m.idx)
        ⊎ (j ≤ (best_pair j segs m).idx) × ((best_pair j segs m).idx + 1 < j + length segs)
  unfolding best_pair
  best_pair_idx j [] m = inl (refl, refl)
  best_pair_idx j (x ∷ []) m = inl (refl, refl)
  best_pair_idx j (x ∷ y ∷ r) m =
      ground (arith, best_pair_idx (suc j) (y ∷ r) (lower (rank_of enc (x ++ y)) j m))

  pub best_idx :
      (segs : List Bytes)
      → ((best segs).rank == max_rank) ≡ false
      → (best segs).idx + 1 < length segs
  best_idx segs h = ground (arith, best_pair_idx 0 segs no_min)
