-- ===== src/Tokenizer/Bpe/Lowest.antt =====
-- Which pair the reference joins.
use harmony_go.Prelude.{
  ◌∙◌, ℕ, zero, suc, ◌+◌, ◌<◌, ◌≤◌, ◌≡◌, refl, List, [], ◌∷◌, ◌++◌, Option, none, some, Bytes,
  arith, ◌⊎◌, inl, inr, ◌==◌, false,
}
use harmony_go.Tokenizer.Bpe.{Encoder, MinRank, max_rank, no_min, rank_of, lower}
use harmony_go.Tokenizer.Bpe.Reference.{best_pair, best}

-- The text of segments `i` and `i+1`.
abbrev pub pair_at : List Bytes → ℕ → Option Bytes
pair_at [] i = none
pair_at (x ∷ []) i = none
pair_at (x ∷ y ∷ r) zero = some (x ++ y)
pair_at (x ∷ y ∷ r) (suc i) = pair_at (y ∷ r) i

lower_le : (r j : ℕ) (m : MinRank) → ((lower r j m).rank ≤ m.rank) × ((lower r j m).rank ≤ r)
unfolding lower
lower_le r j m = ground arith

module _ (enc : Encoder) where
  best_pair_le : (j : ℕ) (segs : List Bytes) (m : MinRank) → (best_pair enc j segs m).rank ≤ m.rank
  unfolding best_pair
  best_pair_le j [] m = omega arith
  best_pair_le j (x ∷ []) m = omega arith
  best_pair_le j (x ∷ y ∷ r) m =
      let m' = lower (rank_of enc (x ++ y)) j m in
      omega (arith, best_pair_le (suc j) (y ∷ r) m', lower_le (rank_of enc (x ++ y)) j m)

  best_pair-le-rank :
      (j : ℕ) (segs : List Bytes) (m : MinRank) (i : ℕ) (p : Bytes)
      → pair_at segs i ≡ some p
      → (best_pair enc j segs m).rank ≤ rank_of enc p
  unfolding best_pair
  best_pair-le-rank j [] m i p h = cc
  best_pair-le-rank j (x ∷ []) m i p h = cc
  best_pair-le-rank j (x ∷ y ∷ r) m zero p h =
      let m' = lower (rank_of enc (x ++ y)) j m in
      ground (arith, best_pair_le (suc j) (y ∷ r) m', lower_le (rank_of enc (x ++ y)) j m)
  best_pair-le-rank j (x ∷ y ∷ r) m (suc i) p h =
      best_pair-le-rank (suc j) (y ∷ r) (lower (rank_of enc (x ++ y)) j m) i p h

  -- `b` is the rank and place of pair `k`, the first of the lowest rank, below `m`.
  pub record IsFirst (j : ℕ) (segs : List Bytes) (m b : MinRank) : Type 0 where
    pub place : ℕ
    pub text : Bytes
    pub idx_eq : b.idx ≡ j + place
    pub at_place : pair_at segs place ≡ some text
    pub rank_eq : b.rank ≡ rank_of enc text
    pub below : b.rank < m.rank
    pub first : (i : ℕ) (q : Bytes) → i < place → pair_at segs i ≡ some q → b.rank < rank_of enc q

  IsFirst-shift :
      (j : ℕ) (x y : Bytes) (r : List Bytes) (m m' b : MinRank)
      → IsFirst (suc j) (y ∷ r) m' b
      → m'.rank ≤ m.rank
      → m'.rank ≤ rank_of enc (x ++ y)
      → IsFirst j (x ∷ y ∷ r) m b
  IsFirst-shift j x y r m m' b f le le' = record {
    place = suc f.place;
    text = f.text;
    idx_eq = (let e = f.idx_eq in omega arith);
    at_place = f.at_place;
    rank_eq = f.rank_eq;
    below = (let e = f.below in omega arith);
    first = earlier;
  }
    where
      earlier :
          (i : ℕ) (q : Bytes)
          → i < suc f.place
          → pair_at (x ∷ y ∷ r) i ≡ some q
          → b.rank < rank_of enc q
      earlier zero q lt e = let e' = f.below in ground arith
      earlier (suc i) q lt e = f.first i q (omega arith) e

  lower_cases :
      (r j : ℕ) (m : MinRank)
      → ((lower r j m ≡ m) × (m.rank ≤ r))
        ⊎ ((lower r j m ≡ record { rank = r; idx = j }) × (r < m.rank))
  unfolding lower
  lower_cases r j m = ground arith

  IsFirst-here :
      (j : ℕ) (x y : Bytes) (r : List Bytes) (m b : MinRank)
      → b ≡ record { rank = rank_of enc (x ++ y); idx = j }
      → rank_of enc (x ++ y) < m.rank
      → IsFirst j (x ∷ y ∷ r) m b
  IsFirst-here j x y r m b e lt = record {
    place = 0;
    text = x ++ y;
    idx_eq = rw e (omega arith);
    at_place = refl;
    rank_eq = rw e;
    below = rw e lt;
    first = λ i q h. absurd (omega arith);
  }

  best_pair-IsFirst :
      (j : ℕ) (segs : List Bytes) (m : MinRank)
      → (best_pair enc j segs m ≡ m) ⊎ IsFirst j segs m (best_pair enc j segs m)
  unfolding best_pair
  best_pair-IsFirst j [] m = inl refl
  best_pair-IsFirst j (x ∷ []) m = inl refl
  best_pair-IsFirst j (x ∷ y ∷ r) m =
      let rank = rank_of enc (x ++ y) in
      let m' = lower rank j m in
      let b = best_pair enc (suc j) (y ∷ r) m' in
      elim (best_pair-IsFirst (suc j) (y ∷ r) m') [
        | inl same ↦ elim (lower_cases rank j m) [
          | inl (e, le) ↦ inl (same ∙ e)
          | inr (e, lt) ↦ inr (IsFirst-here j x y r m b (same ∙ e) lt)
        ]
        | inr f ↦ inr (IsFirst-shift j x y r m m' b f (lower_le rank j m).0 (lower_le rank j m).1)
      ]

  -- While a pair is in the vocabulary, the reference joins the first pair of lowest rank; the rank
  -- that it finds is at most that of every pair.
  pub best-IsFirst :
      (segs : List Bytes)
      → ((best enc segs).rank == max_rank) ≡ false
      → IsFirst 0 segs no_min (best enc segs)
        × ((i : ℕ) (q : Bytes) → pair_at segs i ≡ some q → (best enc segs).rank ≤ rank_of enc q)
  best-IsFirst segs h = elim (best_pair-IsFirst 0 segs no_min) [
    | inl e ↦ absurd (ground arith)
    | inr f ↦ (f, λ i q. best_pair-le-rank 0 segs no_min i q)
  ]

  pub best-le-rank :
      (segs : List Bytes) (i : ℕ) (q : Bytes)
      → pair_at segs i ≡ some q
      → (best enc segs).rank ≤ rank_of enc q
  best-le-rank segs i q = best_pair-le-rank 0 segs no_min i q
