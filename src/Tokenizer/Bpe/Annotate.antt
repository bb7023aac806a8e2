-- ===== src/Tokenizer/Bpe/Annotate.antt =====
-- What the ranks in `parts` mean: `bytePairMerge` keeps with each part the rank of the text from its
-- start to the start two places on. The update after a merge restores this.
use harmony_go.Prelude.{
  ℕ, zero, suc, ◌+◌, ◌-◌, ◌<◌, ◌≡◌, refl, List, [], ◌∷◌, ◌++◌, Bytes, length, take, drop, slice,
  arith, lt→ltb, ap,
}
use harmony_go.Tokenizer.Bpe.{Encoder, Part, max_rank, rank_of, get_rank, set_rank, merge_at}

-- `a[:k]` and `a[k+1:]` joined.
abbrev pub erase_at {ℓ} : {A : Type ℓ} → ℕ → List A → List A
erase_at k xs = take k xs ++ drop (suc k) xs

module _ (enc : Encoder) (piece : Bytes) where
  -- The rank of the pair that begins at `a`, where `ss` are the later starts.
  abbrev pub pair_rank : ℕ → List ℕ → ℕ
  pair_rank a [] = max_rank
  pair_rank a (b ∷ []) = max_rank
  pair_rank a (b ∷ c ∷ ss) = rank_of enc (slice piece a c)

  abbrev pub annotate : List ℕ → List Part
  annotate [] = []
  annotate (a ∷ ss) = record { start = a; rank = pair_rank a ss } ∷ annotate ss

  pub length-annotate : (ss : List ℕ) → length (annotate ss) ≡ length ss
  length-annotate [] = refl
  length-annotate (a ∷ ss) = ap suc (length-annotate ss)

  get_rank_head :
      (a b c : ℕ) (ss : List ℕ) (r : ℕ)
      → get_rank enc piece (record { start = a; rank = r } ∷ annotate (b ∷ c ∷ ss)) 0
        ≡ pair_rank a (c ∷ ss)
  unfolding get_rank
  get_rank_head a b c [] r = ground arith
  get_rank_head a b c (d ∷ ss) r = ground arith

  -- A shift of the index by one part.
  get_rank-suc :
      (p : Part) (parts : List Part) (i : ℕ)
      → get_rank enc piece (p ∷ parts) (suc i) ≡ get_rank enc piece parts i
  unfolding get_rank
  get_rank-suc p parts i = ground arith

  -- With its `if` taken: parts `i` and `i+1` get new ranks, then part `i+2` goes.
  merge_at_pos :
      (parts : List Part) (i : ℕ)
      → merge_at enc piece parts (suc i) ≡ (
          let before = set_rank parts i (get_rank enc piece parts i) in
          erase_at (suc (suc i)) (set_rank before (suc i) (get_rank enc piece before (suc i))))
  unfolding merge_at
  merge_at_pos parts i =
      let e : suc i - 1 ≡ i = omega arith in rw (e, lt→ltb 0 (suc i) (omega arith))

  merge_at-suc :
      (p : Part) (parts : List Part) (i : ℕ)
      → merge_at enc piece (p ∷ parts) (suc (suc i)) ≡ p ∷ merge_at enc piece parts (suc i)
  merge_at-suc p parts i =
      rw (merge_at_pos, merge_at_pos) (unfold set_rank in rw (get_rank-suc, get_rank-suc))

  -- Merging in annotated parts gives the annotated parts without the merged start.
  pub merge_at-annotate :
      (ss : List ℕ) (i : ℕ)
      → i + 2 < length ss
      → merge_at enc piece (annotate ss) i ≡ annotate (erase_at (suc i) ss)
  merge_at-annotate [] i h = absurd (omega arith)
  merge_at-annotate (a ∷ []) i h = absurd (omega arith)
  merge_at-annotate (a ∷ b ∷ []) i h = absurd (omega arith)
  merge_at-annotate (a ∷ b ∷ c ∷ ss) zero h =
      unfold merge_at set_rank in rw (get_rank_head a b c ss _)
  merge_at-annotate (a ∷ b ∷ c ∷ []) (suc zero) h = absurd (omega arith)
  merge_at-annotate (a ∷ b ∷ c ∷ d ∷ ss) (suc zero) h =
      unfold merge_at set_rank in
      rw (get_rank_head a b c (d ∷ ss) _, get_rank-suc) (rw (get_rank_head b c d ss _))
  merge_at-annotate (a ∷ b ∷ c ∷ ss) (suc (suc i)) h =
      rw (merge_at-suc, merge_at-annotate (b ∷ c ∷ ss) (suc i) (omega arith))
