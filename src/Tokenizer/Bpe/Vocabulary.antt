-- ===== src/Tokenizer/Bpe/Vocabulary.antt =====
-- The merged segments spell the piece, lie in the vocabulary, and leave no pair to join.
use harmony_go.Prelude.{
  ℕ, zero, suc, ◌<◌, ◌≤◌, ◌≡◌, refl, List, [], ◌∷◌, ◌++◌, some, Bytes, length, arith, inl, inr,
  Bool-cases, ◌==◌, false, map, lookup, bytes_eq, All, concat, ap, ◌∙◌,
}
use harmony_go.Tokenizer.Bpe.{Encoder, max_rank, rank_of, id_of, byte_pair_encode}
use harmony_go.Tokenizer.Bpe.Reference.{
  join_at, best_pair, best, merge_pairs, bpe_segments, length-join_at, best_idx, concat-join_at,
}
use harmony_go.Tokenizer.Bpe.Lowest.{pair_at, best-IsFirst, best-le-rank}
use harmony_go.Tokenizer.Bpe.Encode.{byte_pair_encode-reference}

concat-singles : (s : Bytes) → concat (map (λ b. b ∷ []) s) ≡ s
concat-singles [] = refl
concat-singles (b ∷ s) = ap (λ t. b ∷ t) (concat-singles s)

module _ (enc : Encoder) where
  -- The text is a key of the vocabulary.
  abbrev pub Known : Bytes → Type 0
  Known key = (r : ℕ) × (lookup bytes_eq key enc ≡ some r)

  Known-of_rank : (key : Bytes) → rank_of enc key < max_rank → Known key
  unfolding rank_of
  Known-of_rank key h = ground arith

  join_at-Known :
      (k : ℕ) (segs : List Bytes) (p : Bytes)
      → All Known segs
      → pair_at segs k ≡ some p
      → Known p
      → All Known (join_at k segs)
  unfolding join_at
  join_at-Known k [] p hs e hp = tt
  join_at-Known k (x ∷ []) p hs e hp = hs
  join_at-Known zero (x ∷ y ∷ r) p (hx, (hy, hr)) e hp = let e' : x ++ y ≡ p = cc in (rw e' hp, hr)
  join_at-Known (suc k) (x ∷ y ∷ r) p (hx, hs) e hp = (hx, join_at-Known k (y ∷ r) p hs e hp)

  best-Known :
      (segs : List Bytes)
      → ((best enc segs).rank == max_rank) ≡ false
      → All Known segs
      → All Known (join_at (best enc segs).idx segs)
  best-Known segs more hs =
      let f = (best-IsFirst enc segs more).0 in
      let below = f.below in
      let e : (best enc segs).idx ≡ f.place = (let e' = f.idx_eq in omega arith) in
      rw e (
        join_at-Known f.place segs f.text hs f.at_place
          (Known-of_rank f.text (rw (← f.rank_eq) below)))

  merge_pairs-Known :
      (fuel : ℕ) (segs : List Bytes) → All Known segs → All Known (merge_pairs enc fuel segs)
  unfolding merge_pairs
  merge_pairs-Known zero segs hs = hs
  merge_pairs-Known (suc fuel) segs hs = elim (Bool-cases ((best enc segs).rank == max_rank)) [
    | inl done ↦ rw done hs
    | inr more ↦
        rw more
          (merge_pairs-Known fuel (join_at (best enc segs).idx segs) (best-Known segs more hs))
  ]

  concat-merge_pairs :
      (fuel : ℕ) (segs : List Bytes) → concat (merge_pairs enc fuel segs) ≡ concat segs
  unfolding merge_pairs
  concat-merge_pairs zero segs = refl
  concat-merge_pairs (suc fuel) segs = elim (Bool-cases ((best enc segs).rank == max_rank)) [
    | inl done ↦ rw done
    | inr more ↦ rw more (
        concat-merge_pairs fuel (join_at (best enc segs).idx segs)
        ∙ concat-join_at (best enc segs).idx segs)
  ]

  merge_pairs_final :
      (fuel : ℕ) (segs : List Bytes)
      → length segs ≤ fuel
      → (best enc (merge_pairs enc fuel segs)).rank ≡ max_rank
  unfolding merge_pairs
  merge_pairs_final zero [] h = unfold best_pair in refl
  merge_pairs_final zero (x ∷ r) h = absurd (omega arith)
  merge_pairs_final (suc fuel) segs h = elim (Bool-cases ((best enc segs).rank == max_rank)) [
    | inl done ↦ rw done (ground arith)
    | inr more ↦ rw more (
        merge_pairs_final fuel (join_at (best enc segs).idx segs)
          (omega (arith, length-join_at (best enc segs).idx segs (best_idx enc segs more))))
  ]

  pub concat-bpe_segments : (piece : Bytes) → concat (bpe_segments enc piece) ≡ piece
  unfolding bpe_segments
  concat-bpe_segments piece = concat-merge_pairs (length piece) _ ∙ concat-singles piece

  singles-Known : (s : Bytes) → All (λ b. Known (b ∷ [])) s → All Known (map (λ b. b ∷ []) s)
  singles-Known [] h = tt
  singles-Known (b ∷ s) (hb, hs) = (hb, singles-Known s hs)

  pub bpe_segments-Known :
      (piece : Bytes) → All (λ b. Known (b ∷ [])) piece → All Known (bpe_segments enc piece)
  unfolding bpe_segments
  bpe_segments-Known piece h = merge_pairs-Known (length piece) _ (singles-Known piece h)

  length-singles : (s : Bytes) → length (map (λ b. b ∷ []) s) ≡ length s
  length-singles [] = refl
  length-singles (b ∷ s) = ap suc (length-singles s)

  pub bpe_segments_final : (piece : Bytes) → (best enc (bpe_segments enc piece)).rank ≡ max_rank
  unfolding bpe_segments
  bpe_segments_final piece =
      merge_pairs_final (length piece) (map (λ b. b ∷ []) piece)
        (omega (arith, length-singles piece))

  -- On a piece that is not empty and whose bytes are in the vocabulary, `bytePairEncode` returns the
  -- ids of texts that spell the piece, are all keys of the vocabulary, and are such that no two
  -- adjacent ones join to a text of rank below the greatest.
  pub byte_pair_encode-spells :
      (piece : Bytes)
      → 0 < length piece
      → All (λ b. Known (b ∷ [])) piece
      → (segs : List Bytes) × (byte_pair_encode enc piece ≡ some (map (id_of enc) segs))
        × (concat segs ≡ piece)
        × All Known segs
        × ((i : ℕ) (q : Bytes) → pair_at segs i ≡ some q → max_rank ≤ rank_of enc q)
  byte_pair_encode-spells piece h known =
      let segs = bpe_segments enc piece in
      (
        segs,
        byte_pair_encode-reference enc piece h,
        concat-bpe_segments piece,
        bpe_segments-Known piece known,
        λ i q e. rw (← bpe_segments_final piece) (best-le-rank enc segs i q e),
      )
