-- ===== src/Tokenizer/Bpe/Tests.antt =====
-- Merges over a small vocabulary, and the theorems at them.
use harmony_go.Prelude.{
  ℕ, ◌≡◌, ◌≤◌, refl, List, [], ◌∷◌, some, map, Bytes, codes, concat, bytes_eq, All, arith,
}
use harmony_go.Tokenizer.Bpe.{Encoder, max_rank, rank_of, id_of, byte_pair_encode}
use harmony_go.Tokenizer.Bpe.Reference.{bpe_segments}
use harmony_go.Tokenizer.Bpe.Encode.{byte_pair_encode-reference}
use harmony_go.Tokenizer.Bpe.Lowest.{pair_at}
use harmony_go.Tokenizer.Bpe.Vocabulary.{Known, byte_pair_encode-spells}

abbrev small : Encoder
small =
    (codes "a", 0)
    ∷ (codes "b", 1)
    ∷ (codes "c", 2)
    ∷ (codes "bc", 3)
    ∷ (codes "ab", 4)
    ∷ (codes "abc", 5)
    ∷ []

-- `bc` has the lower rank, so `ab` is not joined; then `abc` is.
merges : byte_pair_encode small (codes "abca") ≡ some (5 ∷ 0 ∷ [])
unfolding byte_pair_encode bytes_eq
merges = refl

byte_pair_encode-reference_example :
    byte_pair_encode small (codes "abca")
    ≡ some (map (id_of small) (bpe_segments small (codes "abca")))
byte_pair_encode-reference_example = byte_pair_encode-reference small (codes "abca") (omega arith)

byte_pair_encode-spells_example :
    (segs : List Bytes) × (byte_pair_encode small (codes "abca") ≡ some (map (id_of small) segs))
    × (concat segs ≡ codes "abca")
    × All (Known small) segs
    × ((i : ℕ) (q : Bytes) → pair_at segs i ≡ some q → max_rank ≤ rank_of small q)
unfolding bytes_eq
byte_pair_encode-spells_example =
    byte_pair_encode-spells small (codes "abca") (omega arith)
      ((0, refl), ((1, refl), ((2, refl), ((0, refl), tt))))
