-- ===== src/Tokenizer/Bpe/Encode.antt =====
-- `bytePairEncode` against the reference: its tokens are those of the merged segments.
use harmony_go.Prelude.{
  ℕ, zero, suc, ◌+◌, ◌-◌, ◌<◌, ◌≤◌, ◌≡◌, refl, List, [], ◌∷◌, ◌++◌, some, Bytes, length, drop,
  slice, ◌==◌, false, arith, ap, map, sym, ◌∙◌, append_assoc,
}
use harmony_go.Tokenizer.Bpe.{
  Encoder, Part, MinRank, max_rank, no_min, rank_of, id_of, lower, min_scan, init_parts, merge_loop,
  byte_pair_merge, byte_pair_encode,
}
use harmony_go.Tokenizer.Bpe.Annotate.{annotate, length-annotate}
use harmony_go.Tokenizer.Bpe.Reference.{bpe_segments}
use harmony_go.Tokenizer.Bpe.Merge.{
  starts_from, Ascends-starts_from, segments, lower_le, lower_max, part_ids-annotate,
  merge_loop-annotate, min_scan-annotate,
}

map-drop_one :
    (s : Bytes) (i : ℕ)
    → i < length s
    → map (λ b. b ∷ []) (drop i s) ≡ slice s i (suc i) ∷ map (λ b. b ∷ []) (drop (suc i) s)
map-drop_one [] i h = absurd (omega arith)
map-drop_one (x ∷ xs) zero h = refl
map-drop_one (x ∷ xs) (suc i) h =
    let e : suc (suc i) - suc i ≡ suc i - i = omega arith in rw e (map-drop_one xs i (omega arith))

length-starts_from : (i k : ℕ) → length (starts_from i k) ≡ k
length-starts_from i zero = refl
length-starts_from i (suc k) = ap suc (length-starts_from (suc i) k)

map-drop_end : (s : Bytes) (i : ℕ) → length s ≤ i → map (λ b. b ∷ []) (drop i s) ≡ []
map-drop_end [] zero h = refl
map-drop_end [] (suc i) h = refl
map-drop_end (x ∷ xs) zero h = absurd (omega arith)
map-drop_end (x ∷ xs) (suc i) h = map-drop_end xs i (omega arith)

-- The two parts that close the list.
abbrev closing : ℕ → List Part
closing n = record { start = n - 1; rank = max_rank } ∷ record { start = n; rank = max_rank } ∷ []

module _ (enc : Encoder) (piece : Bytes) where
  -- One segment for each byte.
  segments-starts_from :
      (i k : ℕ)
      → i + k ≡ length piece
      → segments enc piece (starts_from i (suc k)) ≡ map (λ b. b ∷ []) (drop i piece)
  segments-starts_from i zero e = sym (map-drop_end piece i (omega arith))
  segments-starts_from i (suc k) e =
      rw (map-drop_one piece i (omega arith))
        (ap (λ t. slice piece i (suc i) ∷ t) (segments-starts_from (suc i) k (omega arith)))

  init_parts_round :
      (k i : ℕ) (parts : List Part) (m : MinRank)
      → init_parts enc piece (suc k) i parts m ≡ (
          let r = rank_of enc (slice piece i (suc (suc i))) in
          init_parts enc piece k
            (suc i)
            (parts ++ record { start = i; rank = r } ∷ [])
            (lower r i m))
  init_parts_round k i parts m =
      let e : i + 2 ≡ suc (suc i) = omega arith in
      unfold init_parts in
      ap
        (λ t.
          let r = rank_of enc (slice piece i t) in
          init_parts enc piece k (suc i) (parts ++ record { start = i; rank = r } ∷ [])
            (lower r i m))
        e

  -- The first loop leaves the parts of all starts, and the result of a scan of them.
  init_parts-annotate :
      (k i : ℕ) (parts : List Part) (m : MinRank)
      → i + k + 1 ≡ length piece
      → m.rank ≤ max_rank
      → ((init_parts enc piece k i parts m).0 ++ closing (length piece)
          ≡ parts ++ annotate enc piece (starts_from i (suc (suc k))))
        × ((init_parts enc piece k i parts m).1
            ≡ min_scan i (annotate enc piece (starts_from i (suc (suc k)))) m)
  unfolding min_scan
  init_parts-annotate zero i parts m e le =
      let e1 : length piece - 1 ≡ i = omega arith in
      let e2 : length piece ≡ suc i = omega arith in
      unfold init_parts in (rw (e1, e2), sym (lower_max i m le))
  init_parts-annotate (suc k) i parts m e le =
      let r = rank_of enc (slice piece i (suc (suc i))) in
      let ih =
        init_parts-annotate k (suc i) (parts ++ record { start = i; rank = r } ∷ []) (lower r i m)
          (omega arith) (omega (arith, lower_le r i m)) in
      (rw init_parts_round (ih.0 ∙ append_assoc parts _ _), rw init_parts_round ih.1)

byte_pair_merge_start :
    (enc : Encoder) (b : ℕ) (s : Bytes)
    → byte_pair_merge enc (b ∷ s) ≡ (
        let (parts, m) = init_parts enc (b ∷ s) (length s) 0 [] no_min in
        let all = parts ++ closing (length (b ∷ s)) in merge_loop enc (b ∷ s) (length all) all m)
unfolding byte_pair_merge
byte_pair_merge_start enc b s =
    let e : length (b ∷ s) - 1 ≡ length s = omega arith in
    ap
      (λ k.
        let (parts, m) = init_parts enc (b ∷ s) k 0 [] no_min in
        let all = parts ++ closing (length (b ∷ s)) in merge_loop enc (b ∷ s) (length all) all m)
      e

-- The merge loop ends, at parts whose segments are those of the reference.
byte_pair_merge-segments :
    (enc : Encoder) (b : ℕ) (s : Bytes)
    → (ss : List ℕ) × (byte_pair_merge enc (b ∷ s) ≡ some (annotate enc (b ∷ s) ss))
      × (segments enc (b ∷ s) ss ≡ bpe_segments enc (b ∷ s))
byte_pair_merge-segments enc b s =
    let piece = b ∷ s in
    let n = length s in
    let (all, least) = init_parts-annotate enc piece n 0 [] no_min (omega arith) (omega arith) in
    let start = starts_from 0 (suc (suc n)) in
    let scanned =
      min_scan-annotate enc piece 0 start no_min (Ascends-starts_from 0 (suc (suc n)))
        (omega arith) in
    let (ss, merged, same) =
      merge_loop-annotate enc piece (suc n) 0 (starts_from 1 (suc n))
        (Ascends-starts_from 0 (suc (suc n))) (omega (arith, length-starts_from 1 (suc n))) in
    (
      ss,
      rw (byte_pair_merge_start, all, least, scanned)
          (rw (length-annotate enc piece start, length-starts_from) merged),
      same
          ∙ (rw (segments-starts_from enc piece 0 (suc n) (omega arith))
              (unfold bpe_segments in refl)),
    )

byte_pair_encode_many :
    (enc : Encoder) (b c : ℕ) (s : Bytes)
    → byte_pair_encode enc (b ∷ c ∷ s) ≡ some (map (id_of enc) (bpe_segments enc (b ∷ c ∷ s)))
byte_pair_encode_many enc b c s =
    let (ss, merged, same) = byte_pair_merge-segments enc b (c ∷ s) in
    let many : (length (b ∷ c ∷ s) == 1) ≡ false = ground arith in
    unfold byte_pair_encode in
    rw (many, merged) (ap some (part_ids-annotate enc (b ∷ c ∷ s) ss ∙ ap (map (id_of enc)) same))

-- On a piece that is not empty `bytePairEncode` returns, and its tokens are those of the segments
-- that the reference makes: single bytes, in which the leftmost adjacent pair of lowest rank is
-- joined until no adjacent pair is in the vocabulary.
pub byte_pair_encode-reference :
    (enc : Encoder) (piece : Bytes)
    → 0 < length piece
    → byte_pair_encode enc piece ≡ some (map (id_of enc) (bpe_segments enc piece))
byte_pair_encode-reference enc [] h = absurd (omega arith)
byte_pair_encode-reference enc (b ∷ []) h = unfold byte_pair_encode bpe_segments in refl
byte_pair_encode-reference enc (b ∷ c ∷ s) h = byte_pair_encode_many enc b c s
