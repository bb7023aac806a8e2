-- ===== src/Tokenizer/Bpe.antt =====
-- tokenizer/bpe.go: `part`, `getRank`, `bytePairMerge` and `bytePairEncode`, the merge loop over one
-- piece of text. The slices that the pools hand out start empty, so the pools have no state here.
pub mod Annotate
pub mod Reference
pub mod Merge
pub mod Encode
pub mod Lowest
pub mod Vocabulary
pub mod Tests
use harmony_go.Prelude.{
  ℕ, zero, suc, ◌+◌, ◌-◌, ◌^◌, List, [], ◌∷◌, ◌++◌, Option, none, some, Bytes, Map, lookup,
  bytes_eq, ltb, ◌==◌, if◌then◌else◌, length, get_or, set, take, drop, slice,
}

-- `^uint32(0)`, the rank of a pair that is not in the vocabulary.
abbrev pub max_rank : ℕ
max_rank = 2 ^ 32 - 1

abbrev pub Encoder : Type 0
Encoder = Map Bytes ℕ

pub record Part : Type 0 where
  pub start : ℕ
  pub rank : ℕ

-- `minRank`. Go starts `idx` at -1 and never reads it while `rank` is `max_rank`.
pub record MinRank : Type 0 where
  pub rank : ℕ
  pub idx : ℕ

abbrev pub no_min : MinRank
no_min = record { rank = max_rank; idx = 0 }

abbrev pub absent : Part
absent = record { start = 0; rank = max_rank }

-- `if r, ok := b.enc[key]; ok { r } else { ^uint32(0) }`
unfoldable pub rank_of : Encoder → Bytes → ℕ
rank_of enc key = elim (lookup bytes_eq key enc) [ none ↦ max_rank | some r ↦ r ]

-- `b.enc[key]`, which is zero for a missing key.
unfoldable pub id_of : Encoder → Bytes → ℕ
id_of enc key = elim (lookup bytes_eq key enc) [ none ↦ 0 | some r ↦ r ]

-- `if r < minRank.rank { minRank = {r, i} }`
unfoldable pub lower : ℕ → ℕ → MinRank → MinRank
lower r i m = if ltb r m.rank then record { rank = r; idx = i } else m

-- The loop over `j < len(parts)-1`.
unfoldable pub min_scan : ℕ → List Part → MinRank → MinRank
unfolding lower
min_scan j [] m = m
min_scan j (p ∷ []) m = m
min_scan j (p ∷ q ∷ r) m = min_scan (suc j) (q ∷ r) (lower p.rank j m)

-- `parts[i].rank = r`
pub set_rank : List Part → ℕ → ℕ → List Part
set_rank parts i r = set parts i (record (get_or parts i absent) { rank = r })

module _ (enc : Encoder) (piece : Bytes) where
  pub get_rank : List Part → ℕ → ℕ
  unfolding rank_of
  get_rank parts i =
      if ltb (suc (suc (suc i))) (length parts)
      then rank_of enc (
          slice piece (get_or parts i absent).start (get_or parts (suc (suc (suc i))) absent).start)
      else max_rank

  -- The first loop of `bytePairMerge`, with the rounds left, `i`, `parts` and `minRank`.
  pub init_parts : ℕ → ℕ → List Part → MinRank → List Part × MinRank
  unfolding rank_of lower
  init_parts zero i parts m = (parts, m)
  init_parts (suc k) i parts m =
      let r = rank_of enc (slice piece i (i + 2)) in
      init_parts k (suc i) (parts ++ record { start = i; rank = r } ∷ []) (lower r i m)

  -- The update of the ranks around `i` and the removal of part `i+1`.
  pub merge_at : List Part → ℕ → List Part
  merge_at parts i =
      let before = if ltb 0 i then set_rank parts (i - 1) (get_rank parts (i - 1)) else parts in
      let here = set_rank before i (get_rank before i) in
      take (suc i) here ++ drop (suc (suc i)) here

  -- `for minRank.rank != ^uint32(0) { … }`; `none` means that the fuel ran out.
  pub merge_loop : ℕ → List Part → MinRank → Option (List Part)
  merge_loop zero parts m = none
  merge_loop (suc fuel) parts m =
      let next = merge_at parts m.idx in
      let rest = merge_loop fuel next (min_scan 0 next no_min) in
      if m.rank == max_rank then some parts else rest

  -- The two closing parts, at `len(piece)-1` and `len(piece)`, and the loops of the whole function.
  pub byte_pair_merge : Option (List Part)
  unfolding init_parts merge_loop merge_at get_rank set_rank min_scan
  byte_pair_merge =
      let (parts, m) = init_parts (length piece - 1) 0 [] no_min in
      let all =
        parts
        ++ record { start = length piece - 1; rank = max_rank }
          ∷ record { start = length piece; rank = max_rank }
          ∷ [] in
      merge_loop (length all) all m

  -- The loop of `bytePairEncode` over the merged parts.
  pub part_ids : List Part → List ℕ
  unfolding id_of
  part_ids [] = []
  part_ids (p ∷ []) = []
  part_ids (p ∷ q ∷ r) = id_of enc (slice piece p.start q.start) ∷ part_ids (q ∷ r)

  unfoldable pub byte_pair_encode : Option (List ℕ)
  unfolding byte_pair_merge part_ids id_of
  byte_pair_encode =
      if length piece == 1
      then some (id_of enc piece ∷ [])
      else elim byte_pair_merge [ none ↦ none | some parts ↦ some (part_ids parts) ]
