-- ===== src/Tokenizer/Store/Arena.antt =====
-- tokenizer/decoder_store_arena.go: the store of the build with arenas, one blob and its offsets.
pub mod Blob
pub mod Lengths
pub mod Read
use harmony_go.Prelude.{
  ℕ, zero, suc, ◌+◌, ◌-◌, ◌%◌, ◌^◌, List, [], ◌∷◌, ◌++◌, Option, none, some, Bytes, ltb, leb, ◌==◌,
  if◌then◌else◌, length, get_or, true, false, Bool, ◌≡◌, ◌≤◌, ◌<◌, refl, sym, ap, ◌∙◌, All, arith,
  Bool-cases, Option-cases, inl, inr, append_assoc, append-nil, take_all, take-append_length,
  drop-add, drop-append_length, length-append, length-drop, set, take, drop, replicate, slice,
}
use harmony_go.Tokenizer.Store.{Pairs, TokenStore, max_id, first_bytes}

-- The offsets are of 32 bits.
abbrev pub as_u32 : ℕ → ℕ
as_u32 n = n % 2 ^ 32

-- The length of the first bytes that are not empty, for each id, and the sum of these lengths.
unfoldable pub fill_lens : Pairs → List ℕ → ℕ → List ℕ × ℕ
fill_lens [] lens total = (lens, total)
fill_lens ((b, id) ∷ pairs) lens total = elim (get_or lens id 0 == 0) [
  | true ↦ fill_lens pairs (set lens id (as_u32 (length b))) (total + length b)
  | false ↦ fill_lens pairs lens total
]

-- `copy(blob[pos:pos+n], b)`
unfoldable pub copy_at : Bytes → ℕ → ℕ → Bytes → Bytes
copy_at blob pos n b = take pos blob ++ take n b ++ drop (pos + length (take n b)) blob

-- The bytes of the id, found in the second pass; there are some where `n` is positive.
unfoldable pub copy_id : Pairs → ℕ → ℕ → ℕ → Bytes → Bytes
copy_id pairs i pos n blob = elim (first_bytes i pairs) [
  | none ↦ blob
  | some b ↦ copy_at blob pos n b
]

-- The loop over the ids, with the offsets written so far; the last one stands behind them.
unfoldable pub fill_blob : Pairs → List ℕ → ℕ → ℕ → Bytes → List ℕ → Bytes × List ℕ
fill_blob pairs [] i pos blob off = (blob, off ++ as_u32 pos ∷ [])
fill_blob pairs (n ∷ lens) i pos blob off =
    fill_blob pairs lens (suc i) (pos + n) (if ltb 0 n then copy_id pairs i pos n blob else blob)
      (off ++ as_u32 pos ∷ [])

pub record ArenaStore : Type 0 where
  pub blob : Bytes
  pub off : List ℕ

unfoldable pub new_arena_store : Pairs → ArenaStore
new_arena_store pairs =
    let (lens, total) = fill_lens pairs (replicate (max_id pairs 0 + 1) 0) 0 in
    let (blob, off) = fill_blob pairs lens 0 0 (replicate total 0) [] in
    record { blob = blob; off = off }

unfoldable pub arena_append_into : ArenaStore → Bytes → ℕ → Option Bytes
arena_append_into store dst id =
    if leb (length store.off - 1) id
    then none
    else (let a = get_or store.off id 0 in
        let b = get_or store.off (suc id) 0 in
        if a == b then none else some (dst ++ slice store.blob a b))

unfoldable pub arena_token_store : Pairs → TokenStore
arena_token_store pairs = record { append_into = arena_append_into (new_arena_store pairs) }
