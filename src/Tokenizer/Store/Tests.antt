-- ===== src/Tokenizer/Store/Tests.antt =====
-- The two stores over pairs that leave a gap.
use harmony_go.Prelude.{arith, ◌≡◌, refl, [], ◌∷◌, ◌++◌, none, some, codes}
use harmony_go.Tokenizer.Store.{
  Pairs, first_bytes, max_id, put_first, fill, new_heap_store, heap_append_into, heap_token_store,
}
use harmony_go.Tokenizer.Store.Arena.{
  arena_token_store, arena_append_into, new_arena_store, fill_lens, fill_blob, copy_id, copy_at,
}
use harmony_go.Tokenizer.Store.Arena.Read.{arena_token_store-Reads}
use harmony_go.Tokenizer.Store.Lookup.{heap_token_store-Reads}

abbrev gap : Pairs
gap = (codes "x", 0) ∷ (codes "yz", 3) ∷ (codes "w", 3) ∷ []

reads_first : (heap_token_store gap).append_into (codes "a") 3 ≡ some (codes "ayz")
unfolding heap_token_store heap_append_into new_heap_store fill put_first max_id
reads_first = refl

reads_gap : (heap_token_store gap).append_into (codes "a") 2 ≡ none
unfolding heap_token_store heap_append_into new_heap_store fill put_first max_id
reads_gap = refl

heap_token_store-Reads_example :
    (heap_token_store gap).append_into (codes "a") 3
    ≡ elim (first_bytes 3 gap) [ none ↦ none | some b ↦ some (codes "a" ++ b) ]
heap_token_store-Reads_example = heap_token_store-Reads gap (codes "a") 3

arena_reads_first : (arena_token_store gap).append_into (codes "a") 3 ≡ some (codes "ayz")
unfolding arena_token_store arena_append_into new_arena_store fill_lens fill_blob copy_id copy_at
    first_bytes max_id
arena_reads_first = refl

arena_token_store-Reads_example :
    (arena_token_store gap).append_into (codes "a") 3
    ≡ elim (first_bytes 3 gap) [ none ↦ none | some b ↦ some (codes "a" ++ b) ]
arena_token_store-Reads_example =
    arena_token_store-Reads gap (omega arith, (omega arith, (omega arith, tt))) (omega arith)
      (codes "a") 3
