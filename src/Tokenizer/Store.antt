-- ===== src/Tokenizer/Store.antt =====
-- tokenizer/decoder_store_iface.go and decoder_store_heap.go: the store of token texts by id; the
-- arena store is in Arena.
pub mod Lookup
pub mod Arena
pub mod Tests
use harmony_go.Prelude.{
  ℕ, suc, ◌+◌, List, [], ◌∷◌, ◌++◌, Option, none, some, Bytes, ltb, leb, ◌==◌, if◌then◌else◌,
  length, get_or, set, replicate, ◌≡◌, ◌≢◌, All,
}

-- The pairs of a token's bytes and its rank, as `LoadO200k` returns them.
abbrev pub Pairs : Type 0
Pairs = List (Bytes × ℕ)

-- The Go interface `tokenStore`. `append_into dst id` is the text of `*dst` after a call that
-- returned true, and `none` after one that returned false, which leaves `*dst` as it was.
pub record TokenStore : Type 0 where
  pub append_into : Bytes → ℕ → Option Bytes

-- The first pair of the id.
unfoldable pub first_bytes : ℕ → Pairs → Option Bytes
first_bytes id [] = none
first_bytes id ((b, r) ∷ pairs) = if r == id then some b else first_bytes id pairs

-- What a store made from the pairs promises: an id is read as the bytes of its first pair.
abbrev pub Reads : Pairs → TokenStore → Type 0
Reads pairs store =
    (dst : Bytes) (id : ℕ)
    → store.append_into dst id
      ≡ elim (first_bytes id pairs) [ none ↦ none | some b ↦ some (dst ++ b) ]

-- The loop that finds the greatest id.
unfoldable pub max_id : Pairs → ℕ → ℕ
max_id [] m = m
max_id ((b, id) ∷ pairs) m = max_id pairs (if ltb m id then id else m)

-- The slice of byte slices; `none` is a nil slice.
pub record HeapStore : Type 0 where
  pub arr : List (Option Bytes)

-- `if tmp[int(id)] == nil { tmp[int(id)] = b }`
unfoldable pub put_first : List (Option Bytes) → ℕ → Bytes → List (Option Bytes)
put_first tmp id b = elim (get_or tmp id none) [ none ↦ set tmp id (some b) | some _ ↦ tmp ]

unfoldable pub fill : Pairs → List (Option Bytes) → List (Option Bytes)
fill [] tmp = tmp
fill ((b, id) ∷ pairs) tmp = fill pairs (put_first tmp id b)

unfoldable pub new_heap_store : Pairs → HeapStore
new_heap_store pairs = record { arr = fill pairs (replicate (max_id pairs 0 + 1) none) }

unfoldable pub heap_append_into : HeapStore → Bytes → ℕ → Option Bytes
heap_append_into store dst id =
    if leb (length store.arr) id
    then none
    else elim (get_or store.arr id none) [ none ↦ none | some b ↦ some (dst ++ b) ]

-- `newTokenStore` of the build without arenas.
unfoldable pub heap_token_store : Pairs → TokenStore
heap_token_store pairs = record { append_into = heap_append_into (new_heap_store pairs) }
