-- ===== src/Tokenizer/Store/Lookup.antt =====
-- The heap store keeps the promise of the interface.
use harmony_go.Prelude.{
  ℕ, zero, suc, ◌+◌, ◌≤◌, ◌<◌, ◌≡◌, refl, List, [], ◌∷◌, ◌++◌, Option, none, some, Bytes, ltb, leb,
  ◌==◌, if◌then◌else◌, length, get_or, set, replicate, arith, Bool-cases, Option-cases, inl, inr,
  length-set, length-replicate,
}
use harmony_go.Tokenizer.Store.{
  Pairs, first_bytes, Reads, max_id, put_first, fill, new_heap_store, heap_append_into,
  heap_token_store, HeapStore,
}

-- Every id of the pairs is at most `m`.
abbrev pub Below : Pairs → ℕ → Type 0
Below [] m = Unit
Below ((b, id) ∷ pairs) m = (id ≤ m) × Below pairs m

max_id_le : (pairs : Pairs) (m : ℕ) → m ≤ max_id pairs m
unfolding max_id
max_id_le [] m = omega arith
max_id_le ((b, id) ∷ pairs) m = ground (arith, max_id_le pairs id, max_id_le pairs m)

pub max_id-Below : (pairs : Pairs) (m : ℕ) → Below pairs (max_id pairs m)
unfolding max_id
max_id-Below [] m = tt
max_id-Below ((b, id) ∷ pairs) m =
    let m' = if ltb m id then id else m in
    let le : id ≤ m' = ground arith in (omega (arith, max_id_le pairs m'), max_id-Below pairs m')

get_or-set :
    (xs : List (Option Bytes)) (i j : ℕ) (v : Option Bytes)
    → i < length xs
    → get_or (set xs i v) j none ≡ (if i == j then v else get_or xs j none)
get_or-set [] i j v h = absurd (omega arith)
get_or-set (x ∷ xs) zero zero v h = refl
get_or-set (x ∷ xs) zero (suc j) v h = ground arith
get_or-set (x ∷ xs) (suc i) zero v h = ground arith
get_or-set (x ∷ xs) (suc i) (suc j) v h = ground (arith, get_or-set xs i j v)

get_or-replicate : (n i : ℕ) → get_or {A = Option Bytes} (replicate n none) i none ≡ none
get_or-replicate zero i = refl
get_or-replicate (suc n) zero = refl
get_or-replicate (suc n) (suc i) = get_or-replicate n i

get_or_outside : (xs : List (Option Bytes)) (i : ℕ) → length xs ≤ i → get_or xs i none ≡ none
get_or_outside [] i h = refl
get_or_outside (x ∷ xs) zero h = absurd (omega arith)
get_or_outside (x ∷ xs) (suc i) h = get_or_outside xs i (omega arith)

-- A slot that is filled stays; an empty one gets the first bytes of its id.
abbrev keep : Option Bytes → Option Bytes → Option Bytes
keep none y = y
keep (some b) y = some b

length-put_first :
    (tmp : List (Option Bytes)) (id : ℕ) (b : Bytes) → length (put_first tmp id b) ≡ length tmp
length-put_first tmp id b = elim (Option-cases (get_or tmp id none)) [
  | inl e ↦ unfold put_first in rw (e, put_first) (length-set tmp id (some b))
  | inr (c, e) ↦ unfold put_first in rw (e, put_first)
]

get_or-put_first :
    (tmp : List (Option Bytes)) (id : ℕ) (b : Bytes) (i : ℕ)
    → id < length tmp
    → get_or (put_first tmp id b) i none
      ≡ keep (get_or tmp i none) (if id == i then some b else none)
get_or-put_first tmp id b i lt = elim (Option-cases (get_or tmp id none)) [
  | inl e ↦
      unfold put_first in rw (e, put_first) (rw (get_or-set tmp id i (some b) lt) (ground arith))
  | inr (c, e) ↦ unfold put_first in rw (e, put_first) (ground arith)
]

get_or-fill :
    (pairs : Pairs) (tmp : List (Option Bytes)) (i : ℕ) (m : ℕ)
    → Below pairs m
    → m < length tmp
    → get_or (fill pairs tmp) i none ≡ keep (get_or tmp i none) (first_bytes i pairs)
unfolding fill first_bytes
get_or-fill [] tmp i m h lt = ground arith
get_or-fill ((b, id) ∷ pairs) tmp i m (hid, h) lt =
    rw
      (
        get_or-fill pairs (put_first tmp id b) i m h (omega (arith, length-put_first tmp id b)),
        get_or-put_first tmp id b i (omega arith),
      )
      (ground arith)

length-fill : (pairs : Pairs) (tmp : List (Option Bytes)) → length (fill pairs tmp) ≡ length tmp
unfolding fill
length-fill [] tmp = refl
length-fill ((b, id) ∷ pairs) tmp =
    omega (arith, length-fill pairs (put_first tmp id b), length-put_first tmp id b)

-- The test of the length is needed for the slice only: past its end there is no text.
heap_append_into_lem :
    (store : HeapStore) (dst : Bytes) (id : ℕ)
    → heap_append_into store dst id
      ≡ elim (get_or store.arr id none) [ none ↦ none | some b ↦ some (dst ++ b) ]
unfolding heap_append_into
heap_append_into_lem store dst id = elim (Bool-cases (leb (length store.arr) id)) [
  | inl past ↦ rw (past, get_or_outside store.arr id (ground arith))
  | inr inside ↦ rw inside
]

get_or-new_heap_store :
    (pairs : Pairs) (id : ℕ) → get_or (new_heap_store pairs).arr id none ≡ first_bytes id pairs
get_or-new_heap_store pairs id =
    let m = max_id pairs 0 in
    let room : m < length (replicate {A = Option Bytes} (m + 1) none) =
      omega (arith, length-replicate {A = Option Bytes} (m + 1) none) in
    unfold new_heap_store in
    rw (get_or-fill pairs _ id m (max_id-Below pairs 0) room, get_or-replicate (m + 1) id)

-- The heap store reads an id as the bytes of the first pair that has it, and no other id.
pub heap_token_store-Reads : (pairs : Pairs) → Reads pairs (heap_token_store pairs)
unfolding heap_token_store
heap_token_store-Reads pairs dst id = rw (heap_append_into_lem, get_or-new_heap_store)
