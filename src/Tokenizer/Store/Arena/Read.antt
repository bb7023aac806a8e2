-- ===== src/Tokenizer/Store/Arena/Read.antt =====
-- The arena store keeps the promise of the interface.
use harmony_go.Prelude.{
  ℕ, suc, ◌+◌, ◌-◌, ◌^◌, ◌<◌, ◌≡◌, refl, sym, ap, ◌∙◌, true, false, List, [], ◌∷◌, ◌++◌, none, some,
  Bytes, leb, ◌==◌, if◌then◌else◌, length, get_or, replicate, slice, All, arith, Bool-cases,
  Option-cases, inl, inr, length-replicate,
}
use harmony_go.Tokenizer.Store.{Pairs, Reads, max_id, first_bytes}
use harmony_go.Tokenizer.Store.Lookup.{Below, max_id-Below}
use harmony_go.Tokenizer.Store.Arena.{
  fill_lens, fill_blob, new_arena_store, arena_append_into, arena_token_store,
}
use harmony_go.Tokenizer.Store.Arena.Blob.{
  text_of, texts, offsets, sum, Fits, fill_blob-texts, slice-texts,
}
use harmony_go.Tokenizer.Store.Arena.Lengths.{
  pairs_size, Filled, fill_lens-Filled, sum-replicate, get_or-replicate_zero, Fits-of,
  length-offsets,
}

first_bytes_above : (pairs : Pairs) (m i : ℕ) → Below pairs m → m < i → first_bytes i pairs ≡ none
unfolding first_bytes
first_bytes_above [] m i below lt = refl
first_bytes_above ((b, id) ∷ pairs) m i (le, below) lt =
    let other : (id == i) ≡ false = ground arith in rw other (first_bytes_above pairs m i below lt)

first_bytes_full :
    (pairs : Pairs) (i : ℕ) (c : Bytes)
    → All (λ p. 0 < length p.0) pairs
    → first_bytes i pairs ≡ some c
    → 0 < length c
unfolding first_bytes
first_bytes_full [] i c full e = absurd (ground arith)
first_bytes_full ((b, id) ∷ pairs) i c (pos, full) e = elim (Bool-cases (id == i)) [
  | inl same ↦
      let eq : some b ≡ some c = rw (same, first_bytes) at e in
      let eq' : b ≡ c = ground arith in rw (← eq') pos
  | inr other ↦
      let rest : first_bytes i pairs ≡ some c = rw (other, first_bytes) at e in
      first_bytes_full pairs i c full rest
]

module _ (pairs : Pairs) (full : All (λ p. 0 < length p.0) pairs)
    (small : pairs_size pairs < 2 ^ 32) where
  abbrev start : List ℕ
  start = replicate (max_id pairs 0 + 1) 0

  abbrev lens : List ℕ
  lens = (fill_lens pairs start 0).0

  filled : Filled pairs start 0 (fill_lens pairs start 0)
  filled =
      fill_lens-Filled pairs start 0 (max_id pairs 0) (max_id-Below pairs 0)
        (omega (arith, length-replicate {A = ℕ} (max_id pairs 0 + 1) 0)) full small

  lens-Fits : Fits pairs lens 0
  lens-Fits =
      let f = filled in
      let each = f.each in
      Fits-of pairs lens 0 (λ j lt.
        let e : 0 + j ≡ j = omega arith in
        let zeros : (get_or start j 0 == 0) ≡ true =
          rw (get_or-replicate_zero (max_id pairs 0 + 1) j) in
        rw e (each j ∙ rw zeros))

  length-lens : length lens ≡ max_id pairs 0 + 1
  length-lens = let f = filled in f.same_length ∙ length-replicate {A = ℕ} (max_id pairs 0 + 1) 0

  sum-lens : sum lens ≡ (fill_lens pairs start 0).1
  sum-lens =
      let f = filled in let e = f.total_sum in omega (arith, sum-replicate (max_id pairs 0 + 1))

  sum-lens_small : sum lens < 2 ^ 32
  sum-lens_small =
      let f = filled in let e = f.sum_le in omega (arith, sum-replicate (max_id pairs 0 + 1))

  blob-texts :
      fill_blob pairs lens 0 0 (replicate (fill_lens pairs start 0).1 0) []
      ≡ (texts pairs lens 0, offsets lens 0)
  blob-texts =
      fill_blob-texts pairs lens 0 [] (replicate (fill_lens pairs start 0).1 0) [] lens-Fits
        (sum-lens ∙ sym (length-replicate {A = ℕ} (fill_lens pairs start 0).1 0))

  new_arena_store-off : (new_arena_store pairs).off ≡ offsets lens 0
  new_arena_store-off = unfold new_arena_store in ap (λ r. r.1) blob-texts

  new_arena_store-blob : (new_arena_store pairs).blob ≡ texts pairs lens 0
  new_arena_store-blob = unfold new_arena_store in ap (λ r. r.0) blob-texts

  -- Past the last offset there is no text.
  read_past :
      (dst : Bytes) (id : ℕ)
      → leb (length (new_arena_store pairs).off - 1) id ≡ true
      → arena_append_into (new_arena_store pairs) dst id ≡ none
  read_past dst id e = unfold arena_append_into in rw e

  read_inside :
      (dst : Bytes) (id a b : ℕ)
      → leb (length (new_arena_store pairs).off - 1) id ≡ false
      → get_or (new_arena_store pairs).off id 0 ≡ a
      → get_or (new_arena_store pairs).off (suc id) 0 ≡ b
      → arena_append_into (new_arena_store pairs) dst id
        ≡ (if a == b then none else some (dst ++ slice (new_arena_store pairs).blob a b))
  read_inside dst id a b e ea eb = unfold arena_append_into in rw (e, ea, eb)

  -- The slice of an id that has an offset.
  read_slice :
      (dst : Bytes) (id : ℕ)
      → id < length lens
      → leb (length (new_arena_store pairs).off - 1) id ≡ false
      → arena_append_into (new_arena_store pairs) dst id
        ≡ (if length (text_of pairs id) == 0 then none else some (dst ++ text_of pairs id))
  read_slice dst id lt inside =
      let off = new_arena_store-off in
      let blob = new_arena_store-blob in
      let a = get_or (offsets lens 0) id 0 in
      let b = get_or (offsets lens 0) (suc id) 0 in
      let none_before : length {A = ℕ} [] + sum lens < 2 ^ 32 = omega (arith, sum-lens_small) in
      let (wide, sliced) = slice-texts pairs lens 0 [] id lens-Fits none_before lt in
      let e : 0 + id ≡ id = omega arith in
      let wide' : b ≡ a + length (text_of pairs id) = rw e at wide in
      let sliced' : slice (texts pairs lens 0) a b ≡ text_of pairs id = rw e at sliced in
      let test : (a == b) ≡ (length (text_of pairs id) == 0) = ground arith in
      read_inside dst id a b inside (rw off) (rw off) ∙ rw (blob, sliced', test)

  -- Where every text of the pairs has a byte and all of them together less than 2^32, the arena
  -- store reads an id as the bytes of the first pair that has it, and no other id, as the heap
  -- store does.
  pub arena_token_store-Reads : Reads pairs (arena_token_store pairs)
  arena_token_store-Reads dst id =
      let off = new_arena_store-off in
      let size : length (new_arena_store pairs).off ≡ suc (length lens) =
        ap length off ∙ length-offsets lens 0 in
      elim (Bool-cases (leb (length (new_arena_store pairs).off - 1) id)) [
        | inl past ↦
            let above : max_id pairs 0 < id = ground (arith, length-lens) in
            let missing =
              first_bytes_above pairs (max_id pairs 0) id (max_id-Below pairs 0) above in
            unfold arena_token_store in rw missing (read_past dst id past)
        | inr inside ↦
            let lt : id < length lens = ground (arith, length-lens) in
            let read = read_slice dst id lt inside in
            elim (Option-cases (first_bytes id pairs)) [
              | inl e ↦
                  let t : text_of pairs id ≡ [] = unfold text_of in rw (e, text_of) in
                  unfold arena_token_store in rw e (read ∙ rw t)
              | inr (c, e) ↦
                  let t : text_of pairs id ≡ c = unfold text_of in rw (e, text_of) in
                  let pos = first_bytes_full pairs id c full e in
                  let test : (length c == 0) ≡ false = ground arith in
                  unfold arena_token_store in rw e (read ∙ rw (t, test))
            ]
      ]
