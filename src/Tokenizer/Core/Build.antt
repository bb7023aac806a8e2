-- ===== src/Tokenizer/Core/Build.antt =====
-- `newCoreBPE`: when the core that it builds reads its own tokens back.
use harmony_go.Prelude.{
  ℕ, ◌≡◌, ◌≢◌, refl, sym, ap, ◌∙◌, true, false, [], ◌∷◌, ◌++◌, none, some, Bytes, Map, lookup,
  insert, bytes_eq, bytes_eq→eq, bytes_eq_refl, ◌==◌, ==_iff, arith, Bool-cases, Option-cases, inl,
  inr, ◌⊎◌, All, In, All-In, lookup-insert_self, lookup-insert_ne,
}
use harmony_go.Tokenizer.Segmenter.{Segmenter}
use harmony_go.Tokenizer.Store.{Pairs, TokenStore, first_bytes, Reads}
use harmony_go.Tokenizer.Core.{fill_enc, fill_specials, new_core_bpe}
use harmony_go.Tokenizer.Core.Decode.{IsFaithful}

-- No two pairs have one id.
abbrev pub DistinctIds : Pairs → Type 0
DistinctIds [] = Unit
DistinctIds ((b, id) ∷ pairs) = All (λ p. p.1 ≢ id) pairs × DistinctIds pairs

eq_sound : (a b : ℕ) → (a == b) ≡ true → a ≡ b
eq_sound a b = (==_iff a b).0

eq_same : (a : ℕ) → (a == a) ≡ true
eq_same a = (==_iff a a).1 refl

pub first_bytes-In :
    (pairs : Pairs) (key : Bytes) (id : ℕ)
    → DistinctIds pairs
    → In (key, id) pairs
    → first_bytes id pairs ≡ some key
unfolding first_bytes
first_bytes-In [] key id d m = absurd m
first_bytes-In ((b, r) ∷ pairs) key id (d, ds) (inl e) =
    let same_id : id ≡ r = ap (λ p. p.1) e in
    let same_key : key ≡ b = ap (λ p. p.0) e in
    rw ((==_iff r id).1 (sym same_id)) (ap some (sym same_key))
first_bytes-In ((b, r) ∷ pairs) key id (d, ds) (inr m) =
    let ne : id ≢ r = All-In (λ (p : Bytes × ℕ). p.1 ≢ r) pairs (key, id) d m in
    let ih = first_bytes-In pairs key id ds m in ground arith

pub first_bytes_absent :
    (pairs : Pairs) (id : ℕ) → All (λ p. p.1 ≢ id) pairs → first_bytes id pairs ≡ none
unfolding first_bytes
first_bytes_absent [] id h = refl
first_bytes_absent ((b, r) ∷ pairs) id (ne, h) = ground (arith, first_bytes_absent pairs id h)

pair_eq : (a b : Bytes) (r id : ℕ) → a ≡ b → r ≡ id → ◌≡◌ {A = Bytes × ℕ} (a, r) (b, id)
pair_eq a b r id e e' = λ i. (e i, e' i)

-- What the encoder's map holds stands in the pairs.
pub lookup-fill_enc :
    (pairs : Pairs) (enc : Map Bytes ℕ) (key : Bytes) (r : ℕ)
    → lookup bytes_eq key (fill_enc pairs enc) ≡ some r
    → In (key, r) pairs ⊎ (lookup bytes_eq key enc ≡ some r)
unfolding fill_enc
lookup-fill_enc [] enc key r h = inr h
lookup-fill_enc ((b, id) ∷ pairs) enc key r h =
    elim (lookup-fill_enc pairs (insert bytes_eq b id enc) key r h) [
      | inl m ↦ inl (inr m)
      | inr e ↦ elim (Bool-cases (bytes_eq b key)) [
        | inl same ↦
            let same_key : b ≡ key = bytes_eq→eq b key same in
            let found : lookup bytes_eq key (insert bytes_eq b id enc) ≡ some id =
              rw (← same_key) (lookup-insert_self bytes_eq bytes_eq→eq bytes_eq_refl b id enc) in
            let same_id : r ≡ id = cc in inl (inl (pair_eq key b r id (sym same_key) same_id))
        | inr other ↦
            inr (sym (lookup-insert_ne bytes_eq bytes_eq→eq bytes_eq_refl b key id enc other) ∙ e)
      ]
    ]

In-insert :
    (k : Bytes) (v : ℕ) (m : Map Bytes ℕ) (entry : Bytes × ℕ)
    → In entry (insert bytes_eq k v m)
    → (entry ≡ (k, v)) ⊎ In entry m
In-insert k v [] entry (inl e) = inl e
In-insert k v [] entry (inr m) = absurd m
In-insert k v ((j, w) ∷ m) entry h = elim (Bool-cases (bytes_eq j k)) [
  | inl same ↦
      let same_key : j ≡ k = bytes_eq→eq j k same in
      elim (let h' : In entry ((j, v) ∷ m) = (rw same at h) in h') [
        | inl e ↦ inl (e ∙ pair_eq j k v v same_key refl)
        | inr h' ↦ inr (inr h')
      ]
  | inr other ↦ elim (let h' : In entry ((j, w) ∷ insert bytes_eq k v m) = (rw other at h) in h') [
    | inl e ↦ inr (inl e)
    | inr h' ↦ elim (In-insert k v m entry h') [ inl e ↦ inl e | inr h'' ↦ inr (inr h'') ]
  ]
]

-- The encoder's map of specials holds entries of the specials only.
fill_specials-In :
    (specials : Map Bytes ℕ) (enc : Map Bytes ℕ) (dec : Map ℕ Bytes) (entry : Bytes × ℕ)
    → In entry (fill_specials specials enc dec).0
    → In entry specials ⊎ In entry enc
unfolding fill_specials
fill_specials-In [] enc dec entry h = inr h
fill_specials-In ((k, v) ∷ specials) enc dec entry h =
    elim (fill_specials-In specials (insert bytes_eq k v enc) (insert ◌==◌ v k dec) entry h) [
      | inl m ↦ inl (inr m)
      | inr m ↦ elim (In-insert k v enc entry m) [ inl e ↦ inl (inl e) | inr m' ↦ inr m' ]
    ]

-- The decoder's map of specials holds the literal of each id.
pub lookup-fill_specials :
    (specials : Map Bytes ℕ) (enc : Map Bytes ℕ) (dec : Map ℕ Bytes) (id : ℕ)
    → DistinctIds specials
    → lookup ◌==◌ id (fill_specials specials enc dec).1
      ≡ elim (first_bytes id specials) [ none ↦ lookup ◌==◌ id dec | some b ↦ some b ]
unfolding fill_specials first_bytes
lookup-fill_specials [] enc dec id d = refl
lookup-fill_specials ((k, v) ∷ specials) enc dec id (d, ds) =
    rw (lookup-fill_specials specials (insert bytes_eq k v enc) (insert ◌==◌ v k dec) id ds)
      (step (Bool-cases (v == id)))
  where
    step :
        ((v == id) ≡ true) ⊎ ((v == id) ≡ false)
        → (elim (first_bytes id specials) [
          | none ↦ lookup ◌==◌ id (insert ◌==◌ v k dec)
          | some b ↦ some b
        ])
          ≡ (elim (first_bytes id ((k, v) ∷ specials)) [
            | none ↦ lookup ◌==◌ id dec
            | some b ↦ some b
          ])
    step (inl e) =
        let same : v ≡ id = (==_iff v id).0 e in
        let gone : first_bytes id specials ≡ none = rw (← same) (first_bytes_absent specials v d) in
        let found : lookup ◌==◌ id (insert ◌==◌ v k dec) ≡ some k =
          rw (← same) (lookup-insert_self ◌==◌ eq_sound eq_same v k dec) in
        rw (gone, e) found
    step (inr e) = elim (Option-cases (first_bytes id specials)) [
      | inl gone ↦ rw (e, gone) (lookup-insert_ne ◌==◌ eq_sound eq_same v id k dec e)
      | inr (b, found) ↦ rw (e, found)
    ]

-- The vocabulary and the specials give each id one meaning.
pub record IsVocabulary (pairs specials : Pairs) : Type 0 where
  pub distinct : DistinctIds pairs
  pub distinct_specials : DistinctIds specials
  pub apart : All (λ (entry : Bytes × ℕ). first_bytes entry.1 pairs ≡ none) specials

-- A core built over a store that keeps its promise reads back the ids of its own maps.
pub new_core_bpe-IsFaithful :
    (new_token_store : Pairs → TokenStore) (pairs specials : Pairs) (seg : Segmenter)
    → Reads pairs (new_token_store pairs)
    → IsVocabulary pairs specials
    → IsFaithful (new_core_bpe new_token_store pairs specials seg)
unfolding new_core_bpe
new_core_bpe-IsFaithful new_token_store pairs specials seg reads v = record {
  base = λ key dst r h. base key dst r (lookup-fill_enc pairs [] key r h);
  special = λ lit dst tok h. special lit dst tok (fill_specials-In specials [] [] (lit, tok) h);
}
  where
    base :
        (key dst : Bytes) (r : ℕ)
        → In (key, r) pairs ⊎ (lookup bytes_eq key [] ≡ some r)
        → (new_token_store pairs).append_into dst r ≡ some (dst ++ key)
    base key dst r (inl m) = rw (reads dst r, first_bytes-In pairs key r v.distinct m)
    base key dst r (inr e) = absurd (ground arith)

    special :
        (lit dst : Bytes) (tok : ℕ)
        → In (lit, tok) specials ⊎ In {A = Bytes × ℕ} (lit, tok) []
        → ((new_token_store pairs).append_into dst tok ≡ none)
          × (lookup ◌==◌ tok (fill_specials specials [] []).1 ≡ some lit)
    special lit dst tok (inl m) = (
      rw (reads dst tok, All-In _ specials (lit, tok) v.apart m),
      rw (
        lookup-fill_specials specials [] [] tok v.distinct_specials,
        first_bytes-In specials lit tok v.distinct_specials m,
      ),
    )
    special lit dst tok (inr m) = absurd m
