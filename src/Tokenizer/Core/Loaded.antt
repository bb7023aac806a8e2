-- ===== src/Tokenizer/Core/Loaded.antt =====
-- The core that LoadEncoding builds, over the pairs of the vocabulary file and the table of specials.
use harmony_go.Prelude.{
  ℕ, ◌≤◌, ◌<◌, ◌≡◌, ◌≢◌, refl, ap, ◌∙◌, false, [], ◌∷◌, none, some, Bytes, bytes_eq, bytes_eq→eq,
  bytes_eq_refl, All, All-In, In, inl, inr, Bool-cases, lookup, insert, lookup-insert_self,
  lookup-insert_ne, Map, arith, ◌==◌,
}
use harmony_go.Tokenizer.Utf8.{Tables}
use harmony_go.Tokenizer.Bpe.Vocabulary.{Known}
use harmony_go.Tokenizer.Store.{Pairs, first_bytes}
use harmony_go.Tokenizer.Store.Lookup.{heap_token_store-Reads}
use harmony_go.Tokenizer.Core.{CoreBpe, new_core_bpe, fill_enc, decode_bytes_into}
use harmony_go.Tokenizer.Core.Decode.{IsBase, DecodesTo, decode_special}
use harmony_go.Tokenizer.Core.Build.{
  DistinctIds, IsVocabulary, first_bytes-In, first_bytes_absent, lookup-fill_enc,
  lookup-fill_specials,
}
use harmony_go.Tokenizer.Core.Harmony.{o200k_core}
use harmony_go.Tokenizer.Literals.{harmony_specials, named_specials, reserved_key}
use harmony_go.Tokenizer.Literals.Table.{Within, harmony_specials-DistinctIds, harmony_specials-In}

-- A key of the map stays one.
Known-insert :
    (key b : Bytes) (id : ℕ) (enc : Map Bytes ℕ)
    → Known enc key
    → Known (insert bytes_eq b id enc) key
Known-insert key b id enc (r, e) = elim (Bool-cases (bytes_eq b key)) [
  | inl same ↦
      let same_key : b ≡ key = bytes_eq→eq b key same in
      (id, rw (← same_key) (lookup-insert_self bytes_eq bytes_eq→eq bytes_eq_refl b id enc))
  | inr other ↦ (r, lookup-insert_ne bytes_eq bytes_eq→eq bytes_eq_refl b key id enc other ∙ e)
]

Known-fill_enc :
    (pairs : Pairs) (enc : Map Bytes ℕ) (key : Bytes)
    → Known enc key
    → Known (fill_enc pairs enc) key
unfolding fill_enc
Known-fill_enc [] enc key h = h
Known-fill_enc ((b, id) ∷ pairs) enc key h =
    Known-fill_enc pairs (insert bytes_eq b id enc) key (Known-insert key b id enc h)

-- Every text of the pairs is a token.
pub In-fill_enc :
    (pairs : Pairs) (enc : Map Bytes ℕ) (key : Bytes) (r : ℕ)
    → In (key, r) pairs
    → Known (fill_enc pairs enc) key
unfolding fill_enc
In-fill_enc [] enc key r h = absurd h
In-fill_enc ((b, id) ∷ pairs) enc key r (inl e) =
    let same_key : key ≡ b = ap (λ p. p.0) e in
    Known-fill_enc pairs (insert bytes_eq b id enc) key
      (id, rw same_key (lookup-insert_self bytes_eq bytes_eq→eq bytes_eq_refl b id enc))
In-fill_enc ((b, id) ∷ pairs) enc key r (inr h) =
    In-fill_enc pairs (insert bytes_eq b id enc) key r h

-- The ids of the pairs are below those of the specials.
abbrev IsBelow : ℕ → Pairs → Type 0
IsBelow hi pairs = All (λ p. p.1 < hi) pairs

IsBelow-absent :
    (hi id : ℕ) (pairs : Pairs) → hi ≤ id → IsBelow hi pairs → All (λ p. p.1 ≢ id) pairs
IsBelow-absent hi id [] le h = tt
IsBelow-absent hi id ((b, r) ∷ pairs) le (lt, h) = (omega arith, IsBelow-absent hi id pairs le h)

IsBelow-apart :
    (hi top : ℕ) (pairs specials : Pairs)
    → IsBelow hi pairs
    → Within hi top specials
    → All (λ (entry : Bytes × ℕ). first_bytes entry.1 pairs ≡ none) specials
IsBelow-apart hi top pairs [] h w = tt
IsBelow-apart hi top pairs ((k, v) ∷ specials) h ((le, _), w) = (
  first_bytes_absent pairs v (IsBelow-absent hi v pairs le h),
  IsBelow-apart hi top pairs specials h w,
)

-- What the vocabulary file is to hold: each id once, below the specials, and every byte as a token.
pub record IsComplete (pairs : Pairs) : Type 0 where
  pub distinct : DistinctIds pairs
  pub below : All (λ p. p.1 < 199998) pairs
  pub has_bytes : (b : ℕ) → b < 256 → (r : ℕ) × In (b ∷ [], r) pairs

module _ (tables : Tables) (pairs : Pairs) (complete : IsComplete pairs) where
  abbrev pub core : CoreBpe
  core = o200k_core tables pairs harmony_specials

  pub loaded-IsVocabulary : IsVocabulary pairs harmony_specials
  loaded-IsVocabulary =
      let (distinct, within) = harmony_specials-DistinctIds in
      record {
        distinct = complete.distinct;
        distinct_specials = distinct;
        apart = IsBelow-apart 199998 201089 pairs harmony_specials complete.below within;
      }

  -- A literal with a name is what its token decodes to.
  pub literal-DecodesTo :
      (lit : Bytes) (tok : ℕ)
      → ((i : ℕ) → bytes_eq lit (reserved_key i) ≡ false)
      → In (lit, tok) named_specials
      → DecodesTo core (tok ∷ []) lit
  literal-DecodesTo lit tok ne m buf =
      let inside = harmony_specials-In lit tok ne m in
      let v = loaded-IsVocabulary in
      let gone : core.dec.append_into buf tok ≡ none =
        unfold new_core_bpe in
        rw (
          heap_token_store-Reads pairs buf tok,
          All-In _ harmony_specials (lit, tok) v.apart inside,
        ) in
      let found : lookup ◌==◌ tok core.special_dec ≡ some lit =
        unfold new_core_bpe in
        rw (
          lookup-fill_specials harmony_specials [] [] tok v.distinct_specials,
          first_bytes-In harmony_specials lit tok v.distinct_specials inside,
        ) in
      decode_special core buf lit tok [] gone found ∙ (unfold decode_bytes_into in refl)

  pub base-below : (t : ℕ) → IsBase core t → t < 199998
  unfolding new_core_bpe
  base-below t (key, e) = elim (lookup-fill_enc pairs [] key t e) [
    | inl m ↦ All-In (λ (p : Bytes × ℕ). p.1 < 199998) pairs (key, t) complete.below m
    | inr e' ↦ absurd (ground arith)
  ]

  pub byte-Known : (b : ℕ) → b < 256 → Known core.enc (b ∷ [])
  unfolding new_core_bpe
  byte-Known b lt = let (r, m) = complete.has_bytes b lt in In-fill_enc pairs [] (b ∷ []) r m
