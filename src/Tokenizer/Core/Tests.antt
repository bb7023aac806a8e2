-- ===== src/Tokenizer/Core/Tests.antt =====
-- A small vocabulary with one special literal: runs of the encoder, and the theorems at its texts.
use harmony_go.Prelude.{
  ℕ, ◌≡◌, ◌≤◌, refl, false, List, [], ◌∷◌, some, Bytes, codes, bytes_eq, In, inl, inr, length,
  arith,
}
use harmony_go.Tokenizer.Utf8.{Tables}
use harmony_go.Tokenizer.Bpe.{byte_pair_encode, id_of}
use harmony_go.Tokenizer.Segmenter.{Segmenter}
use harmony_go.Tokenizer.Store.{Pairs, heap_token_store, first_bytes}
use harmony_go.Tokenizer.Core.{
  CoreBpe, new_core_bpe, fill_enc, fill_specials, match_special_at, encode, encode_into,
  decode_bytes, encode_loop, special_at, match_loop, longer_match, contains, segment_end,
  encode_piece,
}
use harmony_go.Tokenizer.Core.Build.{IsVocabulary}
use harmony_go.Tokenizer.Core.Longest.{match_special_at_longest, match_special_at_order}
use harmony_go.Tokenizer.Core.InPlace.{behind, encode_into-behind}
use harmony_go.Tokenizer.Core.Harmony.{o200k_core, decode-encode_o200k}

abbrev small_tables : Tables
small_tables = record { letter = λ r. false; number = λ r. false }

abbrev small_pairs : Pairs
small_pairs =
    (codes "a", 0)
    ∷ (codes "b", 1)
    ∷ (codes "c", 2)
    ∷ (codes "ab", 3)
    ∷ (codes "bc", 4)
    ∷ (codes "<", 5)
    ∷ []

abbrev small_specials : Pairs
small_specials = (codes "<c", 10) ∷ (codes "<cb", 11) ∷ []

-- A segmenter that takes the rest of the text.
abbrev whole : Segmenter
whole = record { next = λ s i. length s }

abbrev small_core : CoreBpe
small_core = new_core_bpe heap_token_store small_pairs small_specials whole

small-IsVocabulary : IsVocabulary small_pairs small_specials
unfolding first_bytes
small-IsVocabulary = record {
  distinct = omega arith;
  distinct_specials = omega arith;
  apart = (refl, (refl, tt));
}

-- The pair of lowest rank is joined first: `ab` before `bc`.
encode_lowest : encode small_core (codes "abcbc") [] ≡ some (3 ∷ 2 ∷ 4 ∷ [], 3)
unfolding encode encode_loop special_at segment_end encode_piece new_core_bpe fill_enc fill_specials
    bytes_eq byte_pair_encode id_of
encode_lowest = refl

-- A special literal is looked for where a segment begins, and nowhere else.
encode_inside :
    encode small_core (codes "a<cb") (codes "<c" ∷ codes "<cb" ∷ []) ≡ some (0 ∷ 5 ∷ 2 ∷ 1 ∷ [], 4)
unfolding encode encode_loop special_at match_special_at match_loop longer_match contains
    segment_end encode_piece new_core_bpe fill_enc fill_specials bytes_eq byte_pair_encode id_of
encode_inside = refl

-- The longer special wins.
encode_special :
    encode small_core (codes "<cba") (codes "<c" ∷ codes "<cb" ∷ []) ≡ some (11 ∷ 0 ∷ [], 1)
unfolding encode encode_loop special_at match_special_at match_loop longer_match contains
    segment_end encode_piece new_core_bpe fill_enc fill_specials bytes_eq byte_pair_encode id_of
encode_special = refl

decode-encode_o200k_example :
    (toks : List ℕ) × (last : ℕ) × (encode
        (o200k_core small_tables small_pairs small_specials)
        (codes "a<cb")
        (codes "<c" ∷ [])
      ≡ some (toks, last))
    × (decode_bytes (o200k_core small_tables small_pairs small_specials) toks ≡ some (codes "a<cb"))
unfolding new_core_bpe fill_enc bytes_eq
decode-encode_o200k_example =
    decode-encode_o200k small_tables small_pairs small_specials (codes "a<cb") (codes "<c" ∷ [])
      small-IsVocabulary (omega arith) ((0, refl), ((5, refl), ((2, refl), ((1, refl), tt))))

match_special_at_longest_example :
    length (codes "<c") ≤ (match_special_at small_core (codes "a<cb") 1 (codes "<c" ∷ [])).1
unfolding new_core_bpe fill_specials bytes_eq contains
match_special_at_longest_example =
    match_special_at_longest small_core (codes "a<cb") 1 (codes "<c" ∷ []) (codes "<c") 10
      (inl refl) (record { is_allowed = refl; fits = omega arith; equal = refl })

-- The core with its specials visited in the other order.
abbrev turned_core : CoreBpe
turned_core =
    new_core_bpe heap_token_store small_pairs ((codes "<cb", 11) ∷ (codes "<c", 10) ∷ []) whole

turned :
    (lit : Bytes) (tok : ℕ)
    → In (lit, tok) small_core.special_enc
    → In (lit, tok) turned_core.special_enc
unfolding new_core_bpe fill_specials bytes_eq
turned lit tok (inl e) = inr (inl e)
turned lit tok (inr (inl e)) = inl e
turned lit tok (inr (inr none_left)) = elim none_left [ ]

turned_back :
    (lit : Bytes) (tok : ℕ)
    → In (lit, tok) turned_core.special_enc
    → In (lit, tok) small_core.special_enc
unfolding new_core_bpe fill_specials bytes_eq
turned_back lit tok (inl e) = inr (inl e)
turned_back lit tok (inr (inl e)) = inl e
turned_back lit tok (inr (inr none_left)) = elim none_left [ ]

one_token :
    (lit : Bytes) (tok tok' : ℕ)
    → In (lit, tok) small_core.special_enc
    → In (lit, tok') small_core.special_enc
    → tok ≡ tok'
unfolding new_core_bpe fill_specials bytes_eq
one_token lit tok tok' (inl e) (inl e') = cc
one_token lit tok tok' (inl e) (inr (inl e')) = cc
one_token lit tok tok' (inl e) (inr (inr none_left)) = elim none_left [ ]
one_token lit tok tok' (inr (inl e)) (inl e') = cc
one_token lit tok tok' (inr (inl e)) (inr (inl e')) = cc
one_token lit tok tok' (inr (inl e)) (inr (inr none_left)) = elim none_left [ ]
one_token lit tok tok' (inr (inr none_left)) _ = elim none_left [ ]

match_special_at_order_example :
    match_special_at small_core (codes "<cb") 0 (codes "<cb" ∷ [])
    ≡ match_special_at turned_core (codes "<cb") 0 (codes "<cb" ∷ [])
match_special_at_order_example =
    match_special_at_order small_core turned_core (codes "<cb") 0 (codes "<cb" ∷ []) turned
      turned_back one_token

encode_into-behind_example :
    encode_into small_core (codes "abc") [] (7 ∷ [])
    ≡ behind (7 ∷ []) (encode small_core (codes "abc") [])
encode_into-behind_example = encode_into-behind small_core (codes "abc") [] (7 ∷ [])
