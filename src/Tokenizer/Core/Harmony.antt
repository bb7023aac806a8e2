-- ===== src/Tokenizer/Core/Harmony.antt =====
-- The core that `LoadEncoding` builds: the heap store and the segmenter of o200k.
use harmony_go.Prelude.{ℕ, ◌≡◌, ◌≤◌, List, [], ◌∷◌, some, ◌<◌, Bytes, All, length}
use harmony_go.Tokenizer.Utf8.{Tables}
use harmony_go.Tokenizer.Bpe.Vocabulary.{Known}
use harmony_go.Tokenizer.Segmenter.{new_o200k_segmenter}
use harmony_go.Tokenizer.Segmenter.Contraction.{IsBytes}
use harmony_go.Tokenizer.Segmenter.Next.{new_o200k_segmenter_bounds}
use harmony_go.Tokenizer.Store.{Pairs, heap_token_store}
use harmony_go.Tokenizer.Store.Lookup.{heap_token_store-Reads}
use harmony_go.Tokenizer.Core.{CoreBpe, new_core_bpe, encode, decode_bytes}
use harmony_go.Tokenizer.Core.Build.{IsVocabulary, new_core_bpe-IsFaithful}
use harmony_go.Tokenizer.Core.RoundTrip.{decode-encode}

abbrev pub o200k_core : Tables → Pairs → Pairs → CoreBpe
o200k_core tables pairs specials =
    new_core_bpe heap_token_store pairs specials (new_o200k_segmenter tables)

pub o200k_core_inside :
    (tables : Tables) (pairs specials : Pairs) (text : Bytes)
    → IsBytes text
    → (i : ℕ) → i < length text
    → (o200k_core tables pairs specials).seg.next text i ≤ length text
unfolding new_core_bpe
o200k_core_inside tables pairs specials text bytes i lt =
    (new_o200k_segmenter_bounds tables text i bytes lt).1

-- Text in, tokens, and the same text out: for the core that `LoadEncoding` builds, over a vocabulary
-- in which each id has one meaning, the encoder returns on every text whose bytes are tokens, and
-- the decoder reads its tokens back as the text, whatever set of special literals is allowed.
pub decode-encode_o200k :
    (tables : Tables) (pairs specials : Pairs) (text : Bytes) (allowed : List Bytes)
    → IsVocabulary pairs specials
    → IsBytes text
    → All (λ b. Known (o200k_core tables pairs specials).enc (b ∷ [])) text
    → (toks : List ℕ) × (last : ℕ) × (encode (o200k_core tables pairs specials) text allowed
        ≡ some (toks, last))
      × (decode_bytes (o200k_core tables pairs specials) toks ≡ some text)
decode-encode_o200k tables pairs specials text allowed v bytes known =
    let (toks, last, e, d, _) =
      decode-encode (o200k_core tables pairs specials) text allowed
        (new_core_bpe-IsFaithful heap_token_store pairs specials (new_o200k_segmenter tables)
          (heap_token_store-Reads pairs) v)
        (o200k_core_inside tables pairs specials text bytes) known in
    (toks, last, e, unfold decode_bytes in d [])
