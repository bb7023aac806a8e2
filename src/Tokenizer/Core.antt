-- ===== src/Tokenizer/Core.antt =====
-- tokenizer/bpe.go: `coreBPE`, its encoder over a whole text and its decoder. A token is a number
-- below 2^32, an `allowed` set the list of its literals, a nil set the empty list.
pub mod Decode
pub mod Specials
pub mod Longest
pub mod RoundTrip
pub mod Build
pub mod InPlace
pub mod Harmony
pub mod Loaded
pub mod Tests
use harmony_go.Prelude.{
  ℕ, zero, suc, ◌+◌, ◌-◌, ◌≤◌, Bool, true, false, not, ◌&&◌, List, [], ◌∷◌, ◌++◌, Option, none,
  some, map, Bytes, Map, lookup, insert, bytes_eq, ltb, leb, ◌==◌, if◌then◌else◌, length, slice,
}
use harmony_go.Tokenizer.Bpe.{Encoder, byte_pair_encode}
use harmony_go.Tokenizer.Segmenter.{Segmenter}
use harmony_go.Tokenizer.Store.{Pairs, TokenStore}

-- The pools only keep buffers, and have no field here.
pub record CoreBpe : Type 0 where
  pub enc : Encoder
  pub dec : TokenStore
  pub special_enc : Map Bytes ℕ
  pub special_dec : Map ℕ Bytes
  pub seg : Segmenter

-- `for _, p := range encoderPairs { enc[string(b)] = r }`
pub fill_enc : Pairs → Encoder → Encoder
fill_enc [] enc = enc
fill_enc ((b, r) ∷ pairs) enc = fill_enc pairs (insert bytes_eq b r enc)

-- The loop over the specials, which writes both maps.
pub fill_specials : Map Bytes ℕ → Map Bytes ℕ → Map ℕ Bytes → Map Bytes ℕ × Map ℕ Bytes
fill_specials [] enc dec = (enc, dec)
fill_specials ((k, v) ∷ specials) enc dec =
    fill_specials specials (insert bytes_eq k v enc) (insert ◌==◌ v k dec)

-- The store is that of the build: `newTokenStore` has one definition for each.
pub new_core_bpe : (Pairs → TokenStore) → Pairs → Map Bytes ℕ → Segmenter → CoreBpe
new_core_bpe new_token_store pairs specials seg =
    let (special_enc, special_dec) = fill_specials specials [] [] in
    record {
      enc = fill_enc pairs [];
      dec = new_token_store pairs;
      special_enc = special_enc;
      special_dec = special_dec;
      seg = seg;
    }

pub is_special_token : CoreBpe → ℕ → Bool
is_special_token core id = elim (lookup ◌==◌ id core.special_dec) [ none ↦ false | some _ ↦ true ]

-- `DecodeBytesInto`: the text of `*dst` after the call, or an error, after which `*dst` is unchanged.
unfoldable pub decode_bytes_into : CoreBpe → Bytes → List ℕ → Option Bytes
decode_bytes_into core buf [] = some buf
decode_bytes_into core buf (t ∷ tokens) = elim (core.dec.append_into buf t) [
  | some more ↦ decode_bytes_into core more tokens
  | none ↦ elim (lookup ◌==◌ t core.special_dec) [
    | some v ↦ decode_bytes_into core (buf ++ v) tokens
    | none ↦ none
  ]
]

unfoldable pub decode_bytes : CoreBpe → List ℕ → Option Bytes
decode_bytes core tokens = decode_bytes_into core [] tokens

-- A Go string is its bytes, so the conversion changes nothing.
unfoldable pub decode_utf8 : CoreBpe → List ℕ → Option Bytes
decode_utf8 core tokens = decode_bytes core tokens

-- `_, ok := allowed[lit]`
unfoldable pub contains : List Bytes → Bytes → Bool
contains [] lit = false
contains (a ∷ allowed) lit = if bytes_eq a lit then true else contains allowed lit

-- One round of the loop of `matchSpecialAt`, over `(maxLen, id)`.
pub longer_match : Bytes → ℕ → List Bytes → Bytes × ℕ → ℕ × ℕ → ℕ × ℕ
longer_match s i allowed (lit, tok) (max_len, id) =
    if not (contains allowed lit)
    then (max_len, id)
    else if ltb (length s - i) (length lit)
    then (max_len, id)
    else if bytes_eq (slice s i (i + length lit)) lit && ltb max_len (length lit)
    then (length lit, tok)
    else (max_len, id)

pub match_loop : Bytes → ℕ → List Bytes → Map Bytes ℕ → ℕ × ℕ → ℕ × ℕ
match_loop s i allowed [] best = best
match_loop s i allowed (entry ∷ specials) best =
    match_loop s i allowed specials (longer_match s i allowed entry best)

-- The token and its length, `(0, 0)` for no match.
pub match_special_at : CoreBpe → Bytes → ℕ → List Bytes → ℕ × ℕ
match_special_at core s i allowed =
    let (max_len, id) = match_loop s i allowed core.special_enc (0, 0) in
    if max_len == 0 then (0, 0) else (id, max_len)

-- The tokens of one segment.
pub encode_piece : CoreBpe → Bytes → Option (List ℕ)
encode_piece core piece = elim (lookup bytes_eq piece core.enc) [
  | some id ↦ some (id ∷ [])
  | none ↦ byte_pair_encode core.enc piece
]

-- `if end <= start { end = start + 1 }`
pub segment_end : CoreBpe → Bytes → ℕ → ℕ
segment_end core text i = let end = core.seg.next text i in if leb end i then i + 1 else end

-- `if hasSpecials { if tok, n := b.matchSpecialAt(…); n > 0 { … } }`
pub special_at : CoreBpe → Bytes → ℕ → List Bytes → ℕ × ℕ
special_at core text i allowed =
    if ltb 0 (length allowed) then match_special_at core text i allowed else (0, 0)

-- The loop of `Encode` and of `encodeInto`, with its fuel, `i`, `out` and `lastPieceLen`.
pub encode_loop : CoreBpe → Bytes → List Bytes → ℕ → ℕ → List ℕ → ℕ → Option (List ℕ × ℕ)
encode_loop core text allowed zero i out last = none
encode_loop core text allowed (suc fuel) i out last = elim (ltb i (length text)) [
  | false ↦ some (out, last)
  | true ↦
      let (tok, n) = special_at core text i allowed in
      let end = segment_end core text i in
      elim (ltb 0 n) [
        | true ↦ encode_loop core text allowed fuel (i + n) (out ++ tok ∷ []) 0
        | false ↦ elim (encode_piece core (slice text i end)) [
          | none ↦ none
          | some toks ↦ encode_loop core text allowed fuel end (out ++ toks) (length toks)
        ]
      ]
]

-- One more round than the text has bytes: each round moves on, and the last one ends the loop.
pub encode : CoreBpe → Bytes → List Bytes → Option (List ℕ × ℕ)
encode core text allowed = encode_loop core text allowed (suc (length text)) 0 [] 0

-- The new `*out` and the result.
pub encode_into : CoreBpe → Bytes → List Bytes → List ℕ → Option (List ℕ × ℕ)
encode_into core text allowed out = encode_loop core text allowed (suc (length text)) 0 out 0

-- The set of all special literals.
pub all_specials : CoreBpe → List Bytes
all_specials core = map (λ entry. entry.0) core.special_enc

pub encode_with_special_tokens : CoreBpe → Bytes → Option (List ℕ)
encode_with_special_tokens core text = elim (encode core text (all_specials core)) [
  | none ↦ none
  | some (toks, _) ↦ some toks
]

pub encode_with_special_tokens_into : CoreBpe → Bytes → List ℕ → Option (List ℕ × ℕ)
encode_with_special_tokens_into core text out = encode_into core text (all_specials core) out

pub encode_ordinary : CoreBpe → Bytes → Option (List ℕ)
encode_ordinary core text = elim (encode core text []) [ none ↦ none | some (toks, _) ↦ some toks ]

unfoldable pub encode_into_ordinary : CoreBpe → Bytes → List ℕ → Option (List ℕ × ℕ)
encode_into_ordinary core text out = encode_into core text [] out
