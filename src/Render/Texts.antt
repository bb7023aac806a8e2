-- ===== src/Render/Texts.antt =====
-- The text of a rendered message, and what the renderers rely on in an encoding.
use harmony_go.Prelude.{
  ℕ, ◌≤◌, ◌<◌, ◌≡◌, refl, sym, ap, ◌∙◌, List, [], ◌∷◌, ◌++◌, some, Bytes, codes, length, All,
  All-append, append_assoc, append-nil, ok, ◌>=>◌, arith, inl, inr,
}
use harmony_go.Tokenizer.Bpe.Vocabulary.{Known}
use harmony_go.Tokenizer.Segmenter.Contraction.{IsBytes}
use harmony_go.Tokenizer.Core.{contains, CoreBpe, encode_into_ordinary, encode}
use harmony_go.Tokenizer.Core.Decode.{
  IsFaithful, IsBase, DecodesTo, DecodesTo-nil, DecodesTo-append,
}
use harmony_go.Tokenizer.Core.RoundTrip.{IsEmitted, decode-encode}
use harmony_go.Tokenizer.Core.InPlace.{encode_into-behind, behind}
use harmony_go.Encoding.{Encoding}
use harmony_go.Render.{Step, emit, skip, render_text}

-- What the renderers rely on: the core reads its own tokens back, every byte is a token, the
-- segmenter stays inside of the text, and the tokens of the format are read as their literals.
pub record IsHarmony (enc : Encoding) : Type 0 where
  pub faithful : IsFaithful enc.bpe
  pub byte_known : (b : ℕ) → b < 256 → Known enc.bpe.enc (b ∷ [])
  pub inside :
      (text : Bytes)
      → IsBytes text
      → (i : ℕ) → i < length text
      → enc.bpe.seg.next text i ≤ length text
  pub start_literal : DecodesTo enc.bpe (enc.id_start ∷ []) (codes "<|start|>")
  pub message_literal : DecodesTo enc.bpe (enc.id_message ∷ []) (codes "<|message|>")
  pub end_literal : DecodesTo enc.bpe (enc.id_end ∷ []) (codes "<|end|>")
  pub return_literal : DecodesTo enc.bpe (enc.id_return ∷ []) (codes "<|return|>")
  pub call_literal : DecodesTo enc.bpe (enc.id_call ∷ []) (codes "<|call|>")
  pub constrain_literal : DecodesTo enc.bpe (enc.id_constrain ∷ []) (codes "<|constrain|>")
  pub channel_literal : DecodesTo enc.bpe (enc.id_channel ∷ []) (codes "<|channel|>")

-- The step appends the same tokens whatever it is given, they decode to the text, and each of them
-- satisfies `P`.
pub record Emits (core : CoreBpe) (P : ℕ → Type 0) (f : Step) (text : Bytes) : Type 0 where
  pub toks : List ℕ
  pub runs : (out : List ℕ) → f out ≡ ok (out ++ toks)
  pub decodes : DecodesTo core toks text
  pub within : All P toks

module _ (core : CoreBpe) (P : ℕ → Type 0) where
  pub Emits-skip : Emits core P skip []
  Emits-skip = record {
    toks = [];
    runs = λ out. unfold skip in ap ok (sym (append-nil out));
    decodes = DecodesTo-nil core;
    within = tt;
  }

  pub Emits-emit :
      (t : ℕ) (text : Bytes) → DecodesTo core (t ∷ []) text → P t → Emits core P (emit t) text
  Emits-emit t text d p = record {
    toks = t ∷ [];
    runs = λ out. unfold emit in refl;
    decodes = d;
    within = (p, tt);
  }

  pub Emits-then :
      (f g : Step) (s t : Bytes)
      → Emits core P f s
      → Emits core P g t
      → Emits core P (f >=> g) (s ++ t)
  Emits-then f g s t ef eg =
      let xs = ef.toks in
      let ys = eg.toks in
      let run_f = ef.runs in
      let run_g = eg.runs in
      record {
        toks = xs ++ ys;
        runs = λ out. rw (run_f out) (run_g (out ++ xs) ∙ ap ok (append_assoc out xs ys));
        decodes = DecodesTo-append core xs ys s t ef.decodes eg.decodes;
        within = All-append P xs ys ef.within eg.within;
      }

pub All-imp : (P Q : ℕ → Type 0) (toks : List ℕ) → ((t : ℕ) → P t → Q t) → All P toks → All Q toks
All-imp P Q [] h a = tt
All-imp P Q (t ∷ toks) h (p, a) = (h t p, All-imp P Q toks h a)

Known-text :
    (core : CoreBpe) (text : Bytes)
    → ((b : ℕ) → b < 256 → Known core.enc (b ∷ []))
    → IsBytes text
    → All (λ b. Known core.enc (b ∷ [])) text
Known-text core [] h t = tt
Known-text core (b ∷ text) h (lt, t) = (h b lt, Known-text core text h t)

-- Plain text is encoded to tokens of the vocabulary that decode to it.
pub record Encoded (core : CoreBpe) (text : Bytes) : Type 0 where
  pub tokens : List ℕ
  pub last : ℕ
  pub encoded : (out : List ℕ) → encode_into_ordinary core text out ≡ some (out ++ tokens, last)
  pub read : DecodesTo core tokens text
  pub base : All (IsBase core) tokens

IsBase-of : (core : CoreBpe) (toks : List ℕ) → All (IsEmitted core []) toks → All (IsBase core) toks
unfolding contains
IsBase-of core [] h = tt
IsBase-of core (t ∷ toks) (inl b, h) = (b, IsBase-of core toks h)
IsBase-of core (t ∷ toks) (inr (lit, m, clash), h) = absurd (ground arith)

module _ (enc : Encoding) (harmony : IsHarmony enc) where
  pub encode_into_ordinary-Encoded : (text : Bytes) → IsBytes text → Encoded enc.bpe text
  encode_into_ordinary-Encoded text bytes =
      let (toks, last, e, d, em) =
        decode-encode enc.bpe text [] harmony.faithful (harmony.inside text bytes)
          (Known-text enc.bpe text harmony.byte_known bytes) in
      record {
        tokens = toks;
        last = last;
        encoded = λ out. ordinary_lem out toks last e;
        read = d;
        base = IsBase-of enc.bpe toks em;
      }
    where
      ordinary_lem :
          (out toks : List ℕ) (last : ℕ)
          → encode enc.bpe text [] ≡ some (toks, last)
          → encode_into_ordinary enc.bpe text out ≡ some (out ++ toks, last)
      ordinary_lem out toks last e =
          unfold encode_into_ordinary in encode_into-behind enc.bpe text [] out ∙ ap (behind out) e

  module _ (P : ℕ → Type 0) (base : (t : ℕ) → IsBase enc.bpe t → P t) where
    pub Emits-text : (text : Bytes) → IsBytes text → Emits enc.bpe P (render_text enc text) text
    Emits-text text bytes =
        let encoded = encode_into_ordinary-Encoded text bytes in
        let toks = encoded.tokens in
        let run = encoded.encoded in
        record {
          toks = toks;
          runs = λ out. unfold render_text in rw (run out, render_text);
          decodes = encoded.read;
          within = All-imp (IsBase enc.bpe) P toks base encoded.base;
        }
