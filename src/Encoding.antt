-- ===== src/Encoding.antt =====
-- encoding.go: the encoding, its format tokens and its stop tokens.
pub mod Estimate
pub mod Select
pub mod Tests
use harmony_go.Prelude.{ℕ, Bool, true, false, List, [], ◌∷◌, Bytes, codes, ◌==◌, if◌then◌else◌, Map}
use harmony_go.Tokenizer.Core.{CoreBpe}
-- tokenizer/specials.go: the tokens of the format.
pub use harmony_go.Tokenizer.Literals.{
  tok_return, tok_constrain, tok_channel, tok_start, tok_end, tok_message, tok_call,
}

-- The encoding without its pools, which keep no state that a result depends on.
pub record Encoding : Type 0 where
  pub name : Bytes
  pub bpe : CoreBpe
  pub fmt : Map Bytes ℕ
  pub id_start : ℕ
  pub id_message : ℕ
  pub id_end : ℕ
  pub id_return : ℕ
  pub id_call : ℕ
  pub id_constrain : ℕ
  pub id_channel : ℕ
  pub stop_all : List ℕ
  pub stop_assistant : List ℕ

-- `_, stop := e.stopAll[token]`
unfoldable pub is_member : List ℕ → ℕ → Bool
is_member [] t = false
is_member (x ∷ xs) t = if x == t then true else is_member xs t

abbrev pub format_map : Map Bytes ℕ
format_map =
    (codes "<|start|>", tok_start)
    ∷ (codes "<|message|>", tok_message)
    ∷ (codes "<|end|>", tok_end)
    ∷ (codes "<|return|>", tok_return)
    ∷ (codes "<|call|>", tok_call)
    ∷ (codes "<|refusal|>", 0)
    ∷ (codes "<|constrain|>", tok_constrain)
    ∷ (codes "<|channel|>", tok_channel)
    ∷ []

-- `LoadEncoding` behind the check of the name and the construction of the core.
unfoldable pub make_encoding : Bytes → CoreBpe → Encoding
make_encoding name core = record {
  name = name;
  bpe = core;
  fmt = format_map;
  id_start = tok_start;
  id_message = tok_message;
  id_end = tok_end;
  id_return = tok_return;
  id_call = tok_call;
  id_constrain = tok_constrain;
  id_channel = tok_channel;
  stop_all = tok_return ∷ tok_call ∷ tok_end ∷ [];
  stop_assistant = tok_return ∷ tok_call ∷ [];
}

-- `StopTokens` and `StopTokensForAssistantActions`, in the order of their maps.
unfoldable pub stop_tokens : Encoding → List ℕ
stop_tokens enc = enc.stop_all

unfoldable pub stop_tokens_for_assistant_actions : Encoding → List ℕ
stop_tokens_for_assistant_actions enc = enc.stop_assistant
