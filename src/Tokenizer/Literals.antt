-- ===== src/Tokenizer/Literals.antt =====
-- tokenizer/specials.go: the table of special literals.
pub mod Table
use harmony_go.Prelude.{
  ℕ, zero, suc, ◌+◌, ◌/◌, ◌%◌, ◌-◌, Bool, true, false, List, [], ◌∷◌, ◌++◌, Bytes, codes, bytes_eq,
  ltb, Map, insert,
}

abbrev pub tok_start_of_text : ℕ
tok_start_of_text = 199998

abbrev pub tok_end_of_text : ℕ
tok_end_of_text = 199999

abbrev pub tok_return : ℕ
tok_return = 200002

abbrev pub tok_constrain : ℕ
tok_constrain = 200003

abbrev pub tok_channel : ℕ
tok_channel = 200005

abbrev pub tok_start : ℕ
tok_start = 200006

abbrev pub tok_end : ℕ
tok_end = 200007

abbrev pub tok_message : ℕ
tok_message = 200008

abbrev pub tok_call : ℕ
tok_call = 200012

abbrev pub reserved_start : ℕ
reserved_start = 200014

abbrev pub reserved_end : ℕ
reserved_end = 201088

-- The decimal digits of a number that has at most `fuel` of them.
unfoldable pub digits : ℕ → ℕ → Bytes
digits zero n = []
digits (suc fuel) n = elim (ltb n 10) [
  | true ↦ (b'0' + n) ∷ []
  | false ↦ digits fuel (n / 10) ++ (b'0' + n % 10) ∷ []
]

-- `%d` of a uint32, which has ten digits at most.
unfoldable pub decimal : ℕ → Bytes
decimal n = digits 10 n

unfoldable pub reserved_key : ℕ → Bytes
reserved_key id = codes "<|reserved_" ++ decimal id ++ codes "|>"

unfoldable pub named_specials : Map Bytes ℕ
named_specials =
    (codes "<|startoftext|>", tok_start_of_text)
    ∷ (codes "<|endoftext|>", tok_end_of_text)
    ∷ (codes "<|return|>", tok_return)
    ∷ (codes "<|constrain|>", tok_constrain)
    ∷ (codes "<|channel|>", tok_channel)
    ∷ (codes "<|start|>", tok_start)
    ∷ (codes "<|end|>", tok_end)
    ∷ (codes "<|message|>", tok_message)
    ∷ (codes "<|call|>", tok_call)
    ∷ []

-- The loop over the reserved ids, `k` of them from `id` on.
unfoldable pub reserve : ℕ → ℕ → Map Bytes ℕ → Map Bytes ℕ
reserve zero id m = m
reserve (suc k) id m = reserve k (suc id) (insert bytes_eq (reserved_key id) id m)

unfoldable pub harmony_specials : Map Bytes ℕ
harmony_specials = reserve (reserved_end + 1 - reserved_start) reserved_start named_specials
