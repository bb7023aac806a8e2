-- ===== src/Render/Tests/Vocabulary.antt =====
-- A vocabulary of the 256 bytes, which is complete.
use harmony_go.Prelude.{
  ℕ, zero, suc, ◌≤◌, ◌<◌, ◌≡◌, ◌≢◌, ap, [], ◌∷◌, inl, inr, arith, ◌==◌, ==_iff, All, In, Bool-cases,
}
use harmony_go.Tokenizer.Store.{Pairs}
use harmony_go.Tokenizer.Core.Build.{DistinctIds}
use harmony_go.Tokenizer.Loader.RoundTrip.{IsEntry}
use harmony_go.Tokenizer.Core.Loaded.{IsComplete}

-- Each byte below `n` is its own token.
abbrev pub byte_pairs : ℕ → Pairs
byte_pairs zero = []
byte_pairs (suc n) = (n ∷ [], n) ∷ byte_pairs n

byte_pairs-below : (n hi : ℕ) → n ≤ hi → All (λ p. p.1 < hi) (byte_pairs n)
byte_pairs-below zero hi le = tt
byte_pairs-below (suc n) hi le = (omega arith, byte_pairs-below n hi (omega arith))

byte_pairs_apart : (n v : ℕ) → n ≤ v → All (λ p. p.1 ≢ v) (byte_pairs n)
byte_pairs_apart zero v le = tt
byte_pairs_apart (suc n) v le = (omega arith, byte_pairs_apart n v (omega arith))

byte_pairs-DistinctIds : (n : ℕ) → DistinctIds (byte_pairs n)
byte_pairs-DistinctIds zero = tt
byte_pairs-DistinctIds (suc n) = (byte_pairs_apart n n (omega arith), byte_pairs-DistinctIds n)

byte_pairs-In : (n b : ℕ) → b < n → In (b ∷ [], b) (byte_pairs n)
byte_pairs-In zero b lt = absurd (omega arith)
byte_pairs-In (suc n) b lt = elim (Bool-cases (b == n)) [
  | inl e ↦ let same : b ≡ n = (==_iff b n).0 e in inl (ap (λ k. (k ∷ [], k)) same)
  | inr e ↦ inr (byte_pairs-In n b (ground arith))
]

pub byte_pairs-IsComplete : IsComplete (byte_pairs 256)
byte_pairs-IsComplete = record {
  distinct = byte_pairs-DistinctIds 256;
  below = byte_pairs-below 256 199998 (omega arith);
  has_bytes = λ b lt. (b, byte_pairs-In 256 b lt);
}

pub byte_pairs-IsEntry : (n : ℕ) → n ≤ 256 → All IsEntry (byte_pairs n)
byte_pairs-IsEntry zero le = tt
byte_pairs-IsEntry (suc n) le =
    (((omega arith, tt), omega arith, omega arith), byte_pairs-IsEntry n (omega arith))
