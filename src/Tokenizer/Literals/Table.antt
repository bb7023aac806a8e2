-- ===== src/Tokenizer/Literals/Table.antt =====
-- The table gives each id one literal, keeps the named literals, and stays in its range.
use harmony_go.Prelude.{
  ℕ, zero, suc, ◌+◌, ◌-◌, ◌≤◌, ◌<◌, ◌≡◌, ◌≢◌, ap, false, [], ◌∷◌, Bytes, bytes_eq, Map, insert, All,
  In, inl, inr, Bool-cases, arith,
}
use harmony_go.Tokenizer.Core.Build.{DistinctIds}
use harmony_go.Tokenizer.Literals.{
  named_specials, reserved_key, reserve, harmony_specials, tok_start_of_text, reserved_start,
  reserved_end,
}

-- Every id of the map is in the range.
abbrev pub Within : ℕ → ℕ → Map Bytes ℕ → Type 0
Within lo hi m = All (λ p. (lo ≤ p.1) × (p.1 < hi)) m

Within-wider : (lo hi hi' : ℕ) (m : Map Bytes ℕ) → hi ≤ hi' → Within lo hi m → Within lo hi' m
Within-wider lo hi hi' [] le h = tt
Within-wider lo hi hi' ((k, v) ∷ m) le ((h1, h2), h) =
    ((h1, omega arith), Within-wider lo hi hi' m le h)

Within-insert :
    (lo id : ℕ) (key : Bytes) (m : Map Bytes ℕ)
    → lo ≤ id
    → Within lo id m
    → Within lo (suc id) (insert bytes_eq key id m)
Within-insert lo id key [] le h = ((le, omega arith), tt)
Within-insert lo id key ((k, v) ∷ m) le ((h1, h2), h) = elim (Bool-cases (bytes_eq k key)) [
  | inl e ↦ rw e ((le, omega arith), Within-wider lo id (suc id) m (omega arith) h)
  | inr e ↦ rw e ((h1, omega arith), Within-insert lo id key m le h)
]

-- An id that is above all the others stays apart from them.
Apart-insert :
    (lo v id : ℕ) (key : Bytes) (m : Map Bytes ℕ)
    → v < id
    → All (λ p. p.1 ≢ v) m
    → All (λ p. p.1 ≢ v) (insert bytes_eq key id m)
Apart-insert lo v id key [] lt h = (omega arith, tt)
Apart-insert lo v id key ((k, w) ∷ m) lt (h1, h) = elim (Bool-cases (bytes_eq k key)) [
  | inl e ↦ rw e (omega arith, h)
  | inr e ↦ rw e (h1, Apart-insert lo v id key m lt h)
]

Apart-above : (lo id : ℕ) (m : Map Bytes ℕ) → Within lo id m → All (λ p. p.1 ≢ id) m
Apart-above lo id [] h = tt
Apart-above lo id ((k, v) ∷ m) ((h1, h2), h) = (omega arith, Apart-above lo id m h)

DistinctIds-insert :
    (lo id : ℕ) (key : Bytes) (m : Map Bytes ℕ)
    → Within lo id m
    → DistinctIds m
    → DistinctIds (insert bytes_eq key id m)
DistinctIds-insert lo id key [] h d = (tt, tt)
DistinctIds-insert lo id key ((k, v) ∷ m) ((h1, h2), h) (d1, d) =
    elim (Bool-cases (bytes_eq k key)) [
      | inl e ↦ rw e (Apart-above lo id m h, d)
      | inr e ↦ rw e (Apart-insert lo v id key m h2 d1, DistinctIds-insert lo id key m h d)
    ]

reserve-DistinctIds :
    (lo k id : ℕ) (m : Map Bytes ℕ)
    → lo ≤ id
    → Within lo id m
    → DistinctIds m
    → DistinctIds (reserve k id m) × Within lo (id + k) (reserve k id m)
unfolding reserve
reserve-DistinctIds lo zero id m le h d = let e : id + zero ≡ id = omega arith in (d, rw e h)
reserve-DistinctIds lo (suc k) id m le h d =
    let e : id + suc k ≡ suc id + k = omega arith in
    rw e (
      reserve-DistinctIds lo k (suc id) (insert bytes_eq (reserved_key id) id m) (omega arith)
        (Within-insert lo id (reserved_key id) m le h)
        (DistinctIds-insert lo id (reserved_key id) m h d))

-- A literal that is not a reserved key stays in the map.
In-insert_other :
    (lit key : Bytes) (tok id : ℕ) (m : Map Bytes ℕ)
    → bytes_eq lit key ≡ false
    → In (lit, tok) m
    → In (lit, tok) (insert bytes_eq key id m)
In-insert_other lit key tok id [] ne h = absurd h
In-insert_other lit key tok id ((k, v) ∷ m) ne (inl e) =
    let same : lit ≡ k = ap (λ p. p.0) e in
    let ne' : bytes_eq k key ≡ false = rw same at ne in rw ne' (inl e)
In-insert_other lit key tok id ((k, v) ∷ m) ne (inr h) = elim (Bool-cases (bytes_eq k key)) [
  | inl e ↦ rw e (inr h)
  | inr e ↦ rw e (inr (In-insert_other lit key tok id m ne h))
]

reserve-In :
    (lit : Bytes) (tok k id : ℕ) (m : Map Bytes ℕ)
    → ((i : ℕ) → bytes_eq lit (reserved_key i) ≡ false)
    → In (lit, tok) m
    → In (lit, tok) (reserve k id m)
unfolding reserve
reserve-In lit tok zero id m ne h = h
reserve-In lit tok (suc k) id m ne h =
    reserve-In lit tok k (suc id) _ ne (In-insert_other lit (reserved_key id) tok id m (ne id) h)

named-Within : Within tok_start_of_text reserved_start named_specials
unfolding named_specials
named-Within = omega arith

named-DistinctIds : DistinctIds named_specials
unfolding named_specials
named-DistinctIds = omega arith

-- No two literals of the table have one id, and every id lies in the range of the format, from
-- 199998 to 201088.
pub harmony_specials-DistinctIds :
    DistinctIds harmony_specials × Within 199998 201089 harmony_specials
unfolding harmony_specials
harmony_specials-DistinctIds =
    reserve-DistinctIds tok_start_of_text (reserved_end + 1 - reserved_start) reserved_start
      named_specials (omega arith) named-Within named-DistinctIds

-- A literal with a name is in the table with its token.
pub harmony_specials-In :
    (lit : Bytes) (tok : ℕ)
    → ((i : ℕ) → bytes_eq lit (reserved_key i) ≡ false)
    → In (lit, tok) named_specials
    → In (lit, tok) harmony_specials
unfolding harmony_specials
harmony_specials-In lit tok ne h =
    reserve-In lit tok (reserved_end + 1 - reserved_start) reserved_start named_specials ne h
