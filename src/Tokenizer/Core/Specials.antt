-- ===== src/Tokenizer/Core/Specials.antt =====
-- `matchSpecialAt`: it finds the longest allowed literal, whatever the order of the map's loop.
use harmony_go.Prelude.{
  ltb→le, le→ltb, ℕ, ◌+◌, ◌-◌, ◌≤◌, ◌<◌, ◌≡◌, refl, ap, ◌∙◌, true, false, ◌&&◌, List, [], ◌∷◌,
  Bytes, Map, bytes_eq, bytes_eq→eq, bytes_eq_refl, ltb, length, slice, arith, Bool-cases, inl, inr,
  ◌⊎◌, In,
}
use harmony_go.Tokenizer.Core.{contains, longer_match, match_loop}

-- The literal is allowed and stands in the text at `i`.
pub record Matches (s : Bytes) (i : ℕ) (allowed : List Bytes) (lit : Bytes) : Type 0 where
  pub is_allowed : contains allowed lit ≡ true
  pub fits : length lit ≤ length s - i
  pub equal : slice s i (i + length lit) ≡ lit

module _ (s : Bytes) (i : ℕ) (allowed : List Bytes) where
  -- A round keeps the best so far, or takes a literal that matches and is longer.
  longer_match_cases :
      (lit : Bytes) (tok max_len id : ℕ)
      → (longer_match s i allowed (lit, tok) (max_len, id) ≡ (max_len, id))
        ⊎ Matches s i allowed lit
          × (max_len < length lit)
          × (longer_match s i allowed (lit, tok) (max_len, id) ≡ (length lit, tok))
  longer_match_cases lit tok max_len id = elim (Bool-cases (contains allowed lit)) [
    | inl a ↦ elim (Bool-cases (ltb (length s - i) (length lit))) [
      | inl b ↦ inl (unfold longer_match in rw (a, b))
      | inr b ↦
          elim (Bool-cases
            (bytes_eq (slice s i (i + length lit)) lit && ltb max_len (length lit))) [
              | inl c ↦ inr (
                record {
                  is_allowed = a;
                  fits = ground arith;
                  equal = bytes_eq→eq (slice s i (i + length lit)) lit (ground arith);
                },
                ground arith,
                unfold longer_match in rw (a, b, c),
              )
              | inr c ↦ inl (unfold longer_match in rw (a, b, c))
            ]
    ]
    | inr a ↦ inl (unfold longer_match in rw a)
  ]

  -- A literal that matches is no longer than the best after its round.
  longer_match_le :
      (lit : Bytes) (tok max_len id : ℕ)
      → Matches s i allowed lit
      → length lit ≤ (longer_match s i allowed (lit, tok) (max_len, id)).0
  longer_match_le lit tok max_len id m =
      let same : bytes_eq (slice s i (i + length lit)) lit ≡ true =
        rw m.equal (bytes_eq_refl lit) in
      let fit : ltb (length s - i) (length lit) ≡ false = le→ltb _ _ m.fits in
      elim (Bool-cases (ltb max_len (length lit))) [
        | inl lt ↦ unfold longer_match in rw (m.is_allowed, fit, same, lt) (omega arith)
        | inr ge ↦ unfold longer_match in rw (m.is_allowed, fit, same, ge) (ltb→le _ _ ge)
      ]

  longer_match_grows :
      (entry : Bytes × ℕ) (best : ℕ × ℕ) → best.0 ≤ (longer_match s i allowed entry best).0
  longer_match_grows (lit, tok) (max_len, id) = elim (longer_match_cases lit tok max_len id) [
    | inl e ↦ rw e (omega arith)
    | inr (m, lt, e) ↦ rw e (omega arith)
  ]

  match_loop_grows :
      (specials : Map Bytes ℕ) (best : ℕ × ℕ) → best.0 ≤ (match_loop s i allowed specials best).0
  unfolding match_loop
  match_loop_grows [] best = omega arith
  match_loop_grows (entry ∷ specials) best = omega (
    arith,
    match_loop_grows specials (longer_match s i allowed entry best),
    longer_match_grows entry best,
  )

  -- No literal of the map that matches is longer than the result.
  pub match_loop_longest :
      (specials : Map Bytes ℕ) (best : ℕ × ℕ) (lit : Bytes) (tok : ℕ)
      → In (lit, tok) specials
      → Matches s i allowed lit
      → length lit ≤ (match_loop s i allowed specials best).0
  unfolding match_loop
  match_loop_longest [] best lit tok m h = absurd m
  match_loop_longest ((k, v) ∷ specials) (max_len, id) lit tok (inl e) h =
      let e' : lit ≡ k = ap (λ p. p.0) e in
      let le = longer_match_le k v max_len id (rw (← e') h) in
      let grow = match_loop_grows specials (longer_match s i allowed (k, v) (max_len, id)) in
      rw e' (omega arith)
  match_loop_longest (entry ∷ specials) best lit tok (inr m) h =
      match_loop_longest specials (longer_match s i allowed entry best) lit tok m h

  -- The result is the pair at the start, or the length and the token of a literal that matches.
  pub match_loop_found :
      (specials : Map Bytes ℕ) (best : ℕ × ℕ)
      → (match_loop s i allowed specials best ≡ best)
        ⊎ ((lit : Bytes) × (tok : ℕ) × In (lit, tok) specials
            × Matches s i allowed lit
            × (best.0 < length lit)
            × (match_loop s i allowed specials best ≡ (length lit, tok)))
  unfolding match_loop
  match_loop_found [] best = inl refl
  match_loop_found ((k, v) ∷ specials) (max_len, id) =
      elim (match_loop_found specials (longer_match s i allowed (k, v) (max_len, id))) [
        | inl same ↦ elim (longer_match_cases k v max_len id) [
          | inl e ↦ inl (same ∙ e)
          | inr (m, lt, e) ↦ inr (k, v, inl refl, m, lt, same ∙ e)
        ]
        | inr (lit, tok, m, h, lt, e) ↦
            inr (lit, tok, inr m, h, omega (arith, longer_match_grows (k, v) (max_len, id)), e)
      ]
