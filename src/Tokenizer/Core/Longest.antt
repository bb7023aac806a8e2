-- ===== src/Tokenizer/Core/Longest.antt =====
-- What `matchSpecialAt` returns, and that Go's random order of the map's loop does not matter.
use harmony_go.Prelude.{
  ℕ, ◌+◌, ◌≤◌, ◌<◌, ◌≡◌, sym, ap, ◌∙◌, List, Bytes, length, slice, arith, inl, inr, ◌⊎◌, In,
}
use harmony_go.Tokenizer.Core.{CoreBpe, match_loop, match_special_at}
use harmony_go.Tokenizer.Core.Specials.{Matches, match_loop_longest, match_loop_found}

module _ (core : CoreBpe) (s : Bytes) (i : ℕ) (allowed : List Bytes) where
  match_special_at_none :
      (match_loop s i allowed core.special_enc (0, 0)).0 ≡ 0
      → match_special_at core s i allowed ≡ (0, 0)
  match_special_at_none e = unfold match_special_at in ground arith

  match_special_at_some :
      (n tok : ℕ)
      → match_loop s i allowed core.special_enc (0, 0) ≡ (n, tok)
      → 0 < n
      → match_special_at core s i allowed ≡ (tok, n)
  match_special_at_some n tok e lt = unfold match_special_at in ground arith

  -- It returns `(0, 0)`, or the token and the positive length of a literal that is allowed and stands
  -- at `i`.
  pub match_special_at_found :
      (match_special_at core s i allowed ≡ (0, 0))
      ⊎ ((lit : Bytes) × (tok : ℕ) × In (lit, tok) core.special_enc
          × Matches s i allowed lit
          × (0 < length lit)
          × (match_special_at core s i allowed ≡ (tok, length lit)))
  match_special_at_found = elim (match_loop_found s i allowed core.special_enc (0, 0)) [
    | inl e ↦ inl (match_special_at_none (ap (λ p. p.0) e))
    | inr (lit, tok, m, h, lt, e) ↦
        inr (lit, tok, m, h, lt, match_special_at_some (length lit) tok e lt)
  ]

  -- No allowed literal that stands at `i` is longer than the length returned.
  pub match_special_at_longest :
      (lit : Bytes) (tok : ℕ)
      → In (lit, tok) core.special_enc
      → Matches s i allowed lit
      → length lit ≤ (match_special_at core s i allowed).1
  match_special_at_longest lit tok m h =
      let le = match_loop_longest s i allowed core.special_enc (0, 0) lit tok m h in
      elim (match_loop_found s i allowed core.special_enc (0, 0)) [
        | inl e ↦ let z : length lit ≤ 0 = (rw e at le) in omega arith
        | inr (lit', tok', m', h', lt, e) ↦
            rw (match_special_at_some (length lit') tok' e lt) (rw e at le)
      ]

-- Two literals that stand at one place and have one length are the same.
Matches-unique :
    (s : Bytes) (i : ℕ) (allowed : List Bytes) (lit lit' : Bytes)
    → Matches s i allowed lit
    → Matches s i allowed lit'
    → length lit ≡ length lit'
    → lit ≡ lit'
Matches-unique s i allowed lit lit' h h' e = sym h.equal ∙ ap (λ n. slice s i (i + n)) e ∙ h'.equal

-- Where a literal has one token, the result is the same for every map with the same entries: it does
-- not depend on the order in which the map is visited.
pub match_special_at_order :
    (core core' : CoreBpe) (s : Bytes) (i : ℕ) (allowed : List Bytes)
    → ((lit : Bytes) (tok : ℕ) → In (lit, tok) core.special_enc → In (lit, tok) core'.special_enc)
    → ((lit : Bytes) (tok : ℕ) → In (lit, tok) core'.special_enc → In (lit, tok) core.special_enc)
    → ((lit : Bytes) (tok tok' : ℕ)
        → In (lit, tok) core.special_enc
        → In (lit, tok') core.special_enc
        → tok ≡ tok')
    → match_special_at core s i allowed ≡ match_special_at core' s i allowed
match_special_at_order core core' s i allowed to from unique =
    elim (match_special_at_found core s i allowed) [
      | inl e ↦ elim (match_special_at_found core' s i allowed) [
        | inl e' ↦ e ∙ sym e'
        | inr (lit, tok, m, h, lt, e') ↦
            let le = match_special_at_longest core s i allowed lit tok (from lit tok m) h in
            let z : length lit ≤ 0 = (rw e at le) in absurd (omega arith)
      ]
      | inr (lit, tok, m, h, lt, e) ↦
          let le = match_special_at_longest core' s i allowed lit tok (to lit tok m) h in
          elim (match_special_at_found core' s i allowed) [
            | inl e' ↦ let z : length lit ≤ 0 = (rw e' at le) in absurd (omega arith)
            | inr (lit', tok', m', h', lt', e') ↦
                let le' =
                  match_special_at_longest core s i allowed lit' tok' (from lit' tok' m') h' in
                let a : length lit ≤ length lit' = (rw e' at le) in
                let b : length lit' ≤ length lit = (rw e at le') in
                let same : lit ≡ lit' = Matches-unique s i allowed lit lit' h h' (omega arith) in
                let one : tok ≡ tok' = unique lit tok tok' m (rw same (from lit' tok' m')) in
                let long : length lit ≡ length lit' = omega arith in
                e ∙ (λ j. (one j, long j)) ∙ sym e'
          ]
    ]
