-- ===== src/Sections/Order.antt =====
-- render_tools.go, writeToolsSection: the order in which a Go map is visited does not matter.
use mathlib.Core.List.{Perm, Permᴰ}
use mathlib.Core.List.Permᴰ
use mathlib.Core.Logic.{∥∥₁_elim}
use harmony_go.Prelude.{
  codes, ◌++◌, ◌≡◌, ◌≢◌, refl, sym, ap, ◌∙◌, true, false, [], ◌∷◌, Bytes, inl, inr, Bool-cases, All,
  Map,
}
use harmony_go.Types.{ToolNamespaceConfig}
use harmony_go.Text.Lines.{bytes_lt, insert_entry, sort_entries}
use harmony_go.Text.Lines.Order.{bytes_lt_total, bytes_lt_asym, bytes_lt_trans}
use harmony_go.Sections.{Library, tools_section, namespace_texts}

module _ {ℓ} {V : Type ℓ} where
  -- The keys of a Go map differ.
  abbrev pub DistinctKeys : Map Bytes V → Type ℓ
  DistinctKeys [] = Unit
  DistinctKeys ((k, v) ∷ m) = All (λ (e : Bytes × V). e.0 ≢ k) m × DistinctKeys m

  insert_behind :
      (k j : Bytes) (v w : V) (m : Map Bytes V)
      → bytes_lt j k ≡ true
      → insert_entry (k, v) ((j, w) ∷ m) ≡ (j, w) ∷ insert_entry (k, v) m
  unfolding insert_entry
  insert_behind k j v w m lt = rw lt

  insert_here :
      (k j : Bytes) (v w : V) (m : Map Bytes V)
      → bytes_lt j k ≡ false
      → insert_entry (k, v) ((j, w) ∷ m) ≡ (k, v) ∷ (j, w) ∷ m
  unfolding insert_entry
  insert_here k j v w m lt = rw lt

  insert_less :
      (k l : Bytes) (v u : V) (m : Map Bytes V)
      → bytes_lt k l ≡ true
      → insert_entry (k, v) (insert_entry (l, u) m) ≡ insert_entry (l, u) (insert_entry (k, v) m)
  insert_less k l v u [] lt =
      let back = bytes_lt_asym k l lt in unfold insert_entry in rw (back, lt)
  insert_less k l v u ((j, w) ∷ m) lt =
      let back = bytes_lt_asym k l lt in
      elim (Bool-cases (bytes_lt j k)) [
        | inl e ↦
            let far = bytes_lt_trans j k l e lt in
            let ih = insert_less k l v u m lt in
            rw (
              insert_behind l j u w m far,
              insert_behind k j v w m e,
              insert_behind k j v w (insert_entry (l, u) m) e,
              insert_behind l j u w (insert_entry (k, v) m) far,
              ih,
            )
        | inr e ↦
            let front = insert_here k j v w m e in
            let other = insert_behind l k u v ((j, w) ∷ m) lt in
            elim (Bool-cases (bytes_lt j l)) [
              | inl f ↦
                  ap (λ t. insert_entry (k, v) t) (insert_behind l j u w m f)
                  ∙ insert_here k j v w (insert_entry (l, u) m) e
                  ∙ ap (λ t. (k, v) ∷ t) (sym (insert_behind l j u w m f))
                  ∙ sym other
                  ∙ sym (ap (λ t. insert_entry (l, u) t) front)
              | inr f ↦
                  ap (λ t. insert_entry (k, v) t) (insert_here l j u w m f)
                  ∙ insert_here k l v u ((j, w) ∷ m) back
                  ∙ ap (λ t. (k, v) ∷ t) (sym (insert_here l j u w m f))
                  ∙ sym other
                  ∙ sym (ap (λ t. insert_entry (l, u) t) front)
            ]
      ]

  insert_swap :
      (k l : Bytes) (v u : V) (m : Map Bytes V)
      → k ≢ l
      → insert_entry (k, v) (insert_entry (l, u) m) ≡ insert_entry (l, u) (insert_entry (k, v) m)
  insert_swap k l v u m ne = elim (Bool-cases (bytes_lt k l)) [
    | inl lt ↦ insert_less k l v u m lt
    | inr e ↦ sym (insert_less l k u v m (bytes_lt_total k l ne e))
  ]

  Permᴰ-All : (P : Bytes × V → Type 0) (m m' : Map Bytes V) → Permᴰ m m' → All P m → All P m'
  Permᴰ-All P _ _ Permᴰ.nil h = h
  Permᴰ-All P _ _ (Permᴰ.cons e d) (p, h) = (rw (← e) p, Permᴰ-All P _ _ d h)
  Permᴰ-All P _ _ (Permᴰ.swap e e') (p, (q, h)) = (rw (← e') q, (rw (← e) p, h))
  Permᴰ-All P _ _ (Permᴰ.trans d d') h = Permᴰ-All P _ _ d' (Permᴰ-All P _ _ d h)

  Apart-key :
      (k j : Bytes) (m : Map Bytes V)
      → k ≡ j
      → All (λ (e : Bytes × V). e.0 ≢ k) m
      → All (λ (e : Bytes × V). e.0 ≢ j) m
  Apart-key k j m same h = rw (← same) h

  Permᴰ-DistinctKeys : (m m' : Map Bytes V) → Permᴰ m m' → DistinctKeys m → DistinctKeys m'
  Permᴰ-DistinctKeys _ _ Permᴰ.nil h = h
  Permᴰ-DistinctKeys _ _ (Permᴰ.cons e d) (p, h) =
      (Apart-key _ _ _ (ap (λ x. x.0) e) (Permᴰ-All _ _ _ d p), Permᴰ-DistinctKeys _ _ d h)
  Permᴰ-DistinctKeys _ _ (Permᴰ.swap e e') ((p, ps), (q, h)) =
      let first = ap (λ x. x.0) e in
      let second = ap (λ x. x.0) e' in
      (
        (λ same. p (second ∙ sym same ∙ sym first), Apart-key _ _ _ second q),
        (Apart-key _ _ _ first ps, h),
      )
  Permᴰ-DistinctKeys _ _ (Permᴰ.trans d d') h =
      Permᴰ-DistinctKeys _ _ d' (Permᴰ-DistinctKeys _ _ d h)

  sort_entries-Permᴰ :
      (m m' : Map Bytes V) → Permᴰ m m' → DistinctKeys m → sort_entries m ≡ sort_entries m'
  unfolding sort_entries
  sort_entries-Permᴰ _ _ Permᴰ.nil h = refl
  sort_entries-Permᴰ _ _ (Permᴰ.cons e d) (p, h) = rw (e, sort_entries-Permᴰ _ _ d h)
  sort_entries-Permᴰ _ _ (Permᴰ.swap e e') ((p, ps), (q, h)) =
      rw (e, e')
        (insert_swap _ _ _ _ _ (λ same. p (ap (λ x. x.0) e' ∙ sym same ∙ sym (ap (λ x. x.0) e))))
  sort_entries-Permᴰ _ _ (Permᴰ.trans d d') h =
      sort_entries-Permᴰ _ _ d h ∙ sort_entries-Permᴰ _ _ d' (Permᴰ-DistinctKeys _ _ d h)

module _ (lib : Library) where
  tools_section-Permᴰ :
      (tools tools' : Map Bytes ToolNamespaceConfig)
      → Permᴰ tools tools'
      → DistinctKeys tools
      → tools_section lib tools ≡ tools_section lib tools'
  unfolding tools_section
  tools_section-Permᴰ [] [] d h = refl
  tools_section-Permᴰ [] (e ∷ m) d h = absurd ((Permᴰ-All (λ x. ⊥) [] (e ∷ m) d tt).0)
  tools_section-Permᴰ (e ∷ m) [] d h = absurd ((Permᴰ-All (λ x. ⊥) [] (e ∷ m) (Permᴰ.symm d) tt).0)
  tools_section-Permᴰ (e ∷ m) (e' ∷ m') d h =
      ap (λ entries. codes "# Tools" ++ namespace_texts lib entries)
        (sort_entries-Permᴰ (e ∷ m) (e' ∷ m') d h)

  -- The tools section does not depend on the order in which the map of the tools is visited: two
  -- maps with the same entries, each key once, have the same section.
  pub tools_section-Perm :
      (tools tools' : Map Bytes ToolNamespaceConfig)
      → Perm tools tools'
      → DistinctKeys tools
      → tools_section lib tools ≡ tools_section lib tools'
  tools_section-Perm tools tools' p h =
      let text_set : IsSet Bytes = hlevel in
      ∥∥₁_elim p (text_set (tools_section lib tools) (tools_section lib tools'))
        (λ d. tools_section-Permᴰ tools tools' d h)
