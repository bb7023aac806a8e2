-- ===== src/Encoding/Select/Kept.antt =====
-- The messages that are rendered, against a description that has no indices.
use harmony_go.Prelude.{
  ℕ, suc, length-append, append_assoc, lt→ltb, ◌≤◌, ◌<◌, ◌≡◌, refl, sym, ap, ◌∙◌, Bool, true, false,
  ◌&&◌, List, [], ◌∷◌, ◌++◌, Option, none, some, ltb, if◌then◌else◌, length, get_elem?, map, arith,
  Bool-cases, Option-cases, inl, inr,
}
use harmony_go.Types.{Message}
use harmony_go.Encoding.Select.{
  is_final, is_analysis, is_assistant, Scan, scan, scan_message, no_scan, drops, select_from,
  render_idx,
}

-- Without the analysis in front of the first final message.
unfoldable pub without_analysis : List Message → List Message
without_analysis [] = []
without_analysis (m ∷ msgs) =
    let rest = without_analysis msgs in
    if is_final m then m ∷ msgs else if is_analysis m then rest else m ∷ rest

-- The last message of an assistant is final; `before` stands for the messages in front.
unfoldable pub ends_final : Bool → List Message → Bool
ends_final before [] = before
ends_final before (m ∷ msgs) = ends_final (if is_assistant m then is_final m else before) msgs

-- The messages that a conversation should render.
unfoldable pub kept : Bool → List Message → List Message
kept auto_drop msgs = if auto_drop && ends_final false msgs then without_analysis msgs else msgs

scan-ends_final :
    (msgs : List Message) (i : ℕ) (s : Scan)
    → (scan i msgs s).last_assistant_final ≡ ends_final s.last_assistant_final msgs
unfolding scan ends_final scan_message
scan-ends_final [] i s = refl
scan-ends_final (m ∷ msgs) i s = scan-ends_final msgs (suc i) (scan_message i m s)

-- The index of the first final message, counted from `i`.
unfoldable first_from : ℕ → List Message → Option ℕ
first_from i [] = none
first_from i (m ∷ msgs) = let rest = first_from (suc i) msgs in if is_final m then some i else rest

scan_known :
    (msgs : List Message) (i k : ℕ) (s : Scan)
    → s.first_final ≡ some k
    → (scan i msgs s).first_final ≡ some k
unfolding scan scan_message
scan_known [] i k s h = h
scan_known (m ∷ msgs) i k s h = scan_known msgs (suc i) k (scan_message i m s) (rw h)

scan-first_from :
    (msgs : List Message) (i : ℕ) (s : Scan)
    → s.first_final ≡ none
    → (scan i msgs s).first_final ≡ first_from i msgs
unfolding scan scan_message first_from
scan-first_from [] i s h = h
scan-first_from (m ∷ msgs) i s h = elim (Bool-cases (is_final m)) [
  | inl e ↦ rw e (scan_known msgs (suc i) i (scan_message i m s) (rw (h, e)))
  | inr e ↦ rw e (scan-first_from msgs (suc i) (scan_message i m s) (rw (h, e)))
]

get_elem?-append :
    (front : List Message) (m : Message) (msgs : List Message)
    → get_elem? (front ++ m ∷ msgs) (length front) ≡ some m
get_elem?-append [] m msgs = refl
get_elem?-append (a ∷ front) m msgs = get_elem?-append front m msgs

-- The messages at the indices; an index outside would show as `none`.
abbrev pub at_indices : List Message → List ℕ → List (Option Message)
at_indices msgs indices = map (get_elem? msgs) indices

module _ (all : List Message) (first : Option ℕ) where
  -- From an index on where nothing is dropped, everything is selected.
  select_from_all :
      (drop_on : Bool) (msgs front : List Message) (i : ℕ)
      → all ≡ front ++ msgs
      → i ≡ length front
      → ((j : ℕ) (m : Message) → i ≤ j → drops drop_on first j m ≡ false)
      → at_indices all (select_from drop_on first i msgs) ≡ map some msgs
  unfolding select_from
  select_from_all drop_on [] front i e len h = refl
  select_from_all drop_on (m ∷ msgs) front i e len h =
      let here : get_elem? all i ≡ some m = rw (e, len) (get_elem?-append front m msgs) in
      let rest =
        select_from_all drop_on msgs (front ++ m ∷ []) (suc i)
          (e ∙ sym (append_assoc front (m ∷ []) msgs)) (omega (arith, length-append front (m ∷ [])))
          (λ j n le. h j n (omega arith)) in
      let stays = h i m (omega arith) in rw stays (rw (here, rest))

first_from_le : (msgs : List Message) (i k : ℕ) → first_from i msgs ≡ some k → i ≤ k
unfolding first_from
first_from_le [] i k h = absurd (ground arith)
first_from_le (m ∷ msgs) i k h = ground (arith, first_from_le msgs (suc i) k)

drops_behind : (i j : ℕ) (m : Message) → i ≤ j → drops true (some i) j m ≡ false
unfolding drops
drops_behind i j m h = ground arith

drops_before : (i k : ℕ) (m : Message) → i < k → drops true (some k) i m ≡ is_analysis m
unfolding drops
drops_before i k m h = let before : ltb i k ≡ true = lt→ltb i k h in rw before

first_from_final :
    (i : ℕ) (m : Message) (msgs : List Message)
    → is_final m ≡ true
    → first_from i (m ∷ msgs) ≡ some i
first_from_final i m msgs e = unfold first_from in rw e

first_from_other :
    (i : ℕ) (m : Message) (msgs : List Message)
    → is_final m ≡ false
    → first_from i (m ∷ msgs) ≡ first_from (suc i) msgs
first_from_other i m msgs e = unfold first_from in rw e

select_from_drop :
    (first : Option ℕ) (i : ℕ) (m : Message) (msgs : List Message)
    → drops true first i m ≡ true
    → select_from true first i (m ∷ msgs) ≡ select_from true first (suc i) msgs
select_from_drop first i m msgs e = unfold select_from in rw e

select_from_keep :
    (first : Option ℕ) (i : ℕ) (m : Message) (msgs : List Message)
    → drops true first i m ≡ false
    → select_from true first i (m ∷ msgs) ≡ i ∷ select_from true first (suc i) msgs
select_from_keep first i m msgs e = unfold select_from in rw e

-- In front of the first final message, exactly the analysis is left out.
select_from-without_analysis :
    (all msgs front : List Message) (i k : ℕ)
    → all ≡ front ++ msgs
    → i ≡ length front
    → first_from i msgs ≡ some k
    → at_indices all (select_from true (some k) i msgs) ≡ map some (without_analysis msgs)
unfolding without_analysis
select_from-without_analysis all [] front i k e len h = unfold select_from in refl
select_from-without_analysis all (m ∷ msgs) front i k e len h = elim (Bool-cases (is_final m)) [
  | inl f ↦
      let same : some i ≡ some k = sym (first_from_final i m msgs f) ∙ h in
      let eq : k ≡ i = ground arith in
      rw (f, eq)
        (select_from_all all (some i) true (m ∷ msgs) front i e len
          (λ j n le. drops_behind i j n le))
  | inr f ↦
      let later = sym (first_from_other i m msgs f) ∙ h in
      let lt = first_from_le msgs (suc i) k later in
      let here : get_elem? all i ≡ some m = rw (e, len) (get_elem?-append front m msgs) in
      let rest =
        select_from-without_analysis all msgs (front ++ m ∷ []) (suc i) k
          (e ∙ sym (append_assoc front (m ∷ []) msgs)) (omega (arith, length-append front (m ∷ [])))
          later in
      let test = drops_before i k m (omega arith) in
      elim (Bool-cases (is_analysis m)) [
        | inl a ↦ rw (select_from_drop (some k) i m msgs (test ∙ a), f, a) rest
        | inr a ↦ rw (select_from_keep (some k) i m msgs (test ∙ a), f, a, here, rest)
      ]
]

-- Where the last message of an assistant is final, there is a final message.
ends_final-first_from :
    (msgs : List Message) (before : Bool) (i : ℕ)
    → first_from i msgs ≡ none
    → ends_final before msgs ≡ true
    → before ≡ true
unfolding ends_final
ends_final-first_from [] before i h e = e
ends_final-first_from (m ∷ msgs) before i h e = elim (Bool-cases (is_final m)) [
  | inl f ↦ let clash : none ≡ some i = sym h ∙ first_from_final i m msgs f in absurd (ground arith)
  | inr f ↦
      let later = sym (first_from_other i m msgs f) ∙ h in
      let b =
        ends_final-first_from msgs (if is_assistant m then is_final m else before) (suc i) later
          e in
      ground (arith, b)
]

render_idx-select_from :
    (auto_drop : Bool) (msgs : List Message)
    → render_idx auto_drop msgs
      ≡ select_from (auto_drop && ends_final false msgs) (first_from 0 msgs) 0 msgs
render_idx-select_from auto_drop msgs =
    let final = scan-ends_final msgs 0 no_scan in
    let first = scan-first_from msgs 0 no_scan refl in unfold render_idx in rw (final, first)

drops_off : (first : Option ℕ) (i : ℕ) (m : Message) → drops false first i m ≡ false
unfolding drops
drops_off first i m = refl

-- The messages at the indices that `RenderConversation` renders, in their order, are those of the
-- conversation without the ones of the channel of analysis in front of the first final message, if
-- dropping is on and the last message of an assistant is final, and all of them if not.
pub render_idx-kept :
    (auto_drop : Bool) (msgs : List Message)
    → at_indices msgs (render_idx auto_drop msgs) ≡ map some (kept auto_drop msgs)
render_idx-kept auto_drop msgs =
    let drop_on = auto_drop && ends_final false msgs in
    ap (at_indices msgs) (render_idx-select_from auto_drop msgs) ∙ elim (Bool-cases drop_on) [
      | inr off ↦
          unfold kept in
          rw off (
            select_from_all msgs (first_from 0 msgs) false msgs [] 0 refl refl
              (λ j m le. drops_off (first_from 0 msgs) j m))
      | inl on ↦ elim (Option-cases (first_from 0 msgs)) [
        | inl e ↦
            let ends : ends_final false msgs ≡ true = ground arith in
            let clash = ends_final-first_from msgs false 0 e ends in absurd (ground arith)
        | inr (k, e) ↦
            unfold kept in rw (on, e) (select_from-without_analysis msgs msgs [] 0 k refl refl e)
      ]
    ]
