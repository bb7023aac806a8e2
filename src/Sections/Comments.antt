-- ===== src/Sections/Comments.antt =====
-- render_tools.go, writeCommentLines: the loop over the line ends, and the lines of the text.
use harmony_go.Prelude.{
  ℕ, zero, suc, ◌<◌, ◌≡◌, sym, ap, ◌∙◌, [], ◌∷◌, ◌++◌, Bytes, codes, arith, inl, inr, Option-cases,
  map, concat, length, take, drop, append-nil,
}
use harmony_go.Text.{index_byte}
use harmony_go.Text.Search.{length-index_byte}
use harmony_go.Text.Lines.{split_lines}
use harmony_go.Text.Lines.First.{split_lines_first, length-drop_line}
use harmony_go.Sections.{comment_loop, comment_lines}

abbrev comment_line : Bytes → Bytes
comment_line line = codes "// " ++ line ++ codes "\n"

comment_loop-split_lines :
    (fuel : ℕ) (s : Bytes)
    → length s < fuel
    → comment_loop fuel s ≡ concat (map comment_line (split_lines s))
comment_loop-split_lines zero s lt = absurd (omega arith)
comment_loop-split_lines (suc fuel) s lt = elim (Option-cases (index_byte s b'\n')) [
  | inl gone ↦
      let lines : split_lines s ≡ s ∷ [] = split_lines_first s ∙ (rw gone) in
      let here : comment_loop (suc fuel) s ≡ comment_line s =
        unfold comment_loop in rw (gone, comment_loop) in
      here ∙ sym (ap (λ ls. concat (map comment_line ls)) lines ∙ append-nil (comment_line s))
  | inr (i, found) ↦
      let lines : split_lines s ≡ take i s ∷ split_lines (drop (suc i) s) =
        split_lines_first s ∙ (rw found) in
      let here : comment_loop (suc fuel) s
          ≡ codes "// " ++ take i s ++ codes "\n" ++ comment_loop fuel (drop (suc i) s) =
        unfold comment_loop in rw (found, comment_loop) in
      let shorter = length-drop_line s i (length-index_byte s b'\n' i found) in
      let rest = comment_loop-split_lines fuel (drop (suc i) s) (omega arith) in
      here
      ∙ ap (λ t. codes "// " ++ take i s ++ codes "\n" ++ t) rest
      ∙ sym (ap (λ ls. concat (map comment_line ls)) lines)
]

-- What writeCommentLines writes of a text is each line of the text behind `// ` and before a line
-- end, where the lines are those of strings.Split, so that the loop reaches the end of the text.
pub comment_lines-split_lines :
    (text : Bytes)
    → comment_lines text
      ≡ concat (map (λ line. codes "// " ++ line ++ codes "\n") (split_lines text))
unfolding comment_lines
comment_lines-split_lines text = comment_loop-split_lines (suc (length text)) text (omega arith)
