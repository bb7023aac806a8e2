-- ===== src/Encoding/Tests.antt =====
-- The theorems on a conversation at a short one.
use harmony_go.Prelude.{
  bytes_eq, ℕ, ◌≡◌, ◌↔◌, ◌≤◌, refl, true, List, [], ◌∷◌, some, map, Bytes, codes, length,
}
use harmony_go.Types.{Message, role_user, role_assistant, Role}
use harmony_go.Encoding.Select.{
  render_idx, scan, scan_message, select_from, drops, is_final, is_analysis, is_assistant,
}
use harmony_go.Encoding.Select.Kept.{at_indices, kept, render_idx-kept}
use harmony_go.Encoding.Estimate.{should_parallel_render}
use harmony_go.Encoding.Estimate.Total.{total_size, should_parallel_render_iff}

abbrev message : Role → Bytes → Message
message role channel = record {
  author = record { role = role; name = [] };
  recipient = [];
  content = [];
  channel = channel;
  content_type = [];
}

abbrev answered : List Message
answered =
    message role_user []
    ∷ message role_assistant (codes "analysis")
    ∷ message role_assistant (codes "final")
    ∷ []

-- The analysis is left out.
answered_indices : render_idx true answered ≡ 0 ∷ 2 ∷ []
unfolding render_idx scan scan_message select_from drops is_final is_analysis is_assistant bytes_eq
answered_indices = refl

render_idx-kept_example :
    at_indices answered (render_idx true answered) ≡ map some (kept true answered)
render_idx-kept_example = render_idx-kept true answered

should_parallel_render_iff_example : (should_parallel_render true answered (0 ∷ 2 ∷ []) ≡ true) ↔ (
    (true ≡ true) × (2 ≤ length {A = ℕ} (0 ∷ 2 ∷ [])) × (8192 ≤ total_size answered (0 ∷ 2 ∷ [])))
should_parallel_render_iff_example = should_parallel_render_iff true answered (0 ∷ 2 ∷ [])
