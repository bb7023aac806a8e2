-- ===== src/Encoding/Estimate/Total.antt =====
-- The loop of `shouldParallelRender` against the sum of the sizes.
use harmony_go.Prelude.{ℕ, ◌+◌, ◌≤◌, ◌<◌, ◌≡◌, ◌↔◌, Bool, true, List, [], ◌∷◌, leb, length, arith}
use harmony_go.Types.{Message}
use harmony_go.Encoding.Estimate.{
  size_at, total_reaches, should_parallel_render, parallel_render_min_bytes,
}

-- The sizes of all messages at the indices.
unfoldable pub total_size : List Message → List ℕ → ℕ
total_size msgs [] = 0
total_size msgs (idx ∷ indices) = size_at msgs idx + total_size msgs indices

total_reaches-total_size :
    (msgs : List Message) (indices : List ℕ) (total : ℕ)
    → total < parallel_render_min_bytes
    → total_reaches msgs indices total
      ≡ leb parallel_render_min_bytes (total + total_size msgs indices)
unfolding total_reaches total_size
total_reaches-total_size msgs [] total h = ground arith
total_reaches-total_size msgs (idx ∷ indices) total h =
    ground (arith, total_reaches-total_size msgs indices (total + size_at msgs idx))

-- A conversation is rendered in parallel exactly if this is enabled, two messages are rendered at
-- least, and their sizes add up to 8192 at least: leaving the loop early changes nothing.
pub should_parallel_render_iff :
    (enabled : Bool) (msgs : List Message) (indices : List ℕ)
    → (should_parallel_render enabled msgs indices ≡ true)
      ↔ ((enabled ≡ true) × (2 ≤ length indices) × (8192 ≤ total_size msgs indices))
unfolding should_parallel_render
should_parallel_render_iff enabled msgs indices =
    let t = total_reaches-total_size msgs indices 0 (omega arith) in ground arith
