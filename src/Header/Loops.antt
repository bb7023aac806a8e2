-- ===== src/Header/Loops.antt =====
-- The loop of `scrubContentType` that strips the channels.
use harmony_go.Prelude.{
  length-take_le, ℕ, zero, suc, ◌+◌, ◌<◌, ◌≡◌, ◌++◌, none, some, Bytes, length, take, drop, arith,
  Option-cases, inl, inr, length-drop, length-append,
}
use harmony_go.Text.{index, index_byte}
use harmony_go.Text.Search.{length-index, length-index_byte, length-trim_space}
use harmony_go.Header.{strip_channel_at, strip_channels, channel_marker}

strip_channel_at-shorter :
    (ss : Bytes) (idx : ℕ)
    → index ss channel_marker ≡ some idx
    → length (strip_channel_at ss idx) < length ss
strip_channel_at-shorter ss idx h =
    let fits = length-index ss channel_marker idx h in
    let after = drop (idx + length channel_marker) ss in
    let before = take idx ss in
    elim (Option-cases (index_byte after b' ')) [
      | inl e ↦
          unfold strip_channel_at in
          rw (e, strip_channel_at)
            (omega (arith, length-trim_space before, length-take_le idx ss (omega arith)))
      | inr (sp, e) ↦
          let shorter : length (before ++ drop sp after) < length ss = omega (
            arith,
            length-append before (drop sp after),
            length-drop sp after,
            length-drop (idx + length channel_marker) ss,
            length-take_le idx ss (omega arith),
            length-index_byte after b' ' sp e,
          ) in
          unfold strip_channel_at in
          rw (e, strip_channel_at) (omega (arith, length-trim_space (before ++ drop sp after)))
    ]

strip_channels_stop :
    (fuel : ℕ) (ss : Bytes) → index ss channel_marker ≡ none → strip_channels (suc fuel) ss ≡ ss
strip_channels_stop fuel ss e = unfold strip_channels in rw (e, strip_channels)

strip_channels_on :
    (fuel : ℕ) (ss : Bytes) (idx : ℕ)
    → index ss channel_marker ≡ some idx
    → strip_channels (suc fuel) ss ≡ strip_channels fuel (strip_channel_at ss idx)
strip_channels_on fuel ss idx e = unfold strip_channels in rw (e, strip_channels)

-- The loop ends by itself when it has one round for each byte: no channel marker is left.
pub strip_channels_done :
    (fuel : ℕ) (ss : Bytes)
    → length ss < fuel
    → index (strip_channels fuel ss) channel_marker ≡ none
strip_channels_done zero ss lt = absurd (omega arith)
strip_channels_done (suc fuel) ss lt = elim (Option-cases (index ss channel_marker)) [
  | inl e ↦ rw (strip_channels_stop fuel ss e) e
  | inr (idx, e) ↦ rw (strip_channels_on fuel ss idx e) (
      strip_channels_done fuel (strip_channel_at ss idx)
        (omega (arith, strip_channel_at-shorter ss idx e)))
]
