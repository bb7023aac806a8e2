-- ===== src/Header/Tests.antt =====
-- Runs of the header helpers.
use harmony_go.Prelude.{◌≡◌, none, Bytes, codes, arith}
use harmony_go.Header.{channel_marker, strip_channels}
use harmony_go.Header.Loops.{strip_channels_done}
use harmony_go.Text.{index}

abbrev two_channels : Bytes
two_channels = codes "<|channel|>a <|channel|>b json"

strip_channels_done_example : index (strip_channels 31 two_channels) channel_marker ≡ none
strip_channels_done_example = strip_channels_done 31 two_channels (omega arith)
