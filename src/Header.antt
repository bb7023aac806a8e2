-- ===== src/Header.antt =====
-- header_helpers.go: the parts of a decoded header.
pub mod Loops
pub mod Tests
use harmony_go.Prelude.{
  ℕ, zero, suc, ◌+◌, ◌-◌, Bool, true, false, ◌&&◌, ◌||◌, not, List, [], ◌∷◌, ◌++◌, Option, none,
  some, Bytes, codes, ltb, leb, ◌==◌, bytes_eq, if◌then◌else◌, length, take, drop,
}
use harmony_go.Text.{has_prefix, index, index_byte, contains, replace_all, trim_space}
use harmony_go.Types.{Role, role_user, role_assistant, role_system, role_developer, role_tool}

abbrev pub channel_marker : Bytes
channel_marker = codes "<|channel|>"

abbrev pub constrain_marker : Bytes
constrain_marker = codes "<|constrain|>"

-- `if strings.Contains(s, m) { s = strings.TrimSpace(strings.ReplaceAll(s, m, " "+m)) }`
unfoldable pub set_apart : Bytes → Bytes → Bytes
set_apart s marker =
    if contains s marker then trim_space (replace_all s marker (b' ' ∷ marker)) else s

unfoldable pub normalize_header : Bytes → Bytes
normalize_header s = set_apart (set_apart s channel_marker) constrain_marker

-- The loops that stop at a space or at `<`: no byte of a longer character is one of these.
unfoldable pub token_end : Bytes → ℕ
token_end [] = 0
token_end (b ∷ s) = elim (b == b' ' || b == b'<') [ true ↦ 0 | false ↦ suc (token_end s) ]

unfoldable pub split_leading_token : Bytes → Bytes × Bytes
split_leading_token s =
    let stop = token_end s in
    (take stop s, if ltb stop (length s) then trim_space (drop stop s) else [])

unfoldable pub next_value_token : Bytes → Bytes
next_value_token input =
    let token = take (token_end (trim_space input)) (trim_space input) in
    if has_prefix token (codes "to=") || has_prefix token (codes "<|") then [] else token

unfoldable pub has_role : Bytes → Role → Bool
has_role role_token role = bytes_eq role_token role || has_prefix role_token (role ++ codes ":")

unfoldable pub detect_role : Bytes → Role
detect_role role_token =
    if has_role role_token role_user
    then role_user
    else if has_role role_token role_assistant
    then role_assistant
    else if has_role role_token role_system
    then role_system
    else if has_role role_token role_developer
    then role_developer
    else role_tool

unfoldable pub is_empty : Bytes → Bool
is_empty s = length s == 0

-- The `switch` on the role token of a tool.
unfoldable pub tool_name : Bytes → Bytes → Bytes
tool_name role_token remainder =
    if has_prefix role_token (codes "tool:")
    then drop 5 role_token
    else if bytes_eq role_token role_tool
    then next_value_token remainder
    else role_token

unfoldable pub author_name : Role → Bytes → Bytes → Bytes
author_name detected role_token remainder =
    if bytes_eq detected role_tool
    then (let name = tool_name role_token remainder in
        if is_empty name then next_value_token remainder else name)
    else if has_prefix role_token (detected ++ codes ":")
    then drop (length (detected ++ codes ":")) role_token
    else []

unfoldable pub detect_role_and_author : Bytes → Bytes → Role × Bytes
detect_role_and_author role_token remainder =
    let detected = detect_role role_token in (detected, author_name detected role_token remainder)

unfoldable pub extract_channel : Bytes → Bytes
extract_channel s = elim (index s channel_marker) [
  | none ↦ []
  | some idx ↦
      let after = drop (idx + length channel_marker) s in
      elim (index_byte after b' ') [ none ↦ after | some end ↦ take end after ]
]

unfoldable pub extract_recipient : Bytes → Bytes
extract_recipient s = elim (index s (codes " to=")) [
  | none ↦ []
  | some idx ↦ let after = drop (idx + 4) s in take (token_end after) after
]

-- The loop over the role prefixes, left at the first that matches.
unfoldable pub strip_role : List Bytes → Bytes → Bytes
strip_role [] ss = ss
strip_role (r ∷ roles) ss = elim (has_prefix ss r) [
  | false ↦ strip_role roles ss
  | true ↦
      let rest = drop (length r) ss in
      if has_prefix rest (codes ":")
      then (elim (index_byte (drop 1 rest) b' ') [ none ↦ [] | some sp ↦ drop sp (drop 1 rest) ])
      else rest
]

unfoldable pub strip_recipient : Bytes → Bytes
strip_recipient ss =
    if has_prefix ss (codes "to=")
    then (let after = drop 3 ss in
        elim (index_byte after b' ') [ none ↦ [] | some sp ↦ trim_space (drop sp after) ])
    else (elim (index ss (codes " to=")) [
      | none ↦ ss
      | some idx ↦
          let before = take idx ss in
          let after = drop (idx + 4) ss in
          elim (index_byte after b' ') [
            | none ↦ trim_space before
            | some sp ↦ trim_space (before ++ drop sp after)
          ]
    ])

-- One round of the loop that strips the channels, behind the marker at `idx`.
unfoldable pub strip_channel_at : Bytes → ℕ → Bytes
strip_channel_at ss idx =
    let after = drop (idx + length channel_marker) ss in
    elim (index_byte after b' ') [
      | none ↦ trim_space (take idx ss)
      | some sp ↦ trim_space (take idx ss ++ drop sp after)
    ]

unfoldable pub strip_channels : ℕ → Bytes → Bytes
strip_channels zero ss = ss
strip_channels (suc fuel) ss = elim (index ss channel_marker) [
  | none ↦ ss
  | some idx ↦ strip_channels fuel (strip_channel_at ss idx)
]

-- `[]string{"assistant", "user", "system", "developer"}`
abbrev pub role_prefixes : List Bytes
role_prefixes = role_assistant ∷ role_user ∷ role_system ∷ role_developer ∷ []

-- The role token is not used. Each round makes the text shorter, so that its length is enough.
unfoldable pub scrub_content_type : Bytes → Bytes → Bytes
scrub_content_type role_token remainder =
    let ss = strip_recipient (strip_role role_prefixes remainder) in
    trim_space (strip_channels (suc (length ss)) ss)
