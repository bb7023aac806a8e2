-- ===== src/Encoding/Estimate.antt =====
-- encoding.go: the sizes that decide whether a conversation is rendered in parallel.
pub mod Total
use harmony_go.Prelude.{
  ℕ, ◌+◌, Bool, true, false, ◌&&◌, ◌||◌, not, List, [], ◌∷◌, Option, none, some, Bytes, codes,
  bytes_eq, ltb, leb, if◌then◌else◌, length, Map, get_elem?,
}
use harmony_go.Types.{
  Author, ChannelConfig, ToolDescription, ToolNamespaceConfig, SystemContent, DeveloperContent,
  Content, content_text, content_system, content_developer, Message,
}
use harmony_go.Header.{is_empty}

-- The length of a text behind a pointer, where it is not nil.
unfoldable pub text_size : Option Bytes → ℕ
text_size none = 0
text_size (some s) = length s

unfoldable pub estimate_strings_size : List Bytes → ℕ
estimate_strings_size [] = 0
estimate_strings_size (s ∷ rest) = length s + estimate_strings_size rest

unfoldable pub estimate_channel_config_size : ChannelConfig → ℕ
estimate_channel_config_size cfg =
    estimate_strings_size cfg.valid_channels + (if cfg.channel_required then 1 else 0)

unfoldable pub estimate_tool_list_size : List ToolDescription → ℕ
estimate_tool_list_size [] = 0
estimate_tool_list_size (td ∷ tools) =
    length td.name + length td.description + length td.parameters + estimate_tool_list_size tools

unfoldable pub estimate_tools_map_size : Map Bytes ToolNamespaceConfig → ℕ
estimate_tools_map_size [] = 0
estimate_tools_map_size ((key, ns) ∷ tools) =
    length ns.name
    + text_size ns.description
    + estimate_tool_list_size ns.tools
    + estimate_tools_map_size tools

unfoldable pub estimate_system_content_size : SystemContent → ℕ
estimate_system_content_size sys =
    text_size sys.model_identity
    + text_size sys.reasoning_effort
    + text_size sys.conversation_start_date
    + text_size sys.knowledge_cutoff
    + (elim sys.channel_config [ none ↦ 0 | some cfg ↦ estimate_channel_config_size cfg ])
    + estimate_tools_map_size sys.tools

unfoldable pub estimate_developer_content_size : DeveloperContent → ℕ
estimate_developer_content_size dev = text_size dev.instructions + estimate_tools_map_size dev.tools

unfoldable pub estimate_content_size : Content → ℕ
estimate_content_size c =
    if bytes_eq c.kind content_text
    then length c.text
    else if bytes_eq c.kind content_system
    then (elim c.system [ none ↦ 0 | some sys ↦ estimate_system_content_size sys ])
    else if bytes_eq c.kind content_developer
    then (elim c.developer [ none ↦ 0 | some dev ↦ estimate_developer_content_size dev ])
    else 0

unfoldable pub estimate_contents_size : List Content → ℕ
estimate_contents_size [] = 0
estimate_contents_size (c ∷ cs) = estimate_content_size c + estimate_contents_size cs

-- `msg.Recipient != "" && msg.Recipient != "all"`
unfoldable pub needs_recipient : Message → Bool
needs_recipient msg = not (is_empty msg.recipient) && not (bytes_eq msg.recipient (codes "all"))

unfoldable pub estimate_message_size : Message → ℕ
estimate_message_size msg =
    length msg.author.name
    + length msg.channel
    + length msg.content_type
    + (if needs_recipient msg then length msg.recipient else 0)
    + estimate_contents_size msg.content

abbrev pub parallel_render_min_bytes : ℕ
parallel_render_min_bytes = 8192

abbrev pub parallel_render_min_messages : ℕ
parallel_render_min_messages = 2

-- The size at an index; the indices of the code are those of messages.
unfoldable pub size_at : List Message → ℕ → ℕ
size_at msgs idx = elim (get_elem? msgs idx) [ none ↦ 0 | some m ↦ estimate_message_size m ]

-- The loop that stops as soon as the total is large enough.
unfoldable pub total_reaches : List Message → List ℕ → ℕ → Bool
total_reaches msgs [] total = false
total_reaches msgs (idx ∷ indices) total =
    let more = total + size_at msgs idx in
    let rest = total_reaches msgs indices more in
    if leb parallel_render_min_bytes more then true else rest

-- `enabled` is what `parallelRenderEnabled` reads from the environment.
unfoldable pub should_parallel_render : Bool → List Message → List ℕ → Bool
should_parallel_render enabled msgs indices =
    if not enabled
    then false
    else if ltb (length indices) parallel_render_min_messages
    then false
    else total_reaches msgs indices 0
