-- ===== src/Sections.antt =====
-- render_tools.go and render_system.go: the texts of the tools, developer and system sections.
pub mod Comments
pub mod Order
pub mod Tests
use harmony_go.Prelude.{
  ℕ, zero, suc, ◌+◌, ◌-◌, Bool, true, false, not, ◌&&◌, ◌||◌, List, [], ◌∷◌, ◌++◌, Option, none,
  some, Bytes, codes, bytes_eq, if◌then◌else◌, Map, map, concat, length, take, drop, ltb, leb, ◌==◌,
  All,
}
use harmony_go.Header.{is_empty}
use harmony_go.Text.{index_byte}
use harmony_go.Text.Lines.{join, trim_line_ends, sort_entries}
use harmony_go.Types.{
  ToolDescription, ToolNamespaceConfig, SystemContent, DeveloperContent, ChannelConfig,
}
use harmony_go.Json.{
  Value, Items, Fields, null, boolean, number, string, array, object, end, field, get_text,
}
use harmony_go.Json.Depth.{depth}
use harmony_go.Schema.{render_schema_object, schema_to_ts}

-- What the sections use of the standard library: `json.Unmarshal` of a document, none for an error,
-- and `strings.ToLower` of a text that is not ASCII.
pub record Library : Type 0 where
  pub unmarshal : Bytes → Option Value
  pub to_lower_unicode : Bytes → Bytes

-- The loop of `writeCommentLines`, at most one round for each byte and one more.
unfoldable pub comment_loop : ℕ → Bytes → Bytes
comment_loop zero text = []
comment_loop (suc fuel) text = elim (index_byte text b'\n') [
  | none ↦ codes "// " ++ text ++ codes "\n"
  | some i ↦ codes "// " ++ take i text ++ codes "\n" ++ comment_loop fuel (drop (suc i) text)
]

unfoldable pub comment_lines : Bytes → Bytes
comment_lines text = comment_loop (suc (length text)) text

-- The keys of an object up to an empty one.
unfoldable pub document_keys : Fields → List Bytes
document_keys end = []
document_keys (field k v fs) = let rest = document_keys fs in if is_empty k then [] else k ∷ rest

unfoldable pub keys_of_object : Value → List Bytes
keys_of_object (object fs) = document_keys fs
keys_of_object _ = []

-- The keys of the first field `properties`.
unfoldable pub first_properties : Fields → List Bytes
first_properties end = []
first_properties (field k v fs) =
    let rest = first_properties fs in
    if bytes_eq k (codes "properties") then keys_of_object v else rest

-- `orderedPropertyKeys` of a document that could be read.
unfoldable pub ordered_property_keys : Value → List Bytes
ordered_property_keys (object fs) = first_properties fs
ordered_property_keys _ = []

-- What stands behind `type name = (_:` for a schema.
unfoldable pub root_text : Value → Bytes
root_text schema =
    (elim (get_text schema (codes "description")) [
      | none ↦ codes " {"
      | some d ↦ codes " // " ++ d ++ codes "\n{"
    ])
    ++ render_schema_object (schema_to_ts (depth schema)) schema (codes "\n")
        (ordered_property_keys schema)
    ++ codes "\n}) => any;\n\n"

unfoldable pub any_type : Bytes → Bytes
any_type name = codes "type " ++ name ++ codes " = (_: any) => any;\n\n"

-- A document that is `null` is no schema.
unfoldable pub schema_type : Bytes → Value → Bytes
schema_type name null = any_type name
schema_type name v = codes "type " ++ name ++ codes " = (_:" ++ root_text v

-- A pointer to a text that is not nil, and the text not empty.
unfoldable pub text_or : Option Bytes → Bytes → Bytes
text_or none other = other
text_or (some s) other = if is_empty s then other else s

unfoldable pub lower_byte : ℕ → ℕ
lower_byte b = if leb b'A' b && leb b b'Z' then b + 32 else b

unfoldable pub is_ascii : Bytes → Bool
is_ascii [] = true
is_ascii (b ∷ s) = ltb b 128 && is_ascii s

unfoldable pub identity_text : SystemContent → Bytes
identity_text sys =
    text_or sys.model_identity (codes "You are ChatGPT, a large language model trained by OpenAI.")
    ++ codes "\nKnowledge cutoff: "
    ++ text_or sys.knowledge_cutoff (codes "2024-06")
    ++ (let date = text_or sys.conversation_start_date [] in
        if is_empty date then [] else codes "\nCurrent date: " ++ date)

unfoldable pub default_channels : ChannelConfig
default_channels = record {
  valid_channels = codes "analysis" ∷ codes "commentary" ∷ codes "final" ∷ [];
  channel_required = true;
}

unfoldable pub channels_text : Bool → ChannelConfig → Bytes
channels_text has_function_tools cfg =
    codes "# Valid channels: "
    ++ join (codes ", ") cfg.valid_channels
    ++ codes "."
    ++ (if cfg.channel_required then codes " Channel must be included for every message." else [])
    ++ (if has_function_tools
        then codes "\nCalls to these tools must go to the commentary channel: 'functions'."
        else [])

-- A section behind a body that is not empty stands behind an empty line.
unfoldable pub add_section : Bytes → Bytes → Bytes
add_section body section = body ++ (if is_empty body then [] else codes "\n\n") ++ section

unfoldable pub channel_section : Bool → SystemContent → Bytes → Bytes
channel_section has_function_tools sys body =
    let cfg : ChannelConfig = elim sys.channel_config [ none ↦ default_channels | some c ↦ c ] in
    elim cfg.valid_channels [
      | [] ↦ body
      | c ∷ cs ↦ add_section body (channels_text has_function_tools cfg)
    ]

module _ (lib : Library) where
  unfoldable pub tool_text : ToolDescription → Bytes
  tool_text tool =
      comment_lines tool.description
      ++ (if is_empty tool.parameters
          then codes "type " ++ tool.name ++ codes " = () => any;\n\n"
          else (elim (lib.unmarshal tool.parameters) [
            | none ↦ any_type tool.name
            | some schema ↦ schema_type tool.name schema
          ]))

  unfoldable pub tool_texts : List ToolDescription → Bytes
  tool_texts [] = []
  tool_texts (tool ∷ tools) = tool_text tool ++ tool_texts tools

  unfoldable pub namespace_description : ToolNamespaceConfig → Bytes
  namespace_description ns = elim ns.description [
    | none ↦ []
    | some d ↦
        if is_empty d
        then []
        else (elim ns.tools [ [] ↦ d ++ codes "\n\n" | tool ∷ tools ↦ comment_lines d ])
  ]

  unfoldable pub namespace_tools : Bytes → List ToolDescription → Bytes
  namespace_tools name [] = []
  namespace_tools name (tool ∷ tools) =
      codes "namespace "
      ++ name
      ++ codes " {\n\n"
      ++ tool_texts (tool ∷ tools)
      ++ codes "} // namespace "
      ++ name

  unfoldable pub namespace_text : ToolNamespaceConfig → Bytes
  namespace_text ns =
      codes "## "
      ++ ns.name
      ++ codes "\n\n"
      ++ namespace_description ns
      ++ namespace_tools ns.name ns.tools

  -- The loop over the sorted names.
  unfoldable pub namespace_texts : Map Bytes ToolNamespaceConfig → Bytes
  namespace_texts [] = []
  namespace_texts ((key, ns) ∷ tools) =
      codes "\n\n" ++ trim_line_ends (namespace_text ns) ++ namespace_texts tools

  unfoldable pub tools_section : Map Bytes ToolNamespaceConfig → Bytes
  tools_section [] = []
  tools_section (entry ∷ tools) = codes "# Tools" ++ namespace_texts (sort_entries (entry ∷ tools))

  -- `renderDeveloperContent` up to the encoding of its text.
  unfoldable pub developer_text : DeveloperContent → Bytes
  developer_text dev =
      let instructions = text_or dev.instructions [] in
      let body = if is_empty instructions then [] else codes "# Instructions\n\n" ++ instructions in
      elim dev.tools [
        | [] ↦ body
        | entry ∷ tools ↦
            body ++ (if is_empty body then [] else codes "\n\n") ++ tools_section (entry ∷ tools)
      ]

  -- `strings.ToLower`
  unfoldable pub to_lower : Bytes → Bytes
  to_lower s = if is_ascii s then map lower_byte s else lib.to_lower_unicode s

  unfoldable pub reasoning_text : SystemContent → Bytes
  reasoning_text sys =
      codes "Reasoning: "
      ++ (elim sys.reasoning_effort [ none ↦ codes "medium" | some e ↦ to_lower e ])

  unfoldable pub tools_part : SystemContent → Bytes → Bytes
  tools_part sys body = elim sys.tools [
    | [] ↦ body
    | entry ∷ tools ↦ add_section body (tools_section (entry ∷ tools))
  ]

  -- `renderSystemContent` up to the encoding of its text.
  unfoldable pub system_text : Bool → SystemContent → Bytes
  system_text has_function_tools sys =
      channel_section has_function_tools sys
        (tools_part sys (add_section (add_section [] (identity_text sys)) (reasoning_text sys)))
