-- ===== src/Sections/Tests.antt =====
-- Small texts, schemas and tools: runs of the sections, and the theorems at them.
use mathlib.Core.List.Perm
use harmony_go.Prelude.{
  ◌≤◌, ◌≡◌, refl, [], ◌∷◌, ◌++◌, none, some, Bytes, codes, arith, Map, map, concat, bytes_eq,
}
use harmony_go.Types.{ToolDescription, ToolNamespaceConfig}
use harmony_go.Header.{is_empty}
use harmony_go.Text.{index_byte, index, contains}
use harmony_go.Text.Lines.{
  split_lines, sort_entries, insert_entry, bytes_lt, join, trim_line_ends, sort_strings,
  insert_string,
}
use harmony_go.Json.{
  Value, string, array, object, nil, cons, end, field, get_string, get_text, get_items, items_of,
  items, mget, fields_of, field_of, map_keys, has_key,
}
use harmony_go.Json.Depth.{depth, depth_fields, depth_items}
use harmony_go.Schema.{
  schema_step, schema_to_ts, string_type, render_schema_object, properties_of, required_set,
  strings_of, property_keys, properties_text, property_at, property_text, plain_property,
  property_comments, title_comment, description_comment, examples_comment, property_name,
  default_of, is_nullable,
}
use harmony_go.Schema.Types.{
  TsType, ts_integer, ts_words, ts_enum, ts_array, ts_choice, ts_object, ts_none, ts_more, ts_end,
  ts_field, schema_of, schemas_of, properties_schema, strings, property_names, property_label,
  object_text, type_text, value_text, member_lines, property_lines, shown_word, quoted, IsProper,
  AreProper, HasProper,
}
use harmony_go.Schema.Described.{schema_to_ts-type_text}
use harmony_go.Sections.{
  Library, comment_lines, tools_section, comment_loop, namespace_texts, namespace_text,
  namespace_description, namespace_tools, tool_texts, tool_text,
}
use harmony_go.Sections.Comments.{comment_lines-split_lines}
use harmony_go.Sections.Order.{DistinctKeys, tools_section-Perm}

comment_lines-split_lines_example :
    comment_lines (codes "one\n\ntwo\n")
    ≡ concat (map (λ line. codes "// " ++ line ++ codes "\n") (split_lines (codes "one\n\ntwo\n")))
comment_lines-split_lines_example = comment_lines-split_lines (codes "one\n\ntwo\n")

-- The empty line behind the last line end is written too.
comment_lines_run : comment_lines (codes "a\n") ≡ codes "// a\n// \n"
unfolding comment_lines comment_loop index_byte
comment_lines_run = refl

-- `{"type": "array", "items": {"type": "integer"}}`
abbrev numbers : Value
numbers = object (
    field (codes "type") (string (codes "array"))
      (field (codes "items") (object (field (codes "type") (string (codes "integer")) end)) end))

numbers_run : schema_to_ts 2 numbers (codes "\n") ≡ codes "number[]"
unfolding schema_to_ts schema_step string_type get_string mget fields_of field_of bytes_eq
numbers_run = refl

-- `{"type": "object", "properties": {"xs": …}, "required": ["xs"]}`
abbrev record_of_numbers : Value
record_of_numbers = object (
    field (codes "type") (string (codes "object")) (
      field (codes "properties") (object (field (codes "xs") numbers end))
        (field (codes "required") (array (cons (string (codes "xs")) nil)) end)))

record_of_numbers_run :
    schema_to_ts 4 record_of_numbers (codes "\n    ") ≡ codes "{\n    xs: number[],\n\n   }"
unfolding schema_to_ts schema_step string_type get_string get_text get_items items_of items mget
    fields_of field_of bytes_eq render_schema_object properties_of required_set strings_of
    property_keys map_keys sort_strings insert_string properties_text property_at property_text
    plain_property property_comments title_comment description_comment examples_comment
    property_name has_key default_of is_nullable contains index
record_of_numbers_run = refl

-- An object of numbers, some of them, and of words or numbers, as it is required.
abbrev entry : TsType
entry =
    ts_object
      (ts_field (codes "xs") (ts_array ts_integer) (
        ts_field (codes "kind")
          (ts_choice (ts_enum (codes "a") (codes "b" ∷ []))
            (ts_more (ts_words (codes "integer") (codes "null" ∷ [])) ts_none))
          ts_end))
      (codes "kind" ∷ [])

entry-depth : depth (schema_of entry) ≤ 8
unfolding depth depth_fields depth_items schema_of schemas_of properties_schema strings
entry-depth = omega arith

entry-IsProper : IsProper entry
unfolding IsProper AreProper HasProper property_names has_key bytes_eq
entry-IsProper = (refl, tt, (refl, (tt, (tt, tt)), tt))

-- The properties come in the order of their names.
entry_run :
    type_text entry (codes "\n")
    ≡ codes "{\nkind:\n | \"a\" | \"b\"\n | number | null\n,\nxs?: number[],\n}"
unfolding type_text object_text property_lines property_label value_text member_lines shown_word
    quoted has_key bytes_eq sort_entries insert_entry bytes_lt join
entry_run = refl

schema_to_ts-type_text_example :
    schema_to_ts 8 (schema_of entry) (codes "\n") ≡ type_text entry (codes "\n")
schema_to_ts-type_text_example =
    schema_to_ts-type_text entry (codes "\n") 8 entry-depth entry-IsProper (omega arith)

abbrev no_documents : Library
no_documents = record { unmarshal = λ s. none; to_lower_unicode = λ s. s }

abbrev tool : ToolDescription
tool = record { name = codes "f"; description = codes "adds"; parameters = [] }

abbrev functions : ToolNamespaceConfig
functions = record { name = codes "functions"; description = none; tools = tool ∷ [] }

abbrev browser : ToolNamespaceConfig
browser = record { name = codes "browser"; description = some (codes "reads"); tools = [] }

abbrev two_tools : Map Bytes ToolNamespaceConfig
two_tools = (codes "functions", functions) ∷ (codes "browser", browser) ∷ []

two_tools-DistinctKeys : DistinctKeys two_tools
two_tools-DistinctKeys = ((λ same. absurd (ground (arith, same)), tt), (tt, tt))

tools_section_run :
    tools_section no_documents two_tools
    ≡ codes
        "# Tools\n\n## browser\n\nreads\n\n## functions\n\nnamespace functions {\n\n// adds\ntype f = () => any;\n\n} // namespace functions"
unfolding tools_section namespace_texts namespace_text namespace_description namespace_tools
    tool_texts tool_text comment_lines comment_loop index_byte sort_entries insert_entry bytes_lt
    trim_line_ends is_empty
tools_section_run = refl

tools_section-Perm_example :
    tools_section no_documents two_tools
    ≡ tools_section no_documents ((codes "browser", browser) ∷ (codes "functions", functions) ∷ [])
tools_section-Perm_example =
    tools_section-Perm no_documents two_tools
      ((codes "browser", browser) ∷ (codes "functions", functions) ∷ [])
      (Perm.swap (codes "browser", browser) (codes "functions", functions) [])
      two_tools-DistinctKeys
