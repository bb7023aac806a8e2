-- ===== src/Schema/Types.antt =====
-- Types as render_tools.go shows them: the JSON schema of a type, and its text in TypeScript,
-- described without the schema.
use harmony_go.Prelude.{
  ◌-◌, false, List, [], ◌∷◌, ◌++◌, Bytes, codes, bytes_eq, Map, map, concat, take, length,
  if◌then◌else◌, ◌≡◌,
}
use harmony_go.Text.Lines.{join, sort_entries}
use harmony_go.Json.{Value, Items, Fields, string, array, object, nil, cons, end, field, has_key}

-- Words are a type that is an array of names. A choice and an enumeration have a member at least. An
-- object has its properties, in the order of the document, and the names of those it requires.
mutual
  pub data TsType : Type 0 where
    ts_any : TsType
    ts_string : TsType
    ts_number : TsType
    ts_integer : TsType
    ts_boolean : TsType
    ts_any_array : TsType
    ts_words : Bytes → List Bytes → TsType
    ts_enum : Bytes → List Bytes → TsType
    ts_array : TsType → TsType
    ts_choice : TsType → TsTypes → TsType
    ts_object : TsFields → List Bytes → TsType

  pub data TsTypes : Type 0 where
    ts_none : TsTypes
    ts_more : TsType → TsTypes → TsTypes

  pub data TsFields : Type 0 where
    ts_end : TsFields
    ts_field : Bytes → TsType → TsFields → TsFields

unfoldable pub strings : List Bytes → Items
strings [] = nil
strings (s ∷ ss) = cons (string s) (strings ss)

-- `{"type": word}`
abbrev pub named : Bytes → Value
named word = object (field (codes "type") (string word) end)

unfoldable mutual
  pub schema_of : TsType → Value
  schema_of ts_any = object end
  schema_of ts_string = named (codes "string")
  schema_of ts_number = named (codes "number")
  schema_of ts_integer = named (codes "integer")
  schema_of ts_boolean = named (codes "boolean")
  schema_of ts_any_array = named (codes "array")
  schema_of (ts_words w ws) =
      object (field (codes "type") (array (cons (string w) (strings ws))) end)
  schema_of (ts_enum v vs) = object (
      field (codes "type") (string (codes "string"))
        (field (codes "enum") (array (cons (string v) (strings vs))) end))
  schema_of (ts_array t) =
      object
        (field (codes "type") (string (codes "array")) (field (codes "items") (schema_of t) end))
  schema_of (ts_choice t ts) =
      object (field (codes "oneOf") (array (cons (schema_of t) (schemas_of ts))) end)
  schema_of (ts_object fs required) = object (
      field (codes "type") (string (codes "object")) (
        field (codes "properties") (object (properties_schema fs))
          (field (codes "required") (array (strings required)) end)))

  pub schemas_of : TsTypes → Items
  schemas_of ts_none = nil
  schemas_of (ts_more t ts) = cons (schema_of t) (schemas_of ts)

  pub properties_schema : TsFields → Fields
  properties_schema ts_end = end
  properties_schema (ts_field key t fs) = field key (schema_of t) (properties_schema fs)

-- An integer is shown as a number.
unfoldable pub shown_word : Bytes → Bytes
shown_word w = if bytes_eq w (codes "integer") then codes "number" else w

unfoldable pub quoted : Bytes → Bytes
quoted s = codes "\"" ++ s ++ codes "\""

-- The name of a property, with a question mark if it is not required.
unfoldable pub property_label : List Bytes → Bytes → Bytes → Bytes
property_label required indent key =
    indent ++ key ++ (if has_key key required then [] else codes "?")

-- The lines of the properties come in the order of their names.
unfoldable pub object_text : Map Bytes Bytes → Bytes → Bytes
object_text lines indent =
    codes "{"
    ++ concat (map (λ e. e.1) (sort_entries lines))
    ++ codes "\n"
    ++ take (length indent - 1) indent
    ++ codes "}"

-- The text of a type. A property that is a choice is shown with a line for each member.
unfoldable mutual
  pub type_text : TsType → Bytes → Bytes
  type_text ts_any indent = codes "any"
  type_text ts_string indent = codes "string"
  type_text ts_number indent = codes "number"
  type_text ts_integer indent = codes "number"
  type_text ts_boolean indent = codes "boolean"
  type_text ts_any_array indent = codes "Array<any>"
  type_text (ts_words w ws) indent = join (codes " | ") (map shown_word (w ∷ ws))
  type_text (ts_enum v vs) indent = join (codes " | ") (map quoted (v ∷ vs))
  type_text (ts_array t) indent = type_text t indent ++ codes "[]"
  type_text (ts_choice t ts) indent = join (codes " | ") (type_text t indent ∷ type_texts ts indent)
  type_text (ts_object fs required) indent = object_text (property_lines required indent fs) indent

  pub type_texts : TsTypes → Bytes → List Bytes
  type_texts ts_none indent = []
  type_texts (ts_more t ts) indent = type_text t indent ∷ type_texts ts indent

  pub member_lines : Bytes → TsTypes → Bytes
  member_lines indent ts_none = []
  member_lines indent (ts_more t ts) =
      indent ++ codes " | " ++ type_text t (indent ++ codes "   ") ++ member_lines indent ts

  -- What stands behind the name of a property.
  pub value_text : TsType → Bytes → Bytes
  value_text (ts_choice t ts) indent =
      codes ":"
      ++ (indent ++ codes " | " ++ type_text t (indent ++ codes "   ") ++ member_lines indent ts)
      ++ indent
      ++ codes ","
  value_text ts_any indent = codes ": " ++ codes "any" ++ codes ","
  value_text ts_string indent = codes ": " ++ codes "string" ++ codes ","
  value_text ts_number indent = codes ": " ++ codes "number" ++ codes ","
  value_text ts_integer indent = codes ": " ++ codes "number" ++ codes ","
  value_text ts_boolean indent = codes ": " ++ codes "boolean" ++ codes ","
  value_text ts_any_array indent = codes ": " ++ codes "Array<any>" ++ codes ","
  value_text (ts_words w ws) indent =
      codes ": " ++ join (codes " | ") (map shown_word (w ∷ ws)) ++ codes ","
  value_text (ts_enum v vs) indent =
      codes ": " ++ join (codes " | ") (map quoted (v ∷ vs)) ++ codes ","
  value_text (ts_array t) indent =
      codes ": " ++ (type_text t (indent ++ codes "    ") ++ codes "[]") ++ codes ","
  value_text (ts_object fs required) indent =
      codes ": "
      ++ object_text (property_lines required (indent ++ codes "    ") fs) (indent ++ codes "    ")
      ++ codes ","

  pub property_lines : List Bytes → Bytes → TsFields → Map Bytes Bytes
  property_lines required indent ts_end = []
  property_lines required indent (ts_field key t fs) =
      (key, property_label required indent key ++ value_text t indent)
      ∷ property_lines required indent fs

unfoldable pub property_names : TsFields → List Bytes
property_names ts_end = []
property_names (ts_field key t fs) = key ∷ property_names fs

-- The properties of each object have different names.
unfoldable mutual
  pub IsProper : TsType → Type 0
  IsProper ts_any = Unit
  IsProper ts_string = Unit
  IsProper ts_number = Unit
  IsProper ts_integer = Unit
  IsProper ts_boolean = Unit
  IsProper ts_any_array = Unit
  IsProper (ts_words w ws) = Unit
  IsProper (ts_enum v vs) = Unit
  IsProper (ts_array t) = IsProper t
  IsProper (ts_choice t ts) = IsProper t × AreProper ts
  IsProper (ts_object fs required) = HasProper fs

  pub AreProper : TsTypes → Type 0
  AreProper ts_none = Unit
  AreProper (ts_more t ts) = IsProper t × AreProper ts

  pub HasProper : TsFields → Type 0
  HasProper ts_end = Unit
  HasProper (ts_field key t fs) =
      (has_key key (property_names fs) ≡ false) × IsProper t × HasProper fs
