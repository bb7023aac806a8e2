-- ===== src/Schema/Steps.antt =====
-- One call of schemaToTS and one round of the loop of renderSchemaObjectWithOrder, at the schemas of
-- the types.
use harmony_go.Schema.Types.{
  ts_array, ts_enum, shown_word, quoted, schema_of, property_label, ts_words, TsType, strings,
}
use harmony_go.Prelude.{
  Bool, true, false, List, [], ◌∷◌, ◌++◌, ◌≡◌, refl, Bytes, codes, bytes_eq, map, take, length,
  append-nil, ◌-◌, arith,
}
use harmony_go.Text.Lines.{join, sort_strings}
use harmony_go.Json.{
  Value, map_keys, items, items_of, get_string, get_text, get_items, mget, fields_of, field_of,
}
use harmony_go.Json.Print.{sprint}
use harmony_go.Schema.{
  schema_step, string_type, one_of_types, render_schema_object, properties_text, properties_of,
  required_set, property_keys, type_word, enum_text, property_text, property_comments,
  title_comment, description_comment, examples_comment, property_name, default_of, is_nullable,
  one_of_property, plain_property, trailing_comment, variant_description, variant_default,
  variant_lines, strings_of,
}
use harmony_go.Schema.Types.{
  TsType, TsTypes, TsFields, ts_any, ts_string, ts_number, ts_integer, ts_boolean, ts_any_array,
  ts_words, ts_enum, ts_array, ts_choice, ts_object, schema_of, schemas_of, properties_schema,
  strings, shown_word, quoted, property_label,
}

pub strings_of-strings : (ss : List Bytes) → strings_of (items (strings ss)) ≡ ss
unfolding strings_of items strings
strings_of-strings [] = refl
strings_of-strings (s ∷ ss) = rw (strings_of-strings ss)

pub map-type_word : (ws : List Bytes) → map type_word (items (strings ws)) ≡ map shown_word ws
unfolding items strings type_word shown_word sprint
map-type_word [] = refl
map-type_word (w ∷ ws) = rw (map-type_word ws)

abbrev pub enum_word : Value → Bytes
enum_word v = codes "\"" ++ sprint v ++ codes "\""

pub map-quoted : (ws : List Bytes) → map enum_word (items (strings ws)) ≡ map quoted ws
unfolding items strings quoted sprint
map-quoted [] = refl
map-quoted (w ∷ ws) = rw (map-quoted ws)

-- Types without parts.
module _ (indent : Bytes) where
  pub any_step :
      (ts : Value → Bytes → Bytes) → schema_step ts (schema_of ts_any) indent ≡ codes "any"
  unfolding schema_step string_type one_of_types get_string get_items mget fields_of field_of
      bytes_eq schema_of
  any_step ts = refl

  pub string_step :
      (ts : Value → Bytes → Bytes) → schema_step ts (schema_of ts_string) indent ≡ codes "string"
  unfolding schema_step string_type one_of_types get_string get_items mget fields_of field_of
      bytes_eq schema_of
  string_step ts = refl

  pub number_step :
      (ts : Value → Bytes → Bytes) → schema_step ts (schema_of ts_number) indent ≡ codes "number"
  unfolding schema_step string_type one_of_types get_string get_items mget fields_of field_of
      bytes_eq schema_of
  number_step ts = refl

  pub integer_step :
      (ts : Value → Bytes → Bytes) → schema_step ts (schema_of ts_integer) indent ≡ codes "number"
  unfolding schema_step string_type one_of_types get_string get_items mget fields_of field_of
      bytes_eq schema_of
  integer_step ts = refl

  pub boolean_step :
      (ts : Value → Bytes → Bytes) → schema_step ts (schema_of ts_boolean) indent ≡ codes "boolean"
  unfolding schema_step string_type one_of_types get_string get_items mget fields_of field_of
      bytes_eq schema_of
  boolean_step ts = refl

  pub any_array_step :
      (ts : Value → Bytes → Bytes)
      → schema_step ts (schema_of ts_any_array) indent ≡ codes "Array<any>"
  unfolding schema_step string_type one_of_types get_string get_items mget fields_of field_of
      bytes_eq schema_of
  any_array_step ts = refl

pub words_step :
    (ts : Value → Bytes → Bytes) (w : Bytes) (ws : List Bytes) (indent : Bytes)
    → schema_step ts (schema_of (ts_words w ws)) indent
      ≡ join (codes " | ") (map type_word (items (strings (w ∷ ws))))
unfolding schema_step get_string get_items mget fields_of field_of bytes_eq schema_of items_of items
    strings
words_step ts w ws indent = refl

pub enum_step :
    (ts : Value → Bytes → Bytes) (v : Bytes) (vs : List Bytes) (indent : Bytes)
    → schema_step ts (schema_of (ts_enum v vs)) indent
      ≡ join (codes " | ") (map enum_word (items (strings (v ∷ vs))))
unfolding schema_step string_type get_string get_items mget fields_of field_of bytes_eq schema_of
    items_of items strings enum_text
enum_step ts v vs indent = refl

pub array_step :
    (ts : Value → Bytes → Bytes) (t : TsType) (indent : Bytes)
    → schema_step ts (schema_of (ts_array t)) indent ≡ ts (schema_of t) indent ++ codes "[]"
unfolding schema_step string_type get_string get_items mget fields_of field_of bytes_eq schema_of
array_step ts t indent = refl

pub choice_step :
    (ts : Value → Bytes → Bytes) (t : TsType) (more : TsTypes) (indent : Bytes)
    → schema_step ts (schema_of (ts_choice t more)) indent
      ≡ join
          (codes " | ")
          (ts (schema_of t) indent ∷ map (λ w. ts w indent) (items (schemas_of more)))
unfolding schema_step one_of_types get_string get_items mget fields_of field_of bytes_eq schema_of
    items_of items
choice_step ts t more indent = refl

pub object_step :
    (ts : Value → Bytes → Bytes) (fs : TsFields) (required : List Bytes) (indent : Bytes)
    → schema_step ts (schema_of (ts_object fs required)) indent
      ≡ codes "{"
        ++ properties_text ts
            (properties_schema fs)
            (strings_of (items (strings required)))
            indent
            (sort_strings (map_keys (properties_schema fs)))
        ++ codes "\n"
        ++ take (length indent - 1) indent
        ++ codes "}"
unfolding schema_step string_type get_string get_items mget fields_of field_of bytes_eq schema_of
    items_of render_schema_object properties_of required_set property_keys
object_step ts fs required indent = refl

unfoldable pub is_choice : TsType → Bool
is_choice ts_any = false
is_choice ts_string = false
is_choice ts_number = false
is_choice ts_integer = false
is_choice ts_boolean = false
is_choice ts_any_array = false
is_choice (ts_words w ws) = false
is_choice (ts_enum v vs) = false
is_choice (ts_array t) = false
is_choice (ts_object fs asked) = false
is_choice (ts_choice t ts) = true

-- The members of a choice have no comments.
no_comment :
    (first : Bool) (desc : Bytes) (t : TsType)
    → trailing_comment
        (variant_description first desc (schema_of t) ++ variant_default (schema_of t))
      ≡ []
unfolding trailing_comment variant_description variant_default default_of get_text get_string mget
    fields_of field_of bytes_eq schema_of
no_comment first desc ts_any = refl
no_comment first desc ts_string = refl
no_comment first desc ts_number = refl
no_comment first desc ts_integer = refl
no_comment first desc ts_boolean = refl
no_comment first desc ts_any_array = refl
no_comment first desc (ts_words w ws) = refl
no_comment first desc (ts_enum v vs) = refl
no_comment first desc (ts_array t) = refl
no_comment first desc (ts_choice t ts) = refl
no_comment first desc (ts_object fs required) = refl

pub variant_step :
    (ts : Value → Bytes → Bytes) (first : Bool) (desc indent : Bytes) (t : TsType) (vs : List Value)
    → variant_lines ts first desc indent (schema_of t ∷ vs)
      ≡ indent
        ++ codes " | "
        ++ ts (schema_of t) (indent ++ codes "   ")
        ++ variant_lines ts false desc indent vs
unfolding variant_lines
variant_step ts first desc indent t vs = rw (
  no_comment first desc t,
  append-nil (indent ++ codes " | " ++ ts (schema_of t) (indent ++ codes "   ")),
  variant_lines,
)

-- A property that is shown on one line has no comments.
abbrev pub plain_text : (Value → Bytes → Bytes) → List Bytes → Bytes → Bytes → TsType → Bytes
plain_text ts required indent key t =
    property_label required indent key
    ++ codes ": "
    ++ ts (schema_of t) (indent ++ codes "    ")
    ++ codes ","

pub choice_property :
    (ts : Value → Bytes → Bytes) (required : List Bytes) (indent key : Bytes) (t : TsType)
    (more : TsTypes)
    → property_text ts required indent key (schema_of (ts_choice t more))
      ≡ property_label required indent key
        ++ codes ":"
        ++ variant_lines ts true [] indent (schema_of t ∷ items (schemas_of more))
        ++ indent
        ++ codes ","
unfolding property_text property_comments title_comment description_comment examples_comment
    one_of_property property_name property_label default_of get_text get_string get_items mget
    fields_of field_of bytes_eq items_of items schema_of
choice_property ts required indent key t more = refl

pub plain_property_lem :
    (ts : Value → Bytes → Bytes) (required : List Bytes) (indent key : Bytes) (t : TsType)
    → is_choice t ≡ false
    → property_text ts required indent key (schema_of t) ≡ plain_text ts required indent key t
unfolding property_text property_comments title_comment description_comment examples_comment
    plain_property property_name property_label default_of is_nullable get_text get_string get_items
    mget fields_of field_of bytes_eq schema_of is_choice
plain_property_lem ts required indent key ts_any e = rw append-nil
plain_property_lem ts required indent key ts_string e = rw append-nil
plain_property_lem ts required indent key ts_number e = rw append-nil
plain_property_lem ts required indent key ts_integer e = rw append-nil
plain_property_lem ts required indent key ts_boolean e = rw append-nil
plain_property_lem ts required indent key ts_any_array e = rw append-nil
plain_property_lem ts required indent key (ts_words w ws) e = rw append-nil
plain_property_lem ts required indent key (ts_enum v vs) e = rw append-nil
plain_property_lem ts required indent key (ts_array t) e = rw append-nil
plain_property_lem ts required indent key (ts_object fs asked) e = rw append-nil
plain_property_lem ts required indent key (ts_choice t more) e = absurd (ground arith)
