-- ===== src/Schema.antt =====
-- render_tools.go: schemas as TypeScript, renderSchemaObjectWithOrder and schemaToTS. The two call
-- each other: each takes what renders the schemas inside as an argument.
pub mod Fuel
pub mod Types
pub mod Steps
pub mod Names
pub mod Described
use harmony_go.Prelude.{
  ℕ, zero, suc, ◌-◌, Bool, true, false, not, ◌&&◌, ◌||◌, List, [], ◌∷◌, ◌++◌, Option, none, some,
  Bytes, codes, bytes_eq, if◌then◌else◌, map, concat, take, length,
}
use harmony_go.Header.{is_empty}
use harmony_go.Text.{contains}
use harmony_go.Text.Lines.{split_lines, join, sort_strings}
use harmony_go.Json.{
  Value, Fields, null, boolean, number, string, array, object, end, fields_of, field_of, has_key,
  map_keys, mget, get_string, get_text, get_items,
}
use harmony_go.Json.Print.{sprint, stringify_literal, default_comment_literal}

unfoldable pub strings_of : List Value → List Bytes
strings_of [] = []
strings_of (string s ∷ vs) = s ∷ strings_of vs
strings_of (v ∷ vs) = strings_of vs

-- The set of required keys; no set and an empty one are the same.
unfoldable pub required_set : Value → List Bytes
required_set schema = strings_of (get_items schema (codes "required"))

unfoldable pub properties_of : Value → Fields
properties_of schema = elim (mget schema (codes "properties")) [ none ↦ end | some v ↦ fields_of v ]

-- The keys that are not in the order given. The order of the document stands for the arbitrary one
-- in which the loop over the map comes to them.
unfoldable pub missing_keys : List Bytes → List Bytes → List Bytes
missing_keys ordered [] = []
missing_keys ordered (k ∷ keys) =
    let rest = missing_keys ordered keys in if has_key k ordered then rest else k ∷ rest

unfoldable pub property_keys : Fields → List Bytes → List Bytes
property_keys props [] = sort_strings (map_keys props)
property_keys props (k ∷ ordered) = (k ∷ ordered) ++ missing_keys (k ∷ ordered) (map_keys props)

-- A nil value where there is none.
unfoldable pub property_at : Fields → Bytes → Value
property_at props key = elim (field_of key props) [ none ↦ null | some v ↦ v ]

unfoldable pub title_comment : Value → Bytes → Bytes
title_comment val indent = elim (get_text val (codes "title")) [
  | none ↦ []
  | some title ↦ indent ++ codes "// " ++ title ++ indent ++ codes "//"
]

unfoldable pub description_comment : Value → Bytes → Bytes
description_comment val indent = elim (get_text val (codes "description")) [
  | none ↦ []
  | some desc ↦ concat (map (λ line. indent ++ codes "// " ++ line) (split_lines desc))
]

unfoldable pub examples_comment : Value → Bytes → Bytes
examples_comment val indent = elim (get_items val (codes "examples")) [
  | [] ↦ []
  | ex ∷ exs ↦
      indent
      ++ codes "// Examples:"
      ++ concat (map (λ e. indent ++ codes "// - " ++ stringify_literal e) (ex ∷ exs))
]

unfoldable pub property_comments : Value → Bytes → Bytes
property_comments val indent =
    title_comment val indent ++ description_comment val indent ++ examples_comment val indent

-- The name of the property, with a question mark if it is not required.
unfoldable pub property_name : List Bytes → Bytes → Bytes → Bytes
property_name required indent key =
    indent ++ key ++ (if has_key key required then [] else codes "?")

unfoldable pub default_of : Value → Option Bytes
default_of val = elim (mget val (codes "default")) [
  | none ↦ none
  | some def ↦ some (default_comment_literal val def)
]

-- The description of a variant, unless it is the first and repeats the property's.
unfoldable pub variant_description : Bool → Bytes → Value → List Bytes
variant_description first prop_desc variant = elim (get_text variant (codes "description")) [
  | none ↦ []
  | some d ↦ if first && not (is_empty prop_desc) && bytes_eq d prop_desc then [] else d ∷ []
]

unfoldable pub variant_default : Value → List Bytes
variant_default variant = elim (default_of variant) [
  | none ↦ []
  | some def ↦ (codes "default: " ++ def) ∷ []
]

unfoldable pub trailing_comment : List Bytes → Bytes
trailing_comment [] = []
trailing_comment (c ∷ cs) = codes " // " ++ join (codes " ") (c ∷ cs)

unfoldable pub is_nullable : Value → Bool
is_nullable val = elim (mget val (codes "nullable")) [
  | none ↦ false
  | some w ↦ elim w [
    | boolean b ↦ b
    | null ↦ false
    | number n ↦ false
    | string s ↦ false
    | array vs ↦ false
    | object fs ↦ false
  ]
]

unfoldable pub enum_text : List Value → Bytes
enum_text vals = join (codes " | ") (map (λ v. codes "\"" ++ sprint v ++ codes "\"") vals)

unfoldable pub type_word : Value → Bytes
type_word v = if bytes_eq (sprint v) (codes "integer") then codes "number" else sprint v

module _ (ts : Value → Bytes → Bytes) where
  unfoldable pub variant_lines : Bool → Bytes → Bytes → List Value → Bytes
  variant_lines first prop_desc indent [] = []
  variant_lines first prop_desc indent (variant ∷ variants) =
      indent
      ++ codes " | "
      ++ ts variant (indent ++ codes "   ")
      ++ trailing_comment (variant_description first prop_desc variant ++ variant_default variant)
      ++ variant_lines false prop_desc indent variants

  unfoldable pub one_of_property : List Bytes → Bytes → Bytes → Value → List Value → Bytes
  one_of_property required indent key val variants =
      (elim (default_of val) [ none ↦ [] | some def ↦ indent ++ codes "// default: " ++ def ])
      ++ property_name required indent key
      ++ codes ":"
      ++ variant_lines true (elim (get_string val (codes "description")) [ none ↦ [] | some d ↦ d ])
          indent variants
      ++ indent
      ++ codes ","

  unfoldable pub plain_property : List Bytes → Bytes → Bytes → Value → Bytes
  plain_property required indent key val =
      let t = ts val (indent ++ codes "    ") in
      property_name required indent key
      ++ codes ": "
      ++ t
      ++ (if is_nullable val && not (contains t (codes "null")) then codes " | null" else [])
      ++ (elim (default_of val) [ none ↦ codes "," | some def ↦ codes ", // default: " ++ def ])

  -- One round of the loop over the keys.
  unfoldable pub property_text : List Bytes → Bytes → Bytes → Value → Bytes
  property_text required indent key val =
      property_comments val indent ++ (elim (get_items val (codes "oneOf")) [
        | [] ↦ plain_property required indent key val
        | v ∷ vs ↦ one_of_property required indent key val (v ∷ vs)
      ])

  unfoldable pub properties_text : Fields → List Bytes → Bytes → List Bytes → Bytes
  properties_text props required indent [] = []
  properties_text props required indent (key ∷ keys) =
      property_text required indent key (property_at props key)
      ++ properties_text props required indent keys

  unfoldable pub render_schema_object : Value → Bytes → List Bytes → Bytes
  render_schema_object schema indent ordered =
      let props = properties_of schema in
      properties_text props (required_set schema) indent (property_keys props ordered)

  unfoldable pub one_of_types : Value → Bytes → Bytes
  one_of_types schema indent = elim (get_items schema (codes "oneOf")) [
    | [] ↦ codes "any"
    | v ∷ vs ↦ join (codes " | ") (map (λ w. ts w indent) (v ∷ vs))
  ]

  -- The `switch` on a type that is a string. The indent has a byte at least wherever the code comes
  -- here: it begins with a line end.
  unfoldable pub string_type : Value → Bytes → Bytes → Bytes
  string_type schema indent t =
      if bytes_eq t (codes "object")
      then codes "{"
        ++ render_schema_object schema indent []
        ++ codes "\n"
        ++ take (length indent - 1) indent
        ++ codes "}"
      else if bytes_eq t (codes "string")
      then (elim (get_items schema (codes "enum")) [
        | [] ↦ codes "string"
        | v ∷ vs ↦ enum_text (v ∷ vs)
      ])
      else if bytes_eq t (codes "number") || bytes_eq t (codes "integer")
      then codes "number"
      else if bytes_eq t (codes "boolean")
      then codes "boolean"
      else if bytes_eq t (codes "array")
      then (elim (mget schema (codes "items")) [
        | none ↦ codes "Array<any>"
        | some inner ↦ ts inner indent ++ codes "[]"
      ])
      else one_of_types schema indent

  -- A value that is no object has no type and no variants.
  unfoldable pub schema_step : Value → Bytes → Bytes
  schema_step schema indent = elim (get_string schema (codes "type")) [
    | some t ↦ string_type schema indent t
    | none ↦ elim (get_items schema (codes "type")) [
      | v ∷ vs ↦ join (codes " | ") (map type_word (v ∷ vs))
      | [] ↦ one_of_types schema indent
    ]
  ]

-- `schemaToTS` to a depth of `fuel` calls. Every schema has a depth of 1 at least, so that with its
-- depth as fuel the first clause is not reached.
unfoldable pub schema_to_ts : ℕ → Value → Bytes → Bytes
schema_to_ts zero schema indent = []
schema_to_ts (suc fuel) schema indent = schema_step (schema_to_ts fuel) schema indent
