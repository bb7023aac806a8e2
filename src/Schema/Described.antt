-- ===== src/Schema/Described.antt =====
-- schemaToTS on the schemas of types: it writes the texts of the types.
use harmony_go.Prelude.{
  length, ◌<◌, ℕ, ◌≤◌, ◌≡◌, refl, sym, ap, ◌∙◌, List, [], ◌∷◌, ◌++◌, Bytes, codes, All, map,
  append_assoc, arith, true, false,
}
use harmony_go.Text.Lines.{join, sort_entries, sort_strings}
use harmony_go.Json.{Value, Fields, map_keys, items}
use harmony_go.Json.Depth.{depth}
use harmony_go.Schema.{schema_step, schema_to_ts, property_text, property_at, variant_lines}
use harmony_go.Schema.Fuel.{schema_to_ts_step, schema_to_ts_enough}
use harmony_go.Schema.Types.{
  TsType, TsTypes, TsFields, ts_any, ts_string, ts_number, ts_integer, ts_boolean, ts_any_array,
  ts_words, ts_enum, ts_array, ts_choice, ts_object, ts_none, ts_more, ts_end, ts_field, schema_of,
  schemas_of, properties_schema, property_label, object_text, type_text, type_texts, member_lines,
  value_text, property_lines, IsProper, AreProper, HasProper,
}
use harmony_go.Schema.Steps.{
  words_step, enum_step, array_step, choice_step, object_step, variant_step, choice_property,
  any_step, string_step, number_step, integer_step, boolean_step, any_array_step, is_choice,
  plain_property_lem, strings_of-strings, map-type_word, map-quoted,
}
use harmony_go.Schema.Names.{
  keys_of, keys_of-sort_entries, All-sort_entries, Finds, Finds-properties_schema,
  map_keys-properties_schema, keys_of-property_lines, properties_text-lines,
}

abbrev ts : Value → Bytes → Bytes
ts v = schema_to_ts (depth v) v

ts_step : (v : Value) (indent : Bytes) → ts v indent ≡ schema_step ts v indent
ts_step v indent = schema_to_ts_step (depth v) v indent (omega arith)

regroup : (a b c d : Bytes) → a ++ b ++ c ++ d ≡ a ++ (b ++ c ++ d)
regroup a b c d = simp append_assoc

regroup_more : (a b c d e : Bytes) → a ++ b ++ c ++ d ++ e ≡ a ++ (b ++ c ++ d ++ e)
regroup_more a b c d e = simp append_assoc

object_holds :
    (fs : TsFields) (required : List Bytes) (indent : Bytes)
    → HasProper fs
    → All
        (λ e. property_text ts required indent e.0 (property_at (properties_schema fs) e.0) ≡ e.1)
        (property_lines required indent fs)
    → schema_step ts (schema_of (ts_object fs required)) indent
      ≡ object_text (property_lines required indent fs) indent
unfolding object_text
object_holds fs required indent proper h =
    let lines = property_lines required indent fs in
    let names : sort_strings (map_keys (properties_schema fs)) ≡ keys_of (sort_entries lines) =
      ap sort_strings
        (map_keys-properties_schema fs proper ∙ sym (keys_of-property_lines required indent fs))
      ∙ sym (keys_of-sort_entries lines) in
    let texts =
      properties_text-lines ts (properties_schema fs) required indent (sort_entries lines)
        (All-sort_entries _ lines h) in
    object_step ts fs required indent ∙ (rw (strings_of-strings required, names, texts))

line_holds :
    (required : List Bytes) (indent key : Bytes) (t : TsType)
    → is_choice t ≡ false
    → ts (schema_of t) (indent ++ codes "    ") ≡ type_text t (indent ++ codes "    ")
    → property_text ts required indent key (schema_of t)
      ≡ property_label required indent key ++ value_text t indent
unfolding value_text type_text is_choice
line_holds required indent key ts_any e same =
    plain_property_lem ts required indent key ts_any e
    ∙ ap (λ x. property_label required indent key ++ codes ": " ++ x ++ codes ",") same
    ∙ regroup (property_label required indent key) (codes ": ") _ (codes ",")
line_holds required indent key ts_string e same =
    plain_property_lem ts required indent key ts_string e
    ∙ ap (λ x. property_label required indent key ++ codes ": " ++ x ++ codes ",") same
    ∙ regroup (property_label required indent key) (codes ": ") _ (codes ",")
line_holds required indent key ts_number e same =
    plain_property_lem ts required indent key ts_number e
    ∙ ap (λ x. property_label required indent key ++ codes ": " ++ x ++ codes ",") same
    ∙ regroup (property_label required indent key) (codes ": ") _ (codes ",")
line_holds required indent key ts_integer e same =
    plain_property_lem ts required indent key ts_integer e
    ∙ ap (λ x. property_label required indent key ++ codes ": " ++ x ++ codes ",") same
    ∙ regroup (property_label required indent key) (codes ": ") _ (codes ",")
line_holds required indent key ts_boolean e same =
    plain_property_lem ts required indent key ts_boolean e
    ∙ ap (λ x. property_label required indent key ++ codes ": " ++ x ++ codes ",") same
    ∙ regroup (property_label required indent key) (codes ": ") _ (codes ",")
line_holds required indent key ts_any_array e same =
    plain_property_lem ts required indent key ts_any_array e
    ∙ ap (λ x. property_label required indent key ++ codes ": " ++ x ++ codes ",") same
    ∙ regroup (property_label required indent key) (codes ": ") _ (codes ",")
line_holds required indent key (ts_words w ws) e same =
    plain_property_lem ts required indent key (ts_words w ws) e
    ∙ ap (λ x. property_label required indent key ++ codes ": " ++ x ++ codes ",") same
    ∙ regroup (property_label required indent key) (codes ": ") _ (codes ",")
line_holds required indent key (ts_enum v vs) e same =
    plain_property_lem ts required indent key (ts_enum v vs) e
    ∙ ap (λ x. property_label required indent key ++ codes ": " ++ x ++ codes ",") same
    ∙ regroup (property_label required indent key) (codes ": ") _ (codes ",")
line_holds required indent key (ts_array t) e same =
    plain_property_lem ts required indent key (ts_array t) e
    ∙ ap (λ x. property_label required indent key ++ codes ": " ++ x ++ codes ",") same
    ∙ regroup (property_label required indent key) (codes ": ") _ (codes ",")
line_holds required indent key (ts_object fs asked) e same =
    plain_property_lem ts required indent key (ts_object fs asked) e
    ∙ ap (λ x. property_label required indent key ++ codes ": " ++ x ++ codes ",") same
    ∙ regroup (property_label required indent key) (codes ": ") _ (codes ",")
line_holds required indent key (ts_choice t more) e same = absurd (ground arith)

mutual
  unfolding type_text type_texts member_lines value_text property_lines schemas_of items Finds
      IsProper variant_lines is_choice

  type_holds :
      (t : TsType) (indent : Bytes) → IsProper t → ts (schema_of t) indent ≡ type_text t indent
  type_holds ts_any indent p = ts_step (schema_of ts_any) indent ∙ any_step indent ts
  type_holds ts_string indent p = ts_step (schema_of ts_string) indent ∙ string_step indent ts
  type_holds ts_number indent p = ts_step (schema_of ts_number) indent ∙ number_step indent ts
  type_holds ts_integer indent p = ts_step (schema_of ts_integer) indent ∙ integer_step indent ts
  type_holds ts_boolean indent p = ts_step (schema_of ts_boolean) indent ∙ boolean_step indent ts
  type_holds ts_any_array indent p =
      ts_step (schema_of ts_any_array) indent ∙ any_array_step indent ts
  type_holds (ts_words w ws) indent p =
      ts_step (schema_of (ts_words w ws)) indent
      ∙ words_step ts w ws indent
      ∙ ap (join (codes " | ")) (map-type_word (w ∷ ws))
  type_holds (ts_enum v vs) indent p =
      ts_step (schema_of (ts_enum v vs)) indent
      ∙ enum_step ts v vs indent
      ∙ ap (join (codes " | ")) (map-quoted (v ∷ vs))
  type_holds (ts_array t) indent p =
      ts_step (schema_of (ts_array t)) indent
      ∙ array_step ts t indent
      ∙ ap (λ x. x ++ codes "[]") (type_holds t indent p)
  type_holds (ts_choice t more) indent (p, ps) =
      ts_step (schema_of (ts_choice t more)) indent
      ∙ choice_step ts t more indent
      ∙ (rw (type_holds t indent p, members_hold more indent ps))
  type_holds (ts_object fs required) indent p =
      ts_step (schema_of (ts_object fs required)) indent
      ∙ object_holds fs required indent p
          (lines_hold fs (properties_schema fs) required indent (Finds-properties_schema fs p) p)

  members_hold :
      (more : TsTypes) (indent : Bytes)
      → AreProper more
      → map (λ w. ts w indent) (items (schemas_of more)) ≡ type_texts more indent
  members_hold ts_none indent p = refl
  members_hold (ts_more t more) indent (p, ps) =
      rw (type_holds t indent p, members_hold more indent ps)

  variants_hold :
      (more : TsTypes) (indent : Bytes)
      → AreProper more
      → variant_lines ts false [] indent (items (schemas_of more)) ≡ member_lines indent more
  variants_hold ts_none indent p = refl
  variants_hold (ts_more t more) indent (p, ps) =
      variant_step ts false [] indent t (items (schemas_of more))
      ∙ (rw (type_holds t (indent ++ codes "   ") p, variants_hold more indent ps))

  property_holds :
      (t : TsType) (required : List Bytes) (indent key : Bytes)
      → IsProper t
      → ts (schema_of t) (indent ++ codes "    ") ≡ type_text t (indent ++ codes "    ")
      → property_text ts required indent key (schema_of t)
        ≡ property_label required indent key ++ value_text t indent
  property_holds ts_any required indent key p same = line_holds required indent key ts_any refl same
  property_holds ts_string required indent key p same =
      line_holds required indent key ts_string refl same
  property_holds ts_number required indent key p same =
      line_holds required indent key ts_number refl same
  property_holds ts_integer required indent key p same =
      line_holds required indent key ts_integer refl same
  property_holds ts_boolean required indent key p same =
      line_holds required indent key ts_boolean refl same
  property_holds ts_any_array required indent key p same =
      line_holds required indent key ts_any_array refl same
  property_holds (ts_words w ws) required indent key p same =
      line_holds required indent key (ts_words w ws) refl same
  property_holds (ts_enum v vs) required indent key p same =
      line_holds required indent key (ts_enum v vs) refl same
  property_holds (ts_array t) required indent key p same =
      line_holds required indent key (ts_array t) refl same
  property_holds (ts_object fs asked) required indent key p same =
      line_holds required indent key (ts_object fs asked) refl same
  property_holds (ts_choice t more) required indent key (p, ps) same =
      choice_property ts required indent key t more
      ∙ ap (λ x. property_label required indent key ++ codes ":" ++ x ++ indent ++ codes ",")
          (variant_step ts true [] indent t (items (schemas_of more))
            ∙ (rw (type_holds t (indent ++ codes "   ") p, variants_hold more indent ps)))
      ∙ regroup_more (property_label required indent key) (codes ":") _ indent (codes ",")

  lines_hold :
      (fs : TsFields) (props : Fields) (required : List Bytes) (indent : Bytes)
      → Finds props fs
      → HasProper fs
      → All
          (λ e. property_text ts required indent e.0 (property_at props e.0) ≡ e.1)
          (property_lines required indent fs)
  lines_hold ts_end props required indent found p = tt
  lines_hold (ts_field key t fs) props required indent (here, found) (_, p, ps) = (
    ap (property_text ts required indent key) here
        ∙ property_holds t required indent key p (type_holds t (indent ++ codes "    ") p),
    lines_hold fs props required indent found ps,
  )

-- schemaToTS writes the text of a type whose schema it is given: any, string, number, integer
-- (as number), boolean, arrays, unions of words, enumerations, choices (oneOf) and objects,
-- nested in each other. The properties of an object come in the order of their names, each with
-- a question mark unless it is required, and one that is a choice has a line for each member.
-- The depth of the schema is enough fuel for it, and more of it changes nothing. The properties
-- of each object have different names, the indent is not empty, as the code cuts off its last
-- byte, and the schemas have no titles, descriptions, examples, defaults and nullable types.
pub schema_to_ts-type_text :
    (t : TsType) (indent : Bytes) (fuel : ℕ)
    → depth (schema_of t) ≤ fuel
    → IsProper t
    → 0 < length indent
    → schema_to_ts fuel (schema_of t) indent ≡ type_text t indent
schema_to_ts-type_text t indent fuel le p _ =
    schema_to_ts_enough fuel (depth (schema_of t)) (schema_of t) indent le (omega arith)
    ∙ type_holds t indent p
