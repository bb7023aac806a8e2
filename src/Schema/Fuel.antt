-- ===== src/Schema/Fuel.antt =====
-- The depth of a schema is enough fuel to render it: the recursion of schemaToTS ends.
use harmony_go.Prelude.{
  ℕ, zero, suc, ◌≤◌, ◌<◌, ◌≡◌, refl, sym, ap, ◌∙◌, Bool, true, false, List, [], ◌⊎◌, ◌∷◌, ◌++◌,
  none, some, Bytes, codes, All, arith, inl, inr, Option-cases, map,
}
use harmony_go.Text.Lines.{join}
use harmony_go.Json.{Value, Fields, null, end, mget, get_string, get_items, field_of, fields_of}
use harmony_go.Json.Depth.{
  depth, depth_positive, depth_fields_positive, depth_fields, depth-field_of, depth-fields_of,
  depth-mget, depth-get_items,
}
use harmony_go.Schema.{
  variant_lines, one_of_property, plain_property, property_text, properties_text,
  render_schema_object, one_of_types, string_type, schema_step, schema_to_ts, properties_of,
  property_at, required_set, property_keys, type_word,
}

depth-property_at :
    (props : Fields) (key : Bytes) → depth (property_at props key) ≤ depth_fields props
depth-property_at props key = elim (Option-cases (field_of key props)) [
  | inl e ↦
      let here : property_at props key ≡ null = unfold property_at in rw (e, property_at) in
      rw here (unfold depth in depth_fields_positive props)
  | inr (w, e) ↦
      let here : property_at props key ≡ w = unfold property_at in rw (e, property_at) in
      rw here (depth-field_of key props w e)
]

depth-properties_of :
    (schema : Value) → 1 < depth schema → depth_fields (properties_of schema) < depth schema
depth-properties_of schema pos = elim (Option-cases (mget schema (codes "properties"))) [
  | inl e ↦
      let here : properties_of schema ≡ end = unfold properties_of in rw (e, properties_of) in
      rw here (unfold depth_fields in pos)
  | inr (w, e) ↦
      let lt = depth-mget schema (codes "properties") w e in
      let le = depth-fields_of w in
      let here : properties_of schema ≡ fields_of w =
        unfold properties_of in rw (e, properties_of) in
      rw here (omega arith)
]

get_string-deep : (v : Value) (key t : Bytes) → get_string v key ≡ some t → 1 < depth v
get_string-deep v key t e = elim (Option-cases (mget v key)) [
  | inr (w, found) ↦ let lt = depth-mget v key w found in let pos = depth_positive w in omega arith
  | inl gone ↦
      let here : get_string v key ≡ none = unfold get_string in rw (gone, get_string) in
      let e' : none ≡ some t = sym here ∙ e in absurd (ground arith)
]

List-cases : (vs : List Value) → (vs ≡ []) ⊎ ((v : Value) × (ws : List Value) × (vs ≡ v ∷ ws))
List-cases [] = inl refl
List-cases (v ∷ ws) = inr (v, ws, refl)

All-upto :
    (m n : ℕ) (vs : List Value) → m ≤ n → All (λ w. depth w < m) vs → All (λ w. depth w < n) vs
All-upto m n [] lt h = tt
All-upto m n (v ∷ vs) lt (le, h) = (omega arith, All-upto m n vs lt h)

module _ (f g : Value → Bytes → Bytes) (n : ℕ)
    (same : (v : Value) (indent : Bytes) → depth v < n → f v indent ≡ g v indent) where
  variant_lines_same :
      (first : Bool) (desc indent : Bytes) (vs : List Value)
      → All (λ w. depth w < n) vs
      → variant_lines f first desc indent vs ≡ variant_lines g first desc indent vs
  unfolding variant_lines
  variant_lines_same first desc indent [] h = refl
  variant_lines_same first desc indent (v ∷ vs) (lt, h) =
      rw (same v (indent ++ codes "   ") lt, variant_lines_same false desc indent vs h)

  map_same :
      (indent : Bytes) (vs : List Value)
      → All (λ w. depth w < n) vs
      → map (λ w. f w indent) vs ≡ map (λ w. g w indent) vs
  map_same indent [] h = refl
  map_same indent (v ∷ vs) (lt, h) = rw (same v indent lt, map_same indent vs h)

  plain_property_same :
      (required : List Bytes) (indent key : Bytes) (val : Value)
      → depth val < n
      → plain_property f required indent key val ≡ plain_property g required indent key val
  unfolding plain_property
  plain_property_same required indent key val lt = rw (same val (indent ++ codes "    ") lt)

  one_of_property_same :
      (required : List Bytes) (indent key : Bytes) (val : Value) (vs : List Value)
      → All (λ w. depth w < n) vs
      → one_of_property f required indent key val vs ≡ one_of_property g required indent key val vs
  unfolding one_of_property
  one_of_property_same required indent key val vs h = rw (variant_lines_same true _ indent vs h)

  property_same :
      (required : List Bytes) (indent key : Bytes) (val : Value)
      → depth val < n
      → property_text f required indent key val ≡ property_text g required indent key val
  property_same required indent key val lt =
      let plain = plain_property_same required indent key val lt in
      let all =
        All-upto (depth val) n (get_items val (codes "oneOf")) (omega arith)
          (depth-get_items val (codes "oneOf")) in
      elim (List-cases (get_items val (codes "oneOf"))) [
        | inl e ↦ unfold property_text in rw (e, plain)
        | inr (v, vs, e) ↦
            let all' : All (λ w. depth w < n) (v ∷ vs) = rw e at all in
            unfold property_text in
            rw (e, one_of_property_same required indent key val (v ∷ vs) all')
      ]

  properties_same :
      (props : Fields) (required : List Bytes) (indent : Bytes) (keys : List Bytes)
      → depth_fields props < n
      → properties_text f props required indent keys ≡ properties_text g props required indent keys
  unfolding properties_text
  properties_same props required indent [] lt = refl
  properties_same props required indent (key ∷ keys) lt =
      let le = depth-property_at props key in
      rw (
        property_same required indent key (property_at props key) (omega arith),
        properties_same props required indent keys lt,
      )

  render_schema_object_same :
      (schema : Value) (indent : Bytes) (ordered : List Bytes)
      → 1 < depth schema
      → depth schema ≤ n
      → render_schema_object f schema indent ordered ≡ render_schema_object g schema indent ordered
  unfolding render_schema_object
  render_schema_object_same schema indent ordered pos le =
      let lt = depth-properties_of schema pos in
      properties_same (properties_of schema) (required_set schema) indent
        (property_keys (properties_of schema) ordered) (omega arith)

  one_of_types_same :
      (schema : Value) (indent : Bytes)
      → depth schema ≤ n
      → one_of_types f schema indent ≡ one_of_types g schema indent
  one_of_types_same schema indent le =
      let all =
        All-upto (depth schema) n (get_items schema (codes "oneOf")) le
          (depth-get_items schema (codes "oneOf")) in
      elim (List-cases (get_items schema (codes "oneOf"))) [
        | inl e ↦ unfold one_of_types in rw (e, one_of_types)
        | inr (v, vs, e) ↦
            let all' : All (λ w. depth w < n) (v ∷ vs) = rw e at all in
            let step : (h : Value → Bytes → Bytes)
                → one_of_types h schema indent
                  ≡ join (codes " | ") (map (λ w. h w indent) (v ∷ vs)) =
              λ h. unfold one_of_types in rw (e, one_of_types) in
            step f ∙ ap (join (codes " | ")) (map_same indent (v ∷ vs) all') ∙ sym (step g)
      ]

  string_type_same :
      (schema : Value) (indent : Bytes) (t : Bytes)
      → 1 < depth schema
      → depth schema ≤ n
      → string_type f schema indent t ≡ string_type g schema indent t
  string_type_same schema indent t pos le =
      let object = render_schema_object_same schema indent [] pos le in
      let others = one_of_types_same schema indent le in
      elim (Option-cases (mget schema (codes "items"))) [
        | inl e ↦ unfold string_type in rw (object, others, e)
        | inr (w, e) ↦
            let lt = depth-mget schema (codes "items") w e in
            unfold string_type in rw (object, others, e, same w indent (omega arith))
      ]

  schema_step_same :
      (schema : Value) (indent : Bytes)
      → depth schema ≤ n
      → schema_step f schema indent ≡ schema_step g schema indent
  schema_step_same schema indent le =
      let others = one_of_types_same schema indent le in
      elim (Option-cases (get_string schema (codes "type"))) [
        | inr (t, e) ↦
            let pos = get_string-deep schema (codes "type") t e in
            let step : (h : Value → Bytes → Bytes)
                → schema_step h schema indent ≡ string_type h schema indent t =
              λ h. unfold schema_step in rw (e, schema_step) in
            step f ∙ string_type_same schema indent t pos le ∙ sym (step g)
        | inl e ↦ elim (List-cases (get_items schema (codes "type"))) [
          | inl e' ↦
              let step : (h : Value → Bytes → Bytes)
                  → schema_step h schema indent ≡ one_of_types h schema indent =
                λ h. unfold schema_step in rw (e, e', schema_step) in
              step f ∙ others ∙ sym (step g)
          | inr (v, vs, e') ↦
              let step : (h : Value → Bytes → Bytes)
                  → schema_step h schema indent ≡ join (codes " | ") (map type_word (v ∷ vs)) =
                λ h. unfold schema_step in rw (e, e', schema_step) in
              step f ∙ sym (step g)
        ]
      ]

schema_to_ts_next :
    (fuel : ℕ) (schema : Value) (indent : Bytes)
    → schema_to_ts (suc fuel) schema indent ≡ schema_step (schema_to_ts fuel) schema indent
unfolding schema_to_ts
schema_to_ts_next fuel schema indent = refl

pub schema_to_ts_enough :
    (fuel more : ℕ) (schema : Value) (indent : Bytes)
    → depth schema ≤ fuel
    → depth schema ≤ more
    → schema_to_ts fuel schema indent ≡ schema_to_ts more schema indent
schema_to_ts_enough zero more schema indent le le' =
    let pos = depth_positive schema in absurd (omega arith)
schema_to_ts_enough (suc fuel) zero schema indent le le' =
    let pos = depth_positive schema in absurd (omega arith)
schema_to_ts_enough (suc fuel) (suc more) schema indent le le' =
    let inner : (v : Value) (i : Bytes)
        → depth v < depth schema
        → schema_to_ts fuel v i ≡ schema_to_ts more v i =
      λ v i lt. schema_to_ts_enough fuel more v i (omega arith) (omega arith) in
    schema_to_ts_next fuel schema indent
    ∙ schema_step_same (schema_to_ts fuel) (schema_to_ts more) (depth schema) inner schema indent
        (omega arith)
    ∙ sym (schema_to_ts_next more schema indent)

-- With as much fuel as the schema is deep, or more, the text is what the body of schemaToTS makes of
-- the schema out of the texts of the schemas inside.
pub schema_to_ts_step :
    (fuel : ℕ) (schema : Value) (indent : Bytes)
    → depth schema ≤ fuel
    → schema_to_ts fuel schema indent
      ≡ schema_step (λ inner. schema_to_ts (depth inner) inner) schema indent
schema_to_ts_step fuel schema indent le =
    schema_to_ts_enough fuel (suc (depth schema)) schema indent le (omega arith)
    ∙ schema_to_ts_next (depth schema) schema indent
    ∙ schema_step_same (schema_to_ts (depth schema)) (λ inner. schema_to_ts (depth inner) inner)
        (depth schema)
        (λ v i lt. schema_to_ts_enough (depth schema) (depth v) v i (omega arith) (omega arith))
        schema indent (omega arith)
