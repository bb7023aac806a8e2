-- ===== src/Schema/Names.antt =====
-- The properties of the schema of an object: their names are found, and sorted with their texts.
use harmony_go.Prelude.{
  bytes_eq_refl, ◌≡◌, refl, ap, ◌∙◌, true, false, List, [], ◌∷◌, none, Bytes, All, Map, map, concat,
  bytes_eq, Bool-cases, Option-cases, inl, inr, arith,
}
use harmony_go.Text.Lines.{bytes_lt, insert_entry, sort_entries, insert_string, sort_strings}
use harmony_go.Json.{Value, Fields, field, field_of, has_key, map_keys}
use harmony_go.Schema.{property_text, properties_text, property_at}
use harmony_go.Schema.Types.{
  TsFields, ts_end, ts_field, schema_of, properties_schema, property_lines, property_names,
  HasProper,
}

abbrev pub keys_of : Map Bytes Bytes → List Bytes
keys_of m = map (λ e. e.0) m

keys_of-insert_entry :
    (k v : Bytes) (m : Map Bytes Bytes)
    → keys_of (insert_entry (k, v) m) ≡ insert_string k (keys_of m)
unfolding insert_entry insert_string
keys_of-insert_entry k v [] = refl
keys_of-insert_entry k v ((j, w) ∷ m) = elim (Bool-cases (bytes_lt j k)) [
  | inl e ↦ rw (e, keys_of-insert_entry k v m)
  | inr e ↦ rw e
]

pub keys_of-sort_entries :
    (m : Map Bytes Bytes) → keys_of (sort_entries m) ≡ sort_strings (keys_of m)
unfolding sort_entries sort_strings
keys_of-sort_entries [] = refl
keys_of-sort_entries ((k, v) ∷ m) =
    keys_of-insert_entry k v (sort_entries m) ∙ ap (insert_string k) (keys_of-sort_entries m)

module _ (P : Bytes × Bytes → Type 0) where
  All-insert_entry :
      (k v : Bytes) (m : Map Bytes Bytes) → P (k, v) → All P m → All P (insert_entry (k, v) m)
  unfolding insert_entry
  All-insert_entry k v [] p h = (p, tt)
  All-insert_entry k v ((j, w) ∷ m) p (q, h) = elim (Bool-cases (bytes_lt j k)) [
    | inl e ↦ rw (e, All) (q, All-insert_entry k v m p h)
    | inr e ↦ rw (e, All) (p, (q, h))
  ]

  pub All-sort_entries : (m : Map Bytes Bytes) → All P m → All P (sort_entries m)
  unfolding sort_entries
  All-sort_entries [] h = tt
  All-sort_entries ((k, v) ∷ m) (p, h) =
      All-insert_entry k v (sort_entries m) p (All-sort_entries m h)

bytes_eq_comm : (xs ys : Bytes) → bytes_eq xs ys ≡ bytes_eq ys xs
unfolding bytes_eq
bytes_eq_comm [] [] = refl
bytes_eq_comm [] (y ∷ ys) = refl
bytes_eq_comm (x ∷ xs) [] = refl
bytes_eq_comm (x ∷ xs) (y ∷ ys) = ground (arith, bytes_eq_comm xs ys)

has_key-other :
    (key k : Bytes) (keys : List Bytes)
    → has_key key (k ∷ keys) ≡ false
    → (bytes_eq k key ≡ false) × (has_key key keys ≡ false)
unfolding has_key
has_key-other key k keys e = elim (Bool-cases (bytes_eq k key)) [
  | inl same ↦ let e' : true ≡ false = rw same at e in absurd (ground arith)
  | inr other ↦ (other, (rw other at e))
]

field_of-missing :
    (key : Bytes) (fs : TsFields)
    → has_key key (property_names fs) ≡ false
    → field_of key (properties_schema fs) ≡ none
unfolding field_of properties_schema property_names
field_of-missing key ts_end e = refl
field_of-missing key (ts_field k t fs) e =
    let (other, rest) = has_key-other key k (property_names fs) e in
    rw (field_of-missing key fs rest, other)

-- The fields `props` have the schema of each property.
unfoldable pub Finds : Fields → TsFields → Type 0
Finds props ts_end = Unit
Finds props (ts_field key t fs) = (property_at props key ≡ schema_of t) × Finds props fs

property_at-behind :
    (key k : Bytes) (v : Value) (props : Fields)
    → bytes_eq key k ≡ false
    → property_at (field key v props) k ≡ property_at props k
unfolding property_at field_of
property_at-behind key k v props e = elim (Option-cases (field_of k props)) [
  | inl gone ↦ rw (gone, e, property_at)
  | inr (w, found) ↦ rw (found, property_at)
]

property_at-front :
    (key : Bytes) (v : Value) (props : Fields)
    → field_of key props ≡ none
    → property_at (field key v props) key ≡ v
unfolding property_at field_of
property_at-front key v props gone = rw (gone, bytes_eq_refl key, property_at)

Finds-behind :
    (key : Bytes) (v : Value) (props : Fields) (fs : TsFields)
    → has_key key (property_names fs) ≡ false
    → Finds props fs
    → Finds (field key v props) fs
unfolding property_names Finds
Finds-behind key v props ts_end e h = tt
Finds-behind key v props (ts_field k t fs) e (here, h) =
    let (other, rest) = has_key-other key k (property_names fs) e in
    let apart : bytes_eq key k ≡ false = bytes_eq_comm key k ∙ other in
    (property_at-behind key k v props apart ∙ here, Finds-behind key v props fs rest h)

pub Finds-properties_schema : (fs : TsFields) → HasProper fs → Finds (properties_schema fs) fs
unfolding properties_schema Finds HasProper
Finds-properties_schema ts_end h = tt
Finds-properties_schema (ts_field key t fs) (fresh, _, h) = (
  property_at-front key (schema_of t) (properties_schema fs) (field_of-missing key fs fresh),
  Finds-behind key (schema_of t) (properties_schema fs) fs fresh (Finds-properties_schema fs h),
)

pub map_keys-properties_schema :
    (fs : TsFields) → HasProper fs → map_keys (properties_schema fs) ≡ property_names fs
unfolding map_keys properties_schema property_names HasProper
map_keys-properties_schema ts_end h = refl
map_keys-properties_schema (ts_field key t fs) (fresh, _, h) =
    rw (map_keys-properties_schema fs h, fresh)

pub keys_of-property_lines :
    (required : List Bytes) (indent : Bytes) (fs : TsFields)
    → keys_of (property_lines required indent fs) ≡ property_names fs
unfolding property_lines property_names
keys_of-property_lines required indent ts_end = refl
keys_of-property_lines required indent (ts_field key t fs) =
    rw (keys_of-property_lines required indent fs)

-- The loop over the names writes their texts.
pub properties_text-lines :
    (ts : Value → Bytes → Bytes) (props : Fields) (required : List Bytes) (indent : Bytes)
    (lines : Map Bytes Bytes)
    → All (λ e. property_text ts required indent e.0 (property_at props e.0) ≡ e.1) lines
    → properties_text ts props required indent (keys_of lines) ≡ concat (map (λ e. e.1) lines)
unfolding properties_text
properties_text-lines ts props required indent [] h = refl
properties_text-lines ts props required indent ((k, v) ∷ lines) (here, h) =
    rw (here, properties_text-lines ts props required indent lines h)
