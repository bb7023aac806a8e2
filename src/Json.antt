-- ===== src/Json.antt =====
-- The values of encoding/json as render_tools.go reads them: what `json.Unmarshal` makes of a
-- document, with the fields of an object in the document's order, and the accessors of the code.
pub mod Print
pub mod Depth
use harmony_go.Prelude.{
  ℕ, Bool, true, false, not, ◌&&◌, List, [], ◌∷◌, ◌++◌, Option, none, some, Bytes, codes, bytes_eq,
  if◌then◌else◌, Map,
}
use harmony_go.Header.{is_empty}

-- A number is the text that fmt.Sprint prints for it.
mutual
  pub data Value : Type 0 where
    null : Value
    boolean : Bool → Value
    number : Bytes → Value
    string : Bytes → Value
    array : Items → Value
    object : Fields → Value

  pub data Items : Type 0 where
    nil : Items
    cons : Value → Items → Items

  pub data Fields : Type 0 where
    end : Fields
    field : Bytes → Value → Fields → Fields

unfoldable pub items : Items → List Value
items nil = []
items (cons v vs) = v ∷ items vs

-- `m[key]`: of fields with one key the last one stands in the map.
unfoldable pub field_of : Bytes → Fields → Option Value
field_of key end = none
field_of key (field k v fs) = elim (field_of key fs) [
  | some w ↦ some w
  | none ↦ if bytes_eq k key then some v else none
]

unfoldable pub has_key : Bytes → List Bytes → Bool
has_key key [] = false
has_key key (k ∷ keys) = if bytes_eq k key then true else has_key key keys

-- The keys of the map, each once.
unfoldable pub map_keys : Fields → List Bytes
map_keys end = []
map_keys (field k v fs) = let rest = map_keys fs in if has_key k rest then rest else k ∷ rest

-- `v.(map[string]any)`, a nil map for another value.
unfoldable pub fields_of : Value → Fields
fields_of (object fs) = fs
fields_of _ = end

-- `v.([]any)`, a nil slice for another value.
unfoldable pub items_of : Value → List Value
items_of (array vs) = items vs
items_of _ = []

unfoldable pub mget : Value → Bytes → Option Value
mget v key = field_of key (fields_of v)

-- `s, ok := m[key].(string)`
unfoldable pub get_string : Value → Bytes → Option Bytes
get_string v key = elim (mget v key) [
  | none ↦ none
  | some w ↦ elim w [
    | string s ↦ some s
    | null ↦ none
    | boolean b ↦ none
    | number n ↦ none
    | array vs ↦ none
    | object fs ↦ none
  ]
]

-- A string that is there and is not empty.
unfoldable pub get_text : Value → Bytes → Option Bytes
get_text v key = elim (get_string v key) [
  | none ↦ none
  | some s ↦ if is_empty s then none else some s
]

-- A slice that is there, and the empty one if not.
unfoldable pub get_items : Value → Bytes → List Value
get_items v key = elim (mget v key) [ none ↦ [] | some w ↦ items_of w ]

unfoldable pub is_enum : Value → Bool
is_enum v = elim (get_items v (codes "enum")) [ [] ↦ false | x ∷ xs ↦ true ]
