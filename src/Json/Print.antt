-- ===== src/Json/Print.antt =====
-- `fmt.Sprint` of a JSON value, and the literals of comments.
use harmony_go.Prelude.{
  true, false, List, [], ◌∷◌, ◌++◌, none, some, Bytes, codes, bytes_eq, if◌then◌else◌, Map, lookup,
}
use harmony_go.Json.{
  Value, Items, Fields, null, boolean, number, string, array, object, nil, cons, end, field,
  is_enum,
}
use harmony_go.Text.Lines.{join, sort_entries}

unfoldable pub print_entries : Map Bytes Bytes → List Bytes
print_entries [] = []
print_entries ((k, s) ∷ m) = (k ++ codes ":" ++ s) ∷ print_entries m

unfoldable mutual
  -- Maps are printed by the order of their keys.
  pub sprint : Value → Bytes
  sprint null = codes "<nil>"
  sprint (boolean true) = codes "true"
  sprint (boolean false) = codes "false"
  sprint (number n) = n
  sprint (string s) = s
  sprint (array vs) = codes "[" ++ join (codes " ") (sprint_items vs) ++ codes "]"
  sprint (object fs) =
      codes "map["
      ++ join (codes " ") (print_entries (sort_entries (sprint_fields fs)))
      ++ codes "]"

  pub sprint_items : Items → List Bytes
  sprint_items nil = []
  sprint_items (cons v vs) = sprint v ∷ sprint_items vs

  pub sprint_fields : Fields → Map Bytes Bytes
  sprint_fields end = []
  sprint_fields (field k v fs) =
      let rest = sprint_fields fs in
      elim (lookup bytes_eq k rest) [ some s ↦ rest | none ↦ (k, sprint v) ∷ rest ]

unfoldable pub stringify_literal : Value → Bytes
stringify_literal (string s) = codes "\"" ++ s ++ codes "\""
stringify_literal v = sprint v

unfoldable pub default_comment_literal : Value → Value → Bytes
default_comment_literal schema (string s) =
    if is_enum schema then s else stringify_literal (string s)
default_comment_literal schema v = stringify_literal v
