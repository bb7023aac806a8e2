-- ===== src/Text/Lines.antt =====
-- `strings.Split` at line ends, `strings.Join`, `strings.TrimRight` of line ends and `sort.Strings`.
pub mod Order
pub mod First
use harmony_go.Prelude.{
  ℕ, Bool, true, false, List, [], ◌∷◌, ◌++◌, Bytes, ltb, ◌==◌, if◌then◌else◌, Map,
}

-- Puts a byte in front of the first line.
unfoldable pub extend : ℕ → List Bytes → List Bytes
extend b [] = (b ∷ []) ∷ []
extend b (line ∷ lines) = (b ∷ line) ∷ lines

-- `strings.Split(s, "\n")`
unfoldable pub split_lines : Bytes → List Bytes
split_lines [] = [] ∷ []
split_lines (b ∷ s) = let rest = split_lines s in if b == b'\n' then [] ∷ rest else extend b rest

-- `strings.Join`
unfoldable pub join : Bytes → List Bytes → Bytes
join sep [] = []
join sep (s ∷ []) = s
join sep (s ∷ t ∷ rest) = s ++ sep ++ join sep (t ∷ rest)

-- `strings.TrimRight(s, "\n")`
unfoldable pub trim_line_ends : Bytes → Bytes
trim_line_ends [] = []
trim_line_ends (b ∷ s) = elim (trim_line_ends s) [
  | [] ↦ if b == b'\n' then [] else b ∷ []
  | c ∷ t ↦ b ∷ c ∷ t
]

-- `<` on Go strings: by bytes.
unfoldable pub bytes_lt : Bytes → Bytes → Bool
bytes_lt s [] = false
bytes_lt [] (y ∷ t) = true
bytes_lt (x ∷ s) (y ∷ t) = let rest = bytes_lt s t in if x == y then rest else ltb x y

unfoldable pub insert_entry {ℓ} : {V : Type ℓ} → Bytes × V → Map Bytes V → Map Bytes V
insert_entry (k, v) [] = (k, v) ∷ []
insert_entry (k, v) ((j, w) ∷ m) =
    let rest = insert_entry (k, v) m in if bytes_lt j k then (j, w) ∷ rest else (k, v) ∷ (j, w) ∷ m

-- The entries of a map by the order of their keys: a loop over the keys that `sort.Strings` sorted.
unfoldable pub sort_entries {ℓ} : {V : Type ℓ} → Map Bytes V → Map Bytes V
sort_entries [] = []
sort_entries (e ∷ m) = insert_entry e (sort_entries m)

unfoldable pub insert_string : Bytes → List Bytes → List Bytes
insert_string k [] = k ∷ []
insert_string k (j ∷ keys) =
    let rest = insert_string k keys in if bytes_lt j k then j ∷ rest else k ∷ j ∷ keys

-- `sort.Strings`
unfoldable pub sort_strings : List Bytes → List Bytes
sort_strings [] = []
sort_strings (k ∷ keys) = insert_string k (sort_strings keys)
