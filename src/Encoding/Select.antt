-- ===== src/Encoding/Select.antt =====
-- encoding.go, RenderConversation: which messages of a conversation are rendered.
pub mod Kept
use harmony_go.Prelude.{
  ℕ, suc, Bool, true, false, ◌&&◌, ◌||◌, not, List, [], ◌∷◌, Option, none, some, Bytes, codes,
  bytes_eq, ltb, if◌then◌else◌, length, Map, lookup, get_elem?, map,
}
use harmony_go.Types.{
  role_assistant, content_developer, Content, DeveloperContent, Message, ToolNamespaceConfig,
}

unfoldable pub is_final : Message → Bool
is_final m = bytes_eq m.channel (codes "final")

unfoldable pub is_analysis : Message → Bool
is_analysis m = bytes_eq m.channel (codes "analysis")

unfoldable pub is_assistant : Message → Bool
is_assistant m = bytes_eq m.author.role role_assistant

-- What the first loop has found; `none` is the index -1.
pub record Scan : Type 0 where
  pub last_assistant_final : Bool
  pub first_final : Option ℕ
  pub has_function_tools : Bool

unfoldable pub declares_functions : Content → Bool
declares_functions c = bytes_eq c.kind content_developer && (elim c.developer [
  | none ↦ false
  | some dev ↦ elim (lookup bytes_eq (codes "functions") dev.tools) [
    | none ↦ false
    | some ns ↦ ltb 0 (length ns.tools)
  ]
])

unfoldable pub any_functions : List Content → Bool
any_functions [] = false
any_functions (c ∷ cs) = if declares_functions c then true else any_functions cs

unfoldable pub scan_message : ℕ → Message → Scan → Scan
scan_message i m s = record {
  last_assistant_final = if is_assistant m then is_final m else s.last_assistant_final;
  first_final = elim s.first_final [ none ↦ if is_final m then some i else none | some k ↦ some k ];
  has_function_tools = if s.has_function_tools then true else any_functions m.content;
}

unfoldable pub scan : ℕ → List Message → Scan → Scan
scan i [] s = s
scan i (m ∷ msgs) s = scan (suc i) msgs (scan_message i m s)

abbrev pub no_scan : Scan
no_scan = record { last_assistant_final = false; first_final = none; has_function_tools = false }

-- `shouldDrop && firstFinal >= 0 && i < firstFinal && m.Channel == "analysis"`
unfoldable pub drops : Bool → Option ℕ → ℕ → Message → Bool
drops should_drop first i m =
    should_drop && (elim first [ none ↦ false | some k ↦ ltb i k && is_analysis m ])

unfoldable pub select_from : Bool → Option ℕ → ℕ → List Message → List ℕ
select_from should_drop first i [] = []
select_from should_drop first i (m ∷ msgs) =
    let rest = select_from should_drop first (suc i) msgs in
    if drops should_drop first i m then rest else i ∷ rest

-- The indices of the messages to render.
unfoldable pub render_idx : Bool → List Message → List ℕ
render_idx auto_drop msgs =
    let s = scan 0 msgs no_scan in
    select_from (auto_drop && s.last_assistant_final) s.first_final 0 msgs
