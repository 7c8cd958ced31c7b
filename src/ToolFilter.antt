-- ===== src/ToolFilter.antt =====
-- cmd/particle/serve_mcp_filter.go: the allow-list and the deny-list of tools.
pub mod Selection
mod Tests
use particles.Base.{
  String, Bool, true, false, not, ◌&&◌, ◌||◌, Option, none, some, List, [], ◌∷◌, ◌++◌, str_eq,
  if◌then◌else◌,
}

-- runtime.ToolDef
pub record ToolDef : Type 0 where
  pub name : String
  pub description : String
  pub input_schema : String

pub data FilterError : Type 0 where
  mutually_exclusive : FilterError
  unknown_tool : String → FilterError

pub data Filtered : Type 0 where
  ok : List ToolDef → Filtered
  err : FilterError → Filtered

abbrev pub is_empty : List String → Bool
is_empty [] = true
is_empty (n ∷ names) = false

-- setOf, as a test
unfoldable pub is_in : List String → String → Bool
is_in [] name = false
is_in (n ∷ names) name = str_eq n name || is_in names name

unfoldable pub is_known : List ToolDef → String → Bool
is_known [] name = false
is_known (t ∷ tools) name = str_eq t.name name || is_known tools name

unfoldable pub first_unknown : List ToolDef → List String → Option String
first_unknown tools [] = none
first_unknown tools (n ∷ names) =
    let rest = first_unknown tools names in if is_known tools n then rest else some n

unfoldable pub is_kept : List String → List String → ToolDef → Bool
unfolding is_in
is_kept include exclude t =
    if not (is_empty include) && not (is_in include t.name)
    then false
    else not (not (is_empty exclude) && is_in exclude t.name)

unfoldable pub kept : List String → List String → List ToolDef → List ToolDef
unfolding is_kept
kept include exclude [] = []
kept include exclude (t ∷ tools) =
    let rest = kept include exclude tools in if is_kept include exclude t then t ∷ rest else rest

selected : List ToolDef → List String → List String → Option String → Filtered
unfolding kept
selected tools include exclude (some n) = err (unknown_tool n)
selected tools include exclude none = ok (kept include exclude tools)

-- filterTools
unfoldable pub filter_tools : List ToolDef → List String → List String → Filtered
unfolding selected first_unknown
filter_tools tools include exclude =
    if not (is_empty include) && not (is_empty exclude)
    then err mutually_exclusive
    else if is_empty include && is_empty exclude
    then ok tools
    else selected tools include exclude (first_unknown tools (include ++ exclude))
