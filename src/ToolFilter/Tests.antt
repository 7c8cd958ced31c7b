-- ===== src/ToolFilter/Tests.antt =====
-- A deny-list of one tool.
use particles.Base.{String, ◌↔◌, refl, List, [], ◌∷◌}
use particles.ToolFilter.{ToolDef, ok, filter_tools}
use particles.ToolFilter.Selection.{IsTool, IsWanted, filter_tools_iff}

abbrev tool : String → ToolDef
tool name = record { name = name; description = ""; input_schema = "{}" }

abbrev tools : List ToolDef
tools = tool "read" ∷ tool "write" ∷ []

filter_tools_iff_example :
    IsTool (tool "read") (tool "read" ∷ [])
    ↔ (IsTool (tool "read") tools × IsWanted [] ("write" ∷ []) (tool "read"))
unfolding filter_tools particles.ToolFilter.is_known
filter_tools_iff_example =
    filter_tools_iff tools [] ("write" ∷ []) (tool "read" ∷ []) (tool "read") refl
