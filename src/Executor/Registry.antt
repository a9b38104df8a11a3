-- ===== src/Executor/Registry.antt =====
-- packages/blue-tanuki/src/tools/registry.ts: the tools by name.
use blue_tanuki.Base.{
  String, Option, List, [], ◌∷◌, ◌++◌, map, or_else, is_some, if◌then◌else◌, Result, ok, thrown,
}
use blue_tanuki.Base.Text.{◌<>◌, includes}
use blue_tanuki.Base.Dict.{Dict, get, put}
use blue_tanuki.Base.Sort.{sort_by}
use blue_tanuki.Executor.Types.{Tool}
use mathlib.Core.Bool.{Bool}

pub record ToolRegistry : Type 0 where
  pub tools : Dict Tool

unfoldable pub register_tool : ToolRegistry → Tool → Result String ToolRegistry
register_tool r tool =
    if is_some (get r.tools tool.name)
    then thrown ("Tool already registered: " <> tool.name)
    else ok (record { tools = put r.tools tool.name tool })

abbrev pub get_tool : ToolRegistry → String → Option Tool
get_tool r name = get r.tools name

abbrev pub list_tools : ToolRegistry → List Tool
list_tools r = map (λ e. e.1) r.tools

abbrev pub add_name : List String → String → List String
add_name names name = if includes names name then names else names ++ name ∷ []

-- `Set.add` of each
unfoldable pub add_names : List String → List String → List String
add_names names [] = names
add_names names (n ∷ ns) = add_names (add_name names n) ns

unfoldable pub capabilities_from : List String → List Tool → List String
capabilities_from caps [] = caps
capabilities_from caps (tool ∷ tools) =
    capabilities_from (add_names caps (or_else tool.required_capabilities [])) tools

-- `before` is the order of `sort`.
unfoldable pub list_capabilities : (String → String → Bool) → ToolRegistry → List String
list_capabilities before r = sort_by before (capabilities_from [] (list_tools r))
