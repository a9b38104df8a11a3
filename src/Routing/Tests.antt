-- ===== src/Routing/Tests.antt =====
-- A routed search, a name that the table does not have, and one that every object has.
use blue_tanuki.Base.{◌≡◌, refl, none, some, [], ◌∷◌, ok, thrown}
use blue_tanuki.Base.Text.{includes}
use blue_tanuki.Base.Dict.{get, put}
use blue_tanuki.Base.Json.{Json, Fields}
use blue_tanuki.Process.Types.{InboundRequest, ProcessKind, ProcessDefinition}
use blue_tanuki.Process.Definition.{execution_policy, resolve_process}
use blue_tanuki.Process.Actor.{resolve_actor}
use blue_tanuki.Protocol.{ExecuteCommand}
use blue_tanuki.Controller.Command.{command_execution_policy_violation, build_command}
use blue_tanuki.Controller.Prepare.{boundary_log}
use blue_tanuki.Controller.Tests.{setting, hello}
use blue_tanuki.Routing.{
  coerce_tool_args, coerce_positive_int, positive_int, digits_from, build_tool_route,
  route_metadata, fields_from,
}
use blue_tanuki.Base.Trim.{trim, is_space}
use blue_tanuki.Routing.Content.{
  token_step, tokens_from, tokenize, split_eq, args_of, take_name, strip_prefix, match_name,
  match_content, parse_args, route_content, route_action,
}
use blue_tanuki.Routing.Table.{RoutedAction, tool_specs, inherited}
use blue_tanuki.Routing.Laws.{route_action-allowed}

abbrev search : RoutedAction
search =
    RoutedAction.tool_call "web.search"
      (("query", Json.str "tanuki") ∷ ("max_results", Json.num 5) ∷ [])
      ("tool:web.search" ∷ "network:http" ∷ []) 15000

search_route :
    build_tool_route
      (λ s. s)
      "web.search"
      (("query", Json.str "tanuki") ∷ ("max_results", Json.str "5") ∷ [])
    ≡ ok search
unfolding build_tool_route coerce_tool_args coerce_positive_int positive_int digits_from tool_specs
    includes get put
search_route = refl

unknown : build_tool_route (λ s. s) "rm" [] ≡ ok (RoutedAction.noop "unsupported tool: rm")
unfolding build_tool_route tool_specs inherited includes get
unknown = refl

-- The lookup finds Object.prototype's constructor, and the spread of its missing capabilities throws.
inherited_name :
    route_metadata
      (λ s. s)
      (some (Json.obj (Fields.field "tool_name" (Json.str "constructor") Fields.end)))
    ≡ thrown "TypeError: spec.allowed_capabilities is not iterable"
unfolding route_metadata build_tool_route fields_from tool_specs inherited includes get put
inherited_name = refl

abbrev asking : InboundRequest
asking = record hello { content = "tool:web.search query=tanuki max_results=5" }

asked : route_action setting.to_upper setting.parse_json asking ≡ ok (some search)
unfolding setting route_action route_metadata route_content match_content match_name take_name
    strip_prefix trim is_space parse_args tokenize tokens_from token_step args_of split_eq
    build_tool_route coerce_tool_args coerce_positive_int positive_int digits_from tool_specs
    includes get put
asked = refl

abbrev process : ProcessDefinition
process = record (resolve_process hello (resolve_actor hello)) {
  execution_policy = execution_policy ProcessKind.tool;
}

route_action-allowed_example :
    (command : ExecuteCommand) × (build_command setting asking
        (boundary_log setting "schema" 1 0)
        "c1"
      ≡ ok command)
    × (command_execution_policy_violation command process ≡ none)
route_action-allowed_example =
    route_action-allowed setting asking (boundary_log setting "schema" 1 0) "c1" process search refl
      asked

-- A quoted argument, an escaped space and a number.
routed_content :
    route_content
      (λ s. s)
      (λ s. thrown "SyntaxError")
      "tool:web.search query=\"blue  tanuki\"  max_results=5"
    ≡ ok (
        some (
          RoutedAction.tool_call "web.search"
            (("query", Json.str "blue  tanuki") ∷ ("max_results", Json.num 5) ∷ [])
            ("tool:web.search" ∷ "network:http" ∷ [])
            15000))
unfolding route_content match_content match_name take_name strip_prefix trim is_space parse_args
    tokenize tokens_from token_step args_of split_eq build_tool_route coerce_tool_args
    coerce_positive_int positive_int digits_from tool_specs includes get put
routed_content = refl

unterminated :
    route_content (λ s. s) (λ s. thrown "SyntaxError") "/tool echo text='x"
    ≡ ok (some (RoutedAction.noop "unterminated quoted tool argument"))
unfolding route_content match_content match_name take_name strip_prefix trim is_space parse_args
    tokenize tokens_from token_step
unterminated = refl
