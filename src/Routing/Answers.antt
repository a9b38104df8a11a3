-- ===== src/Routing/Answers.antt =====
-- What holds of a tool's routes and of the noops holds of every answer of `routeAction`.
use blue_tanuki.Base.{String, Option, none, some, [], Result, ok, thrown, ◌>>=◌}
use blue_tanuki.Base.Trim.{trim}
use blue_tanuki.Base.Dict.{Dict}
use blue_tanuki.Base.Json.{Json}
use blue_tanuki.Process.Types.{InboundRequest}
use blue_tanuki.Routing.{
  fields_from, build_tool_route, route_with_args, route_named, route_metadata,
}
use blue_tanuki.Routing.Content.{
  match_content, parse_args, route_or_noop, route_content, route_else, route_action,
}
use blue_tanuki.Routing.Table.{RoutedAction}

-- A property of whatever the router answers.
module _ (to_upper : String → String) (parse_json : String → Result String Json)
    (P : RoutedAction → Type 0) where
  abbrev pub OnAction : Result String RoutedAction → Type 0
  OnAction (ok action) = P action
  OnAction (thrown e) = Unit

  abbrev pub OnRoute : Result String (Option RoutedAction) → Type 0
  OnRoute (ok (some action)) = P action
  OnRoute (ok none) = Unit
  OnRoute (thrown e) = Unit

  OnRoute-some :
      (r : Result String RoutedAction) → OnAction r → OnRoute (r >>= λ route. ok (some route))
  OnRoute-some (ok action) h = h
  OnRoute-some (thrown e) h = tt

  module _ (noops : (reason : String) → P (RoutedAction.noop reason))
      (tools : (name : String) (args : Dict Json)
        → OnAction (build_tool_route to_upper name args)) where
    route_with_args-OnAction :
        (name : String) (args : Option Json) → OnAction (route_with_args to_upper name args)
    route_with_args-OnAction name none = tools name []
    route_with_args-OnAction name (some (Json.obj args)) = tools name (fields_from [] args)
    route_with_args-OnAction name (some Json.null) = tools name []
    route_with_args-OnAction name (some (Json.bool b)) = noops _
    route_with_args-OnAction name (some (Json.num n)) = noops _
    route_with_args-OnAction name (some (Json.str s)) = noops _
    route_with_args-OnAction name (some (Json.arr xs)) = noops _

    route_named-OnAction :
        (raw : Dict Json) (name : Option String) → OnAction (route_named to_upper raw name)
    route_named-OnAction raw none = noops _
    route_named-OnAction raw (some name) = route_with_args-OnAction name _

    route_metadata-OnRoute : (raw : Option Json) → OnRoute (route_metadata to_upper raw)
    unfolding route_metadata
    route_metadata-OnRoute none = tt
    route_metadata-OnRoute (some (Json.obj fields)) =
        OnRoute-some _ (route_named-OnAction (fields_from [] fields) _)
    route_metadata-OnRoute (some Json.null) = noops _
    route_metadata-OnRoute (some (Json.bool b)) = noops _
    route_metadata-OnRoute (some (Json.num n)) = noops _
    route_metadata-OnRoute (some (Json.str s)) = noops _
    route_metadata-OnRoute (some (Json.arr xs)) = noops _

    route_or_noop-OnRoute :
        (name : String) (args : Result String (Dict Json))
        → OnRoute (route_or_noop to_upper name args)
    route_or_noop-OnRoute name (ok args) = OnRoute-some _ (tools name args)
    route_or_noop-OnRoute name (thrown message) = noops message

    route_content-OnRoute : (content : String) → OnRoute (route_content to_upper parse_json content)
    unfolding route_content
    route_content-OnRoute content =
        elim (match_content (trim content))
          as (λ m. OnRoute (elim m [
            | none ↦ ok none
            | some (name, rest) ↦ route_or_noop to_upper name (parse_args to_upper parse_json rest)
          ])) [ none ↦ tt | some (name, rest) ↦ route_or_noop-OnRoute name _ ]

    route_else-OnRoute :
        (content : String) (r : Result String (Option RoutedAction))
        → OnRoute r
        → OnRoute (r >>= route_else to_upper parse_json content)
    route_else-OnRoute content (ok none) h = route_content-OnRoute content
    route_else-OnRoute content (ok (some action)) h = h
    route_else-OnRoute content (thrown e) h = tt

    pub route_action-OnRoute :
        (req : InboundRequest) → OnRoute (route_action to_upper parse_json req)
    unfolding route_action
    route_action-OnRoute req = route_else-OnRoute req.content _ (route_metadata-OnRoute _)
