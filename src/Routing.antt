-- ===== src/Routing.antt =====
-- packages/hds-brain/src/action_router.ts: the tool table, the route of a named tool with its arguments and
-- that of request metadata. `to_upper` is `toUpperCase`. Numbers of arguments are natural numbers.
pub mod Table
pub mod Content
pub mod Answers
pub mod Laws
mod Tests
use Prim.Native.Char.{Char, code}
use blue_tanuki.Base.{
  ℕ, ◌+◌, ◌-◌, ◌*◌, String, ◌==◌, Bool, true, false, ◌&&◌, Option, none, some, List, [], ◌∷◌, leb,
  if◌then◌else◌, Result, ok, thrown, ◌>>=◌,
}
use blue_tanuki.Base.Text.{◌<>◌, includes}
use blue_tanuki.Base.Dict.{Dict, get, put}
use blue_tanuki.Base.Json.{Json, Fields, as_string}
use blue_tanuki.Routing.Table.{RoutedAction, ToolSpec, tool_specs, inherited}

abbrev pub is_digit : Char → Bool
is_digit ch = leb 48 (code ch) && leb (code ch) 57

-- `parseInt` of a text of digits, after those that came to `acc`
unfoldable pub digits_from : ℕ → String → Option ℕ
digits_from acc Prim.Native.String.[] = some acc
digits_from acc (Prim.Native.String.◌∷◌ c s) =
    let rest = digits_from (10 * acc + (code c - 48)) s in if is_digit c then rest else none

-- `parseInt` of a text that matches /^[1-9]\d*$/
unfoldable pub positive_int : String → Option ℕ
positive_int Prim.Native.String.[] = none
positive_int (Prim.Native.String.◌∷◌ c s) =
    if leb 49 (code c) && leb (code c) 57 then digits_from (code c - 48) s else none

abbrev pub coerce_value : Dict Json → String → Option ℕ → Dict Json
coerce_value args key none = args
coerce_value args key (some n) = put args key (Json.num n)

abbrev pub coerce_text : Dict Json → String → Option String → Dict Json
coerce_text args key none = args
coerce_text args key (some s) = coerce_value args key (positive_int s)

unfoldable pub coerce_positive_int : String → Dict Json → Dict Json
coerce_positive_int key args = coerce_text args key (as_string (get args key))

-- the arguments after `coercePositiveInt`, if the tool is among these
abbrev pub coerce_for : List String → String → String → Dict Json → Dict Json
coerce_for tools tool_name key args =
    if includes tools tool_name then coerce_positive_int key args else args

-- the fields of an object, the last of a name counting
unfoldable pub fields_from : Dict Json → Fields → Dict Json
fields_from acc Fields.end = acc
fields_from acc (Fields.field name value rest) = fields_from (put acc name value) rest

-- `a ?? b`
abbrev pub coalesce : Option Json → Option Json → Option Json
coalesce none b = b
coalesce (some Json.null) b = b
coalesce (some v) b = some v

-- a text that is not empty
abbrev pub filled : Option String → Option String
filled none = none
filled (some s) = if s == "" then none else some s

abbrev pub tool_name_of : Dict Json → Option String
tool_name_of raw = elim (filled (as_string (get raw "tool_name"))) [
  | some name ↦ some name
  | none ↦ filled (as_string (get raw "tool"))
]

module _ (to_upper : String → String) where
  abbrev pub upper_method : Dict Json → Option String → Dict Json
  upper_method args none = args
  upper_method args (some s) = put args "method" (Json.str (to_upper s))

  unfoldable pub coerce_tool_args : String → Dict Json → Dict Json
  coerce_tool_args tool_name args =
      let args1 =
        coerce_for
          ("file.search" ∷ "web.search" ∷ "github.read" ∷ "gmail.read" ∷ "google.calendar.read"
            ∷ "google.drive.read" ∷ [])
          tool_name "max_results" args in
      let args2 =
        coerce_for
          ("http.fetch" ∷ "web.search" ∷ "github.read" ∷ "github.write" ∷ "gmail.read"
            ∷ "google.calendar.read" ∷ "google.drive.read" ∷ "gmail.write" ∷ "google.calendar.write"
            ∷ "google.drive.write" ∷ "browser.read" ∷ "browser.snapshot" ∷ "browser.automation"
            ∷ "file.write" ∷ "file.edit" ∷ "shell.exec" ∷ "schedule.create" ∷ "schedule.update"
            ∷ [])
          tool_name "max_bytes" args1 in
      let args3 = coerce_for ("shell.exec" ∷ []) tool_name "timeout_ms" args2 in
      let args4 =
        coerce_for ("browser.read" ∷ "browser.snapshot" ∷ "browser.automation" ∷ []) tool_name
          "max_chars" args3 in
      let args5 =
        coerce_for ("browser.snapshot" ∷ "browser.automation" ∷ []) tool_name "timeout_ms" args4 in
      let args6 = coerce_for ("github.read" ∷ "github.write" ∷ []) tool_name "number" args5 in
      let args7 = coerce_for ("google.calendar.read" ∷ []) tool_name "days" args6 in
      let args8 = coerce_for ("google.drive.write" ∷ []) tool_name "max_content_bytes" args7 in
      let args9 = coerce_for ("file.edit" ∷ []) tool_name "expected_replacements" args8 in
      let args10 =
        coerce_for ("schedule.create" ∷ "schedule.update" ∷ []) tool_name "interval_ms" args9 in
      if tool_name == "http.fetch"
      then upper_method args10 (as_string (get args10 "method"))
      else args10

  abbrev pub route_of : String → Dict Json → Option ToolSpec → Result String RoutedAction
  route_of tool_name args (some spec) = ok (
      RoutedAction.tool_call tool_name (coerce_tool_args tool_name args) spec.allowed_capabilities
        spec.timeout_ms)
  route_of tool_name args none =
      if includes inherited tool_name
      then thrown "TypeError: spec.allowed_capabilities is not iterable"
      else ok (RoutedAction.noop ("unsupported tool: " <> tool_name))

  unfoldable pub build_tool_route : String → Dict Json → Result String RoutedAction
  build_tool_route tool_name args = route_of tool_name args (get tool_specs tool_name)

  abbrev pub route_with_args : String → Option Json → Result String RoutedAction
  route_with_args tool_name none = build_tool_route tool_name []
  route_with_args tool_name (some (Json.obj args)) =
      build_tool_route tool_name (fields_from [] args)
  route_with_args tool_name (some Json.null) = build_tool_route tool_name []
  route_with_args tool_name (some _) =
      ok (RoutedAction.noop "tool_call metadata arguments must be an object")

  abbrev pub route_named : Dict Json → Option String → Result String RoutedAction
  route_named raw none = ok (RoutedAction.noop "tool_call metadata missing tool_name")
  route_named raw (some tool_name) =
      route_with_args tool_name (coalesce (get raw "arguments") (get raw "args"))

  -- the answer to the metadata's value of a tool call; an absent one gives none
  unfoldable pub route_metadata : Option Json → Result String (Option RoutedAction)
  route_metadata none = ok none
  route_metadata (some (Json.obj fields)) =
      let raw = fields_from [] fields in
      route_named raw (tool_name_of raw) >>= λ route. ok (some route)
  route_metadata (some _) = ok (some (RoutedAction.noop "tool_call metadata must be an object"))
