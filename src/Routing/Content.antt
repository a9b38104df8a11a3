-- ===== src/Routing/Content.antt =====
-- packages/hds-brain/src/action_router.ts: routeContent, its tokenizer, and routeAction. `parse_json` is
-- `JSON.parse`. A regular expression is read off its one possible match: the name is the longest run of
-- its characters, since what follows it is white space or nothing.
use Prim.Native.Char.{Char, code}
use blue_tanuki.Base.{
  ℕ, String, ◌==◌, Bool, true, false, ◌&&◌, ◌||◌, Option, none, some, List, [], ◌∷◌, ◌++◌, eqb, leb,
  if◌then◌else◌, Result, ok, thrown, ◌>>=◌,
}
use blue_tanuki.Base.Text.{◌<>◌}
use blue_tanuki.Base.Trim.{trim, is_space}
use blue_tanuki.Base.Dict.{Dict, get, put}
use blue_tanuki.Base.Json.{Json}
use blue_tanuki.Process.Types.{InboundRequest}
use blue_tanuki.Process.Actor.{meta_of}
use blue_tanuki.Routing.Table.{RoutedAction}
use blue_tanuki.Routing.{is_digit, fields_from, coalesce, build_tool_route, route_metadata}

abbrev pub text_of : Char → String
text_of c = Prim.Native.String.◌∷◌ c ""

-- The variables of `tokenize`; the quote is the code of its character.
pub record TokenState : Type 0 where
  pub current : String
  pub quote : Option ℕ
  pub escaped : Bool

-- the tokens that a separator ends
abbrev pub ended : String → List String
ended current = if current == "" then [] else current ∷ []

-- one character of the loop: the variables after it, and the token that it ends
unfoldable pub token_step : TokenState → Char → TokenState × List String
token_step st ch =
    if st.escaped
    then (record st { current = st.current <> text_of ch; escaped = false }, [])
    else if eqb (code ch) 92
    then (record st { escaped = true }, [])
    else elim st.quote [
      | some q ↦
          if eqb (code ch) q
          then (record st { quote = none }, [])
          else (record st { current = st.current <> text_of ch }, [])
      | none ↦
          if eqb (code ch) 34 || eqb (code ch) 39
          then (record st { quote = some (code ch) }, [])
          else if is_space ch
          then (record st { current = "" }, ended st.current)
          else (record st { current = st.current <> text_of ch }, [])
    ]

abbrev pub finish_tokens : TokenState → Result String (List String)
finish_tokens st = elim st.quote [
  | some _ ↦ thrown "unterminated quoted tool argument"
  | none ↦ ok (ended (if st.escaped then st.current <> "\\" else st.current))
]

unfoldable pub tokens_from : TokenState → String → Result String (List String)
tokens_from st Prim.Native.String.[] = finish_tokens st
tokens_from st (Prim.Native.String.◌∷◌ c s) =
    let next = token_step st c in tokens_from next.0 s >>= λ rest. ok (next.1 ++ rest)

unfoldable pub tokenize : String → Result String (List String)
tokenize input = tokens_from (record { current = ""; quote = none; escaped = false }) input

-- the text before the first "=" and that after it
unfoldable pub split_eq : String → Option (String × String)
split_eq Prim.Native.String.[] = none
split_eq (Prim.Native.String.◌∷◌ c s) =
    let rest = split_eq s in
    if eqb (code c) 61
    then some ("", s)
    else elim rest [ none ↦ none | some (key, value) ↦ some (text_of c <> key, value) ]

-- `out[key] = value`; a text assigned to the prototype is ignored
abbrev pub assign : Dict Json → String → String → Dict Json
assign out key value = if key == "__proto__" then out else put out key (Json.str value)

abbrev pub add_token : Dict Json → String → Option (String × String) → Result String (Dict Json)
add_token out token none = thrown ("tool argument must be key=value: " <> token)
add_token out token (some (key, value)) =
    if key == ""
    then thrown ("tool argument must be key=value: " <> token)
    else ok (assign out key value)

unfoldable pub args_of : Dict Json → List String → Result String (Dict Json)
args_of out [] = ok out
args_of out (token ∷ tokens) = add_token out token (split_eq token) >>= λ next. args_of next tokens

abbrev pub is_name_char : Char → Bool
is_name_char ch =
    let c = code ch in
    is_digit ch || leb 65 c && leb c 90 || leb 97 c && leb c 122 || eqb c 95 || eqb c 46 || eqb c 45

-- the longest run of a name's characters, and the text after it
unfoldable pub take_name : String → String × String
take_name Prim.Native.String.[] = ("", "")
take_name (Prim.Native.String.◌∷◌ c s) =
    let rest = take_name s in
    if is_name_char c then (text_of c <> rest.0, rest.1) else ("", Prim.Native.String.◌∷◌ c s)

abbrev pub begins_space : String → Bool
begins_space Prim.Native.String.[] = false
begins_space (Prim.Native.String.◌∷◌ c s) = is_space c

unfoldable pub strip_prefix : String → String → Option String
strip_prefix Prim.Native.String.[] s = some s
strip_prefix (Prim.Native.String.◌∷◌ p ps) Prim.Native.String.[] = none
strip_prefix (Prim.Native.String.◌∷◌ p ps) (Prim.Native.String.◌∷◌ c s) =
    if eqb (code p) (code c) then strip_prefix ps s else none

-- the name and, trimmed, the text after it
unfoldable pub match_name : String → Option (String × String)
match_name s =
    let taken = take_name s in
    if taken.0 == ""
    then none
    else if taken.1 == "" || begins_space taken.1
    then some (taken.0, trim taken.1)
    else none

abbrev pub match_slash : Option String → Option (String × String)
match_slash none = none
match_slash (some s) = if begins_space s then match_name (trim s) else none

-- the match of routeContent's regular expression with a trimmed content
unfoldable pub match_content : String → Option (String × String)
match_content trimmed = elim (strip_prefix "tool:" trimmed) [
  | some s ↦ match_name s
  | none ↦ match_slash (strip_prefix "/tool" trimmed)
]

abbrev pub object_args : Json → Result String (Dict Json)
object_args (Json.obj fields) = ok (fields_from [] fields)
object_args _ = thrown "tool arguments JSON must be an object"

abbrev pub route_or_noop :
    (to_upper : String → String)
    → String
    → Result String (Dict Json)
    → Result String (Option RoutedAction)
route_or_noop to_upper tool_name (ok args) =
    build_tool_route to_upper tool_name args >>= λ route. ok (some route)
route_or_noop to_upper tool_name (thrown message) = ok (some (RoutedAction.noop message))

module _ (to_upper : String → String) (parse_json : String → Result String Json) where
  unfoldable pub parse_args : String → Result String (Dict Json)
  parse_args rest = if rest == "" then ok [] else elim (strip_prefix "{" rest) [
    | some _ ↦ parse_json rest >>= object_args
    | none ↦ tokenize rest >>= args_of []
  ]

  unfoldable pub route_content : String → Result String (Option RoutedAction)
  route_content content = elim (match_content (trim content)) [
    | none ↦ ok none
    | some (tool_name, rest) ↦ route_or_noop to_upper tool_name (parse_args rest)
  ]

  abbrev pub route_else : String → Option RoutedAction → Result String (Option RoutedAction)
  route_else content none = route_content content
  route_else content (some route) = ok (some route)

  unfoldable pub route_action : InboundRequest → Result String (Option RoutedAction)
  route_action req =
      let meta = meta_of req in
      route_metadata to_upper (coalesce (get meta "blue_tanuki.tool_call") (get meta "tool_call"))
      >>= route_else req.content
