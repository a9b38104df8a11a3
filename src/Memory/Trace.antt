-- ===== src/Memory/Trace.antt =====
-- packages/hds-brain/src/memory_trace.ts: the entries that a request's process reads. `lower` is `toLowerCase`. A value
-- of the reader that is no memory entry is `none`; a method that is missing gives nothing.
use blue_tanuki.Base.{
  ℕ, ◌-◌, ◌*◌, max, String, Bool, true, false, not, ◌&&◌, ◌||◌, Option, none, some, List, [], ◌∷◌,
  ◌++◌, filter, any, length, ◌==◌, leb, eqb, or_else, starts_with, if◌then◌else◌,
}
use blue_tanuki.Base.Text.{join, includes}
use blue_tanuki.Base.Trim.{trim}
use blue_tanuki.Base.Dict.{Dict, get}
use blue_tanuki.Base.Json.{Json, as_string}
use blue_tanuki.Process.Types.{
  InboundRequest, ProcessDefinition, MemoryHit, MemoryTrace, MemoryReadPolicy, MemorySource,
  Retrieval,
}
use blue_tanuki.Process.Actor.{meta_of, string_field}
use blue_tanuki.Process.Definition.{process_kind_name}
use blue_tanuki.Routing.{coalesce, fields_from}
use blue_tanuki.Routing.Content.{strip_prefix, take_name, begins_space}
use blue_tanuki.Session.{drop}
use blue_tanuki.Executor.Registry.{add_name, add_names}
use blue_tanuki.Memory.Reference.{
  f_reference_for_id, id_from_f_reference, reference_id_from_input, f_references_from_text,
  non_empty_text,
}

-- The parts of an entry that are read: `surroundings` holds the texts of the actor, the process, the
-- tags and the closure, in the order in which entryMatchesTag joins them.
pub record MemoryEntry : Type 0 where
  pub request_id : String
  pub entry_hash : String
  pub goal : String
  pub problem_definition_id : String
  pub abstraction : String
  pub surroundings : List String

pub record MemoryReader : Type 0 where
  pub recent : ℕ → List (Option MemoryEntry)
  pub every : Option (List (Option MemoryEntry))
  pub find_by_request_id : String → Option MemoryEntry
  pub find_by_tag : String → ℕ → List (Option MemoryEntry)

-- `filter(isMemoryEntry)`
unfoldable pub entries_of : List (Option MemoryEntry) → List MemoryEntry
entries_of [] = []
entries_of (none ∷ xs) = entries_of xs
entries_of (some e ∷ xs) = e ∷ entries_of xs

-- `slice(-n)`, which keeps everything for 0
abbrev pub last_of : ℕ → List MemoryEntry → List MemoryEntry
last_of n xs = if eqb n 0 then xs else drop (length xs - n) xs

unfoldable pub collect_candidates : MemoryReader → MemoryReadPolicy → List MemoryEntry
collect_candidates reader policy =
    last_of (max (policy.max_hits * 20) policy.max_hits) (
      entries_of (or_else reader.every (reader.recent (max (policy.max_hits * 5) policy.max_hits))))

abbrev pub as_reference : String → String
as_reference value = elim (id_from_f_reference value) [
  | none ↦ value
  | some id ↦ f_reference_for_id id
]

abbrev pub add_key : List String → Option String → List String
add_key refs none = refs
add_key refs (some value) = add_name refs (as_reference value)

unfoldable pub exact_keys : InboundRequest → List String
exact_keys req =
    let meta = meta_of req in
    let refs = add_key [] (string_field meta "request_id") in
    let refs1 = add_key refs (string_field meta "source_request_id") in
    let refs2 = add_key refs1 (string_field meta "reference_request_id") in
    let refs3 = add_key refs2 (string_field meta "blue_tanuki.reference_request_id") in
    add_names refs3 (f_references_from_text req.content)

unfoldable pub tool_name : String → Option String
tool_name content = elim (strip_prefix "tool:" (trim content)) [
  | some s ↦ non_empty_text (take_name s).0
  | none ↦ elim (strip_prefix "/tool" (trim content)) [
    | some s ↦ if begins_space s then non_empty_text (take_name (trim s)).0 else none
    | none ↦ none
  ]
]

abbrev pub tool_name_of_raw : Option Json → Option String
tool_name_of_raw (some (Json.obj fields)) =
    let raw = fields_from [] fields in as_string (coalesce (get raw "tool_name") (get raw "tool"))
tool_name_of_raw _ = none

abbrev pub tool_name_from_metadata : Dict Json → Option String
tool_name_from_metadata meta =
    tool_name_of_raw (coalesce (get meta "blue_tanuki.tool_call") (get meta "tool_call"))

-- `includes` of a text
unfoldable pub contains : String → String → Bool
contains Prim.Native.String.[] part = part == ""
contains (Prim.Native.String.◌∷◌ c s) part =
    starts_with (Prim.Native.String.◌∷◌ c s) part || contains s part

abbrev pub hit_of : MemoryEntry → Retrieval → Option String → MemoryHit
hit_of e reason matched_on = record {
  source = MemorySource.hds_ltm;
  memory_id = e.request_id;
  f_reference = f_reference_for_id e.request_id;
  entry_hash = e.entry_hash;
  reason = reason;
  matched_on = matched_on;
  goal = e.goal;
  problem_definition_id = e.problem_definition_id;
  abstraction = e.abstraction;
}

pub record Hits : Type 0 where
  pub hits : List MemoryHit
  pub seen : List String

unfoldable pub add_hit : ℕ → Retrieval → Option String → Hits → MemoryEntry → Hits
add_hit max_hits reason matched_on st e =
    if leb max_hits (length st.hits)
    then st
    else if includes st.seen e.entry_hash
    then st
    else record {
      hits = st.hits ++ hit_of e reason matched_on ∷ [];
      seen = st.seen ++ e.entry_hash ∷ [];
    }

unfoldable pub add_hits : ℕ → Retrieval → Option String → Hits → List MemoryEntry → Hits
add_hits max_hits reason matched_on st [] = st
add_hits max_hits reason matched_on st (e ∷ es) =
    add_hits max_hits reason matched_on (add_hit max_hits reason matched_on st e) es

abbrev pub has_mode : List Retrieval → Retrieval → Bool
has_mode modes Retrieval.exact = any (λ m. elim m [ Retrieval.exact ↦ true | _ ↦ false ]) modes
has_mode modes Retrieval.tag = any (λ m. elim m [ Retrieval.tag ↦ true | _ ↦ false ]) modes
has_mode modes Retrieval.recent = any (λ m. elim m [ Retrieval.recent ↦ true | _ ↦ false ]) modes

abbrev pub reads_memory : MemoryReadPolicy → Bool
reads_memory policy =
    policy.enabled
    && any (λ s. elim s [ MemorySource.hds_ltm ↦ true | _ ↦ false ]) policy.allowed_sources

module _ (lower : String → String) where
  unfoldable pub tag_keys : InboundRequest → ProcessDefinition → List String
  tag_keys req process =
      let tool =
        or_else (tool_name req.content) (or_else (tool_name_from_metadata (meta_of req)) "") in
      filter (λ tag. not (tag == ""))
        (add_names [] (
          lower req.channel
          ∷ lower req.user
          ∷ process_kind_name process.process_kind
          ∷ (if tool == "" then [] else lower tool ∷ [])))

  unfoldable pub entry_matches_tag : MemoryEntry → String → Bool
  entry_matches_tag e tag =
      contains
        (lower (join "\n" (e.goal ∷ e.problem_definition_id ∷ e.abstraction ∷ e.surroundings)))
        (lower tag)

  module _ (reader : MemoryReader) (policy : MemoryReadPolicy) where
    abbrev pub found_exact : String → List MemoryEntry
    found_exact ref =
        let exact = reference_id_from_input ref in
        entries_of (reader.find_by_request_id exact ∷ [])
        ++ filter (λ e. e.request_id == exact || f_reference_for_id e.request_id == ref)
            (collect_candidates reader policy)

    abbrev pub found_tag : String → List MemoryEntry
    found_tag tag =
        entries_of (reader.find_by_tag tag policy.max_hits)
        ++ filter (λ e. entry_matches_tag e tag) (collect_candidates reader policy)

    unfoldable pub add_each : Retrieval → (String → List MemoryEntry) → Hits → List String → Hits
    add_each reason found st [] = st
    add_each reason found st (key ∷ keys) =
        add_each reason found (add_hits policy.max_hits reason (some key) st (found key)) keys

    unfoldable pub read_hits : InboundRequest → ProcessDefinition → Hits
    read_hits req process =
        let start : Hits = record { hits = []; seen = [] } in
        let exact =
          if has_mode policy.retrieval_modes Retrieval.exact
          then add_each Retrieval.exact found_exact start (exact_keys req)
          else start in
        let tagged =
          if has_mode policy.retrieval_modes Retrieval.tag
          then add_each Retrieval.tag found_tag exact (tag_keys req process)
          else exact in
        if has_mode policy.retrieval_modes Retrieval.recent
        then add_hits policy.max_hits Retrieval.recent none tagged
            (entries_of (reader.recent policy.max_hits))
        else tagged

  abbrev pub trace_of : ProcessDefinition → List MemoryHit → MemoryTrace
  trace_of process hits = record {
    policy_id = process.memory_policy.policy_id;
    process_id = process.process_id;
    hits = hits;
  }

  unfoldable pub build_memory_trace :
      Option MemoryReader → InboundRequest → ProcessDefinition → MemoryTrace
  build_memory_trace none req process = trace_of process []
  build_memory_trace (some reader) req process =
      if not (reads_memory process.memory_policy)
      then trace_of process []
      else trace_of process (read_hits reader process.memory_policy req process).hits
