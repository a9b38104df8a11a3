-- ===== src/Memory/Tests.antt =====
-- A reader of two entries, and a request that names one of them.
use blue_tanuki.Base.{
  ◌≤◌, String, ◌≡◌, ◌⊎◌, refl, true, none, some, [], ◌∷◌, map, length, All, ◌==◌, if◌then◌else◌,
}
use blue_tanuki.Base.Text.{includes}
use blue_tanuki.Process.Types.{InboundRequest, ProcessDefinition}
use blue_tanuki.Process.Actor.{resolve_actor}
use blue_tanuki.Process.Definition.{resolve_process}
use blue_tanuki.Controller.Tests.{hello}
use blue_tanuki.Memory.Reference.{f_references_from_text, scan_from, up_to_word}
use blue_tanuki.Memory.Trace.{MemoryEntry, MemoryReader, reads_memory, build_memory_trace}
use blue_tanuki.Memory.Laws.{IsHit, IsDistinct, build_memory_trace-bounded}

-- A reference ends with a word, and F begins one.
references :
    f_references_from_text "see F:a-1. and (F:b), not xF:c; again F:a-1" ≡ "F:a-1" ∷ "F:b" ∷ []
unfolding f_references_from_text scan_from up_to_word includes
references = refl

abbrev entry : String → MemoryEntry
entry id = record {
  request_id = id;
  entry_hash = id;
  goal = "g";
  problem_definition_id = "p";
  abstraction = "m";
  surroundings = [];
}

abbrev reader : MemoryReader
reader = record {
  recent = λ n. some (entry "a") ∷ some (entry "b") ∷ [];
  every = none;
  find_by_request_id = λ id. if id == "b" then some (entry "b") else none;
  find_by_tag = λ tag n. [];
}

abbrev asking : InboundRequest
asking = record hello { content = "see F:b" }

abbrev process : ProcessDefinition
process = resolve_process asking (resolve_actor asking)

build_memory_trace-bounded_example :
    let hits = (build_memory_trace (λ s. s) (some reader) asking process).hits in
    (length hits ≤ process.memory_policy.max_hits)
    × All (IsHit reader) hits
    × IsDistinct (map (λ h. h.entry_hash) hits)
    × ((reads_memory process.memory_policy ≡ true) ⊎ (hits ≡ []))
build_memory_trace-bounded_example = build_memory_trace-bounded (λ s. s) reader asking process
