-- ===== src/Process/Frame.antt =====
-- packages/hds-brain/src/frame.ts: the frame of a request. `reader` is the memory port, if there is one.
use blue_tanuki.Base.{
  ℕ, zero, suc, String, Bool, ◌&&◌, ◌||◌, Option, none, some, List, [], ◌∷◌, if◌then◌else◌,
  starts_with,
}
use blue_tanuki.Base.Text.{◌<>◌}
use blue_tanuki.Base.Trim.{trim}
use blue_tanuki.Base.Dict.{get}
use blue_tanuki.Base.Json.{as_string}
use blue_tanuki.Memory.Trace.{MemoryReader, build_memory_trace}
use blue_tanuki.Process.Types.{
  InboundRequest, ActorKind, SurfaceId, SurfaceSource, OperatorSurface, FrameResult,
}
use blue_tanuki.Process.Actor.{meta_of, is_text, is_trusted_authority_context, resolve_actor}
use blue_tanuki.Process.Definition.{resolve_process}

abbrev pub default_protected_values : List String
default_protected_values =
    "user_safety" ∷ "audit_traceability" ∷ "no_irreversible_action" ∷ "authority_non_bypass" ∷ []

abbrev begins_surface : String → String → Bool
begins_surface text name =
    starts_with text ("/" <> name)
    || starts_with text (name <> ":")
    || starts_with text ("operator:" <> name)

-- `lower` is `toLowerCase`.
module _ (lower : String → String) where
  unfoldable pub resolve_operator_surface : InboundRequest → Option OperatorSurface
  resolve_operator_surface req =
      let trimmed = lower (trim req.content) in
      let meta = meta_of req in
      let surface = as_string (get meta "blue_tanuki.operator_surface") in
      if begins_surface trimmed "writing"
      then some (record { id = SurfaceId.writing; source = SurfaceSource.content_prefix })
      else if begins_surface trimmed "daily"
      then some (record { id = SurfaceId.daily; source = SurfaceSource.content_prefix })
      else if begins_surface trimmed "developer"
      then some (record { id = SurfaceId.developer; source = SurfaceSource.content_prefix })
      else if is_trusted_authority_context meta && is_text surface "writing"
      then some
          (record { id = SurfaceId.writing; source = SurfaceSource.gateway_internal_metadata })
      else if is_trusted_authority_context meta && is_text surface "daily"
      then some (record { id = SurfaceId.daily; source = SurfaceSource.gateway_internal_metadata })
      else if is_trusted_authority_context meta && is_text surface "developer"
      then some
          (record { id = SurfaceId.developer; source = SurfaceSource.gateway_internal_metadata })
      else none

abbrev pub actor_kind_name : ActorKind → String
actor_kind_name ActorKind.owner = "owner"
actor_kind_name ActorKind.user = "user"
actor_kind_name ActorKind.system = "system"
actor_kind_name ActorKind.webhook = "webhook"
actor_kind_name ActorKind.cron = "cron"

abbrev surface_name : SurfaceId → String
surface_name SurfaceId.writing = "writing"
surface_name SurfaceId.daily = "daily"
surface_name SurfaceId.developer = "developer"

-- `content.slice(0, n)`, over code points
abbrev first_chars : ℕ → String → String
first_chars zero s = ""
first_chars (suc n) String.[] = ""
first_chars (suc n) (String.◌∷◌ c s) = String.◌∷◌ c (first_chars n s)

-- The frame with no override of actor, process, policy or protected values, as `decide` asks for it.
unfoldable pub frame :
    (String → String) → Option MemoryReader → InboundRequest → String → FrameResult
frame lower reader req problem_definition_id =
    let actor = resolve_actor req in
    let process = resolve_process req actor in
    let surface = resolve_operator_surface lower req in
    record {
      actor = actor;
      process = process;
      memory_trace = build_memory_trace lower reader req process;
      operator_surface = surface;
      goal = first_chars 200 req.content;
      protected_values = default_protected_values;
      x =
          req.channel
          ∷ req.user
          ∷ actor_kind_name actor.actor_kind
          ∷ process.process_id
          ∷ elim surface [ none ↦ [] | some s ↦ ("surface:" <> surface_name s.id) ∷ [] ];
      r =
          "request_response"
          ∷ "actor_process_binding"
          ∷ elim surface [ none ↦ [] | some s ↦ "operator_surface_binding" ∷ [] ];
      m = "text" ∷ "hds_authority_plane" ∷ [];
      problem_definition_id = problem_definition_id;
    }
