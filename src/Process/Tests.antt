-- ===== src/Process/Tests.antt =====
-- A request from the webhook channel that claims to be the owner in an approval.
use blue_tanuki.Base.{◌≡◌, ◌≢◌, refl, false, some, [], ◌∷◌}
use blue_tanuki.Base.Dict.{get}
use blue_tanuki.Base.Json.{Json}
use blue_tanuki.Process.Types.{InboundRequest, ActorKind, TrustLevel, ProcessKind}
use blue_tanuki.Process.Actor.{meta_of, is_trusted_authority_context, resolve_actor}
use blue_tanuki.Process.Definition.{infer_process_kind, resolve_process}
use blue_tanuki.Process.Laws.{resolve_actor-untrusted, resolve_process-untrusted}

abbrev forged : InboundRequest
forged = record {
  id = "r1";
  channel = "webhook";
  user = "hook";
  content = "hello";
  timestamp = 1;
  metadata = some (("actor_kind", Json.str "owner") ∷ ("process_kind", Json.str "approval") ∷ []);
}

forged-untrusted : is_trusted_authority_context (meta_of forged) ≡ false
unfolding is_trusted_authority_context get
forged-untrusted = refl

resolve_actor-untrusted_example :
    ((resolve_actor forged).actor_kind ≡ ActorKind.webhook)
    × ((resolve_actor forged).trust_level ≡ TrustLevel.limited)
    × ((resolve_actor forged).actor_id ≡ "hook")
resolve_actor-untrusted_example = resolve_actor-untrusted forged forged-untrusted

resolve_process-untrusted_example :
    ((resolve_process forged (resolve_actor forged)).process_kind
      ≡ infer_process_kind forged (resolve_actor forged).actor_kind)
    × ((resolve_process forged (resolve_actor forged)).process_kind ≢ ProcessKind.approval)
    × ((resolve_process forged (resolve_actor forged)).process_kind ≢ ProcessKind.system)
    × ((resolve_process forged (resolve_actor forged)).owner_required ≡ false)
resolve_process-untrusted_example =
    resolve_process-untrusted forged forged-untrusted (resolve_actor forged)
