-- ===== src/Process/Laws.antt =====
-- Metadata from outside the gateway gives no authority (process.ts).
use blue_tanuki.Base.{String, ◌≡◌, ◌≢◌, refl, false, ◌&&◌, none, ◌==◌, if◌then◌else◌, arith}
use blue_tanuki.Process.Types.{InboundRequest, ActorKind, TrustLevel, ProcessKind, ActorRef}
use blue_tanuki.Process.Actor.{
  meta_of, is_trusted_authority_context, explicit_field, infer_actor_kind, infer_trust_level,
  resolve_actor,
}
use blue_tanuki.Process.Definition.{
  infer_process_kind, resolve_process_kind, resolve_process, needs_owner,
}

-- The actor kind by channel, and for the command line by user.
abbrev pub channel_kind : String → String → ActorKind
channel_kind channel user =
    if channel == "cron"
    then ActorKind.cron
    else if channel == "webhook"
    then ActorKind.webhook
    else if channel == "system"
    then ActorKind.system
    else if channel == "cli" && user == "local-user"
    then ActorKind.owner
    else ActorKind.user

-- The trust by actor kind; a user is trusted on the web chat alone.
abbrev pub channel_trust : String → ActorKind → TrustLevel
channel_trust channel ActorKind.owner = TrustLevel.owner
channel_trust channel ActorKind.system = TrustLevel.trusted
channel_trust channel ActorKind.cron = TrustLevel.trusted
channel_trust channel ActorKind.webhook = TrustLevel.limited
channel_trust channel ActorKind.user =
    if channel == "webchat" then TrustLevel.trusted else TrustLevel.limited

infer_trust_level-eq :
    (req : InboundRequest) (k : ActorKind) → infer_trust_level req k ≡ channel_trust req.channel k
unfolding infer_trust_level
infer_trust_level-eq req ActorKind.owner = refl
infer_trust_level-eq req _ = refl

infer_process_kind-guest :
    (req : InboundRequest) (k : ActorKind)
    → is_trusted_authority_context (meta_of req) ≡ false
    → (infer_process_kind req k ≢ ProcessKind.approval)
      × (infer_process_kind req k ≢ ProcessKind.system)
unfolding infer_process_kind
infer_process_kind-guest req ActorKind.cron h = ((λ e. cc), λ e. cc)
infer_process_kind-guest req ActorKind.webhook h = ((λ e. cc), λ e. cc)
infer_process_kind-guest req _ h = ground arith

needs_owner-guest : (k : ProcessKind) → k ≢ ProcessKind.approval → needs_owner k ≡ false
needs_owner-guest ProcessKind.chat h = refl
needs_owner-guest k h = ground arith

module _ (req : InboundRequest)
    (untrusted : is_trusted_authority_context (meta_of req) ≡ false) where
  explicit_field-none :
      (prefixed plain : String) → explicit_field (meta_of req) prefixed plain ≡ none
  unfolding explicit_field
  explicit_field-none prefixed plain = rw untrusted

  infer_actor_kind-eq : infer_actor_kind req ≡ channel_kind req.channel req.user
  unfolding infer_actor_kind
  infer_actor_kind-eq = rw untrusted

  -- Without the gateway's marker in its metadata, whatever else the metadata holds, a request's
  -- actor kind is decided by its channel and user, and its trust by that kind and the channel.
  pub resolve_actor-untrusted :
      ((resolve_actor req).actor_kind ≡ channel_kind req.channel req.user)
      × ((resolve_actor req).trust_level
          ≡ channel_trust req.channel (channel_kind req.channel req.user))
      × ((resolve_actor req).actor_id ≡ req.user)
  unfolding resolve_actor
  resolve_actor-untrusted = (
    rw explicit_field-none infer_actor_kind-eq,
    rw (explicit_field-none "blue_tanuki.trust_level" "trust_level")
        (rw explicit_field-none (rw infer_actor_kind-eq (infer_trust_level-eq req _))),
    refl,
  )

  -- Nor does such a request reach an approval or a system process: it is a cron or webhook process
  -- for those actors, and otherwise a tool process or a chat.
  pub resolve_process-untrusted :
      (actor : ActorRef)
      → ((resolve_process req actor).process_kind ≡ infer_process_kind req actor.actor_kind)
        × ((resolve_process req actor).process_kind ≢ ProcessKind.approval)
        × ((resolve_process req actor).process_kind ≢ ProcessKind.system)
        × ((resolve_process req actor).owner_required ≡ false)
  unfolding resolve_process resolve_process_kind
  resolve_process-untrusted actor =
      let (no_approval, no_system) = infer_process_kind-guest req actor.actor_kind untrusted in
      rw (explicit_field-none "blue_tanuki.process_kind" "process_kind") (
        refl,
        no_approval,
        no_system,
        needs_owner-guest (infer_process_kind req actor.actor_kind) no_approval,
      )
