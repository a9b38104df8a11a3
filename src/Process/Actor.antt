-- ===== src/Process/Actor.antt =====
-- packages/hds-brain/src/process.ts: the actor of a request and how far it is trusted.
use blue_tanuki.Base.{
  String, Bool, false, ◌&&◌, ◌||◌, Option, none, some, [], ◌==◌, or_else, if◌then◌else◌,
}
use blue_tanuki.Base.Dict.{Dict, get}
use blue_tanuki.Base.Json.{Json, as_string}
use blue_tanuki.Process.Types.{InboundRequest, ActorKind, TrustLevel, ActorRef}

-- `req.metadata ?? {}`
abbrev pub meta_of : InboundRequest → Dict Json
meta_of req = or_else req.metadata []

-- a string field that is not empty
abbrev pub non_empty : Option String → Option String
non_empty none = none
non_empty (some s) = if s == "" then none else some s

unfoldable pub string_field : Dict Json → String → Option String
string_field meta key = non_empty (as_string (get meta key))

abbrev pub is_text : Option String → String → Bool
is_text none t = false
is_text (some s) t = s == t

unfoldable pub is_trusted_authority_context : Dict Json → Bool
is_trusted_authority_context meta =
    is_text (as_string (get meta "blue_tanuki.authority_context")) "gateway_internal_v1"

-- `a ?? b` on optional texts
abbrev pub first_of_two : Option String → Option String → Option String
first_of_two none o = o
first_of_two (some s) o = some s

unfoldable pub actor_kind_of : String → Option ActorKind
actor_kind_of s =
    if s == "owner"
    then some ActorKind.owner
    else if s == "user"
    then some ActorKind.user
    else if s == "system"
    then some ActorKind.system
    else if s == "webhook"
    then some ActorKind.webhook
    else if s == "cron"
    then some ActorKind.cron
    else none

unfoldable pub trust_level_of : String → Option TrustLevel
trust_level_of s =
    if s == "owner"
    then some TrustLevel.owner
    else if s == "trusted"
    then some TrustLevel.trusted
    else if s == "limited"
    then some TrustLevel.limited
    else if s == "untrusted"
    then some TrustLevel.untrusted
    else none

-- a name that the explicit field holds, if it holds one
abbrev pub named {ℓ} : {A : Type ℓ} → (String → Option A) → Option String → Option A
named f none = none
named f (some s) = f s

-- a metadata field under its prefixed or its plain name, read in a trusted context alone
unfoldable pub explicit_field : Dict Json → String → String → Option String
explicit_field meta prefixed plain =
    if is_trusted_authority_context meta
    then first_of_two (string_field meta prefixed) (string_field meta plain)
    else none

unfoldable pub infer_actor_kind : InboundRequest → ActorKind
infer_actor_kind req =
    let meta = meta_of req in
    let trigger =
      if is_trusted_authority_context meta then string_field meta "trigger_kind" else none in
    if is_text trigger "cron" || req.channel == "cron"
    then ActorKind.cron
    else if is_text trigger "webhook" || req.channel == "webhook"
    then ActorKind.webhook
    else if req.channel == "system"
    then ActorKind.system
    else if req.channel == "cli" && req.user == "local-user"
    then ActorKind.owner
    else ActorKind.user

unfoldable pub infer_trust_level : InboundRequest → ActorKind → TrustLevel
infer_trust_level req ActorKind.owner = TrustLevel.owner
infer_trust_level req ActorKind.system = TrustLevel.trusted
infer_trust_level req ActorKind.cron = TrustLevel.trusted
infer_trust_level req ActorKind.webhook = TrustLevel.limited
infer_trust_level req ActorKind.user =
    if req.channel == "webchat" then TrustLevel.trusted else TrustLevel.limited

unfoldable pub resolve_actor : InboundRequest → ActorRef
resolve_actor req =
    let meta = meta_of req in
    let kind =
      or_else (named actor_kind_of (explicit_field meta "blue_tanuki.actor_kind" "actor_kind"))
        (infer_actor_kind req) in
    record {
      actor_id = req.user;
      actor_kind = kind;
      channel = req.channel;
      external_user_id =
          first_of_two (string_field meta "external_user_id") (string_field meta "reply_to");
      trust_level =
          or_else
            (named trust_level_of (explicit_field meta "blue_tanuki.trust_level" "trust_level"))
            (infer_trust_level req kind);
    }
