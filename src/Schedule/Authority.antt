-- ===== src/Schedule/Authority.antt =====
-- The requests of cron_channel.ts before HDS-BRAIN: who sends them, and the command that they become.
use blue_tanuki.Base.{
  ℕ, String, ◌==◌, ◌≡◌, ◌⊎◌, refl, sym, ap, ◌∙◌, inl, inr, false, Option, none, some, List, [], ◌∷◌,
  Bool-cases, if◌then◌else◌, Result, ok, All, bind_ok, ok-injective,
}
use blue_tanuki.Base.Text.{includes}
use blue_tanuki.Base.Trim.{trim}
use blue_tanuki.Base.Dict.{Dict, get, put, get-put}
use blue_tanuki.Base.Json.{Json}
use blue_tanuki.Protocol.{ChannelSendPayload, ToolCallPayload, Body, ExecuteCommand}
use blue_tanuki.Process.Types.{
  InboundRequest, ActorKind, TrustLevel, ProcessKind, ActorRef, ProcessDefinition,
}
use blue_tanuki.Process.Actor.{
  meta_of, resolve_actor, explicit_field, is_trusted_authority_context, string_field, actor_kind_of,
  trust_level_of,
}
use blue_tanuki.Process.Definition.{
  resolve_process, resolve_process_kind, process_kind_of, execution_policy,
}
use blue_tanuki.Controller.Types.{Setting, DecisionLog}
use blue_tanuki.Controller.Command.{
  command_execution_policy_violation, string_meta, trusted_channel_send_from_metadata,
  default_command, command_for, build_command,
}
use blue_tanuki.Routing.Table.{RoutedAction}
use blue_tanuki.Routing.Content.{route_action}
use blue_tanuki.Executor.Policy.{violation-none}
use blue_tanuki.Schedule.Types.{NormalizedTask, CronRuntime}
use blue_tanuki.Schedule.Fire.{
  ProviderAnswer, resolve_content, spread, as_texts, own_metadata, fire,
}
use blue_tanuki.Schedule.Args.{cron_payload_hash}

-- What a spread does not mention stays.
spread-get {ℓ} :
    {V : Type ℓ} (a b : Dict V) (k : String) → get b k ≡ none → get (spread a b) k ≡ get a k
unfolding spread get
spread-get a [] k absent = refl
spread-get a ((j, v) ∷ b) k absent = elim (Bool-cases (j == k)) [
  | inl same ↦ cc (rw same at absent)
  | inr other ↦
      spread-get (put a j v) b k (rw other at absent)
      ∙ get-put a j k v
      ∙ ap (λ c. if c then some v else get a k) other
]

as_texts-get : (m : Dict String) (k : String) → get m k ≡ none → get (as_texts m) k ≡ none
unfolding get
as_texts-get [] k absent = refl
as_texts-get ((j, v) ∷ m) k absent = elim (Bool-cases (j == k)) [
  | inl same ↦ cc (rw same at absent)
  | inr other ↦
      ap (λ c. if c then some (Json.str v) else get (as_texts m) k) other
      ∙ as_texts-get m k (rw other at absent)
]

-- The keys that make a request the gateway's own and say what it sends.
abbrev pub own_keys : List String
own_keys =
    "blue_tanuki.authority_context" ∷ "blue_tanuki.actor_kind" ∷ "blue_tanuki.trust_level"
    ∷ "blue_tanuki.process_kind" ∷ "blue_tanuki.channel_send.channel"
    ∷ "blue_tanuki.channel_send.target" ∷ "blue_tanuki.channel_send.content" ∷ []

-- A request of the scheduler, and the message that it carries.
abbrev pub IsCron : InboundRequest → ChannelSendPayload → Type 0
IsCron req p =
    (get (meta_of req) "blue_tanuki.authority_context" ≡ some (Json.str "gateway_internal_v1"))
    × (get (meta_of req) "blue_tanuki.actor_kind" ≡ some (Json.str "cron"))
    × (get (meta_of req) "blue_tanuki.trust_level" ≡ some (Json.str "trusted"))
    × (get (meta_of req) "blue_tanuki.process_kind" ≡ some (Json.str "cron"))
    × (get (meta_of req) "blue_tanuki.channel_send.channel" ≡ some (Json.str p.channel))
    × (get (meta_of req) "blue_tanuki.channel_send.target" ≡ some (Json.str p.target))
    × (get (meta_of req) "blue_tanuki.channel_send.content" ≡ some (Json.str p.content))

abbrev pub message_of : NormalizedTask → String → ChannelSendPayload
message_of task content = record { channel = task.channel; target = task.target; content = content }

pub fire-IsCron :
    (digest : String → String → String → String → Option ℕ → String) (truncate : String → String)
    (r : CronRuntime) (answer : ProviderAnswer) (id : String) (now : ℕ)
    → All (λ k. get (resolve_content truncate r.task answer).metadata k ≡ none) own_keys
    → IsCron
        (fire digest truncate r answer id now).0
        (message_of r.task (resolve_content truncate r.task answer).content)
unfolding fire get
fire-IsCron digest truncate r answer id now (a, (b, (c, (d, (e, (f, (g, _))))))) =
    let resolved = resolve_content truncate r.task answer in
    let own = own_metadata r.task resolved (
      cron_payload_hash digest r.task.channel r.task.target resolved.content (some r.task.time)
        r.task.interval_ms) in
    let at : (k : String)
        → get resolved.metadata k ≡ none
        → get (spread own (as_texts resolved.metadata)) k ≡ get own k =
      λ k absent.
        spread-get own (as_texts resolved.metadata) k (as_texts-get resolved.metadata k absent) in
    (at _ a, at _ b, at _ c, at _ d, at _ e, at _ f, at _ g)

pub IsCron-actor :
    (req : InboundRequest) (p : ChannelSendPayload)
    → IsCron req p
    → ((resolve_actor req).actor_kind ≡ ActorKind.cron)
      × ((resolve_actor req).trust_level ≡ TrustLevel.trusted)
unfolding resolve_actor explicit_field is_trusted_authority_context string_field actor_kind_of
    trust_level_of
IsCron-actor req p (context, actor, trust, _, _, _, _) =
    (rw (context, actor) refl, rw (context, trust) refl)

pub IsCron-process :
    (req : InboundRequest) (p : ChannelSendPayload) (actor : ActorRef)
    → IsCron req p
    → ((resolve_process req actor).process_kind ≡ ProcessKind.cron)
      × ((resolve_process req actor).execution_policy ≡ execution_policy ProcessKind.cron)
unfolding resolve_process resolve_process_kind explicit_field is_trusted_authority_context
    string_field process_kind_of
IsCron-process req p actor (context, _, _, process, _, _, _) =
    (rw (context, process) refl, rw (context, process) refl)

filled_text :
    (s : String) → (trim s == "") ≡ false → (if trim s == "" then none else some s) ≡ some s
filled_text s h = ap (λ b. if b then none else some s) h

pub IsCron-message :
    (req : InboundRequest) (p : ChannelSendPayload)
    → IsCron req p
    → (trim p.channel == "") ≡ false
    → (trim p.target == "") ≡ false
    → (trim p.content == "") ≡ false
    → trusted_channel_send_from_metadata (meta_of req) ≡ some p
unfolding trusted_channel_send_from_metadata string_meta
IsCron-message req p (context, _, _, _, channel, target, content) h k l =
    rw (context, channel, h, target, k, content, l) refl

-- No tool command passes the policy of the cron process.
no_tool :
    (cmd : ExecuteCommand) (p : ToolCallPayload) (process : ProcessDefinition)
    → cmd.body ≡ Body.tool_call p
    → process.execution_policy ≡ execution_policy ProcessKind.cron
    → command_execution_policy_violation cmd process ≡ none
    → ⊥
unfolding execution_policy includes
no_tool cmd p process body policy h =
    let (named, _) = violation-none cmd p process body h in
    cc (ap (λ x. includes x.allowed_tools p.tool_name) policy, named)

-- The command sends `p`, or does nothing.
abbrev pub Sends : ChannelSendPayload → ExecuteCommand → Type 0
Sends p cmd = (cmd.body ≡ Body.channel_send p) ⊎ ((reason : String) × (cmd.body ≡ Body.noop reason))

sent_or_idle :
    {Num : Type 0} (setting : Setting Num) (req : InboundRequest) (p : ChannelSendPayload)
    (log : DecisionLog Num) (uuid : String) (cmd : ExecuteCommand) (action : Option RoutedAction)
    → trusted_channel_send_from_metadata (meta_of req) ≡ some p
    → ((q : ToolCallPayload) → cmd.body ≡ Body.tool_call q → ⊥)
    → command_for setting req log uuid action ≡ cmd
    → Sends p cmd
unfolding default_command
sent_or_idle setting req p log uuid cmd
      (some (RoutedAction.tool_call name arguments capabilities timeout_ms)) sends refuses is =
    absurd (refuses _ (ap (λ c. c.body) (sym is)))
sent_or_idle setting req p log uuid cmd (some (RoutedAction.noop reason)) sends refuses is =
    inr (reason, ap (λ c. c.body) (sym is))
sent_or_idle setting req p log uuid cmd none sends refuses is =
    inl (ap (λ c. c.body) (sym is) ∙ rw (sends, default_command) refl)

-- A command of the scheduler's request that passes the policy of its process.
pub IsCron-command :
    {Num : Type 0} (setting : Setting Num) (req : InboundRequest) (p : ChannelSendPayload)
    (log : DecisionLog Num) (uuid : String) (cmd : ExecuteCommand)
    → IsCron req p
    → trusted_channel_send_from_metadata (meta_of req) ≡ some p
    → ◌≡◌ {A = Result String ExecuteCommand} (build_command setting req log uuid) (ok cmd)
    → command_execution_policy_violation cmd (resolve_process req (resolve_actor req)) ≡ none
    → Sends p cmd
unfolding build_command
IsCron-command setting req p log uuid cmd cron sends built allowed =
    let (_, policy) = IsCron-process req p (resolve_actor req) cron in
    let (action, _, gives) =
      bind_ok (route_action setting.to_upper setting.parse_json req) _ cmd built in
    sent_or_idle setting req p log uuid cmd action sends
      (λ q body. no_tool cmd q (resolve_process req (resolve_actor req)) body policy allowed)
      (ok-injective _ cmd gives)
