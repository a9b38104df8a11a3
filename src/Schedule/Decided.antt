-- ===== src/Schedule/Decided.antt =====
-- What `decide` of controller.ts answers to the requests that cron_channel.ts fires.
use mathlib.Core.Path.{subst}
use blue_tanuki.Base.{
  ℕ, String, ◌==◌, ◌≡◌, ◌⊎◌, refl, sym, ap, ◌∙◌, inl, inr, false, Option, none, some, Result, ok,
  thrown, All,
}
use blue_tanuki.Base.Trim.{trim}
use blue_tanuki.Base.Dict.{get}
use blue_tanuki.Protocol.{ChannelSendPayload, ExecuteCommand}
use blue_tanuki.Process.Types.{InboundRequest, ActorKind, TrustLevel, ProcessKind}
use blue_tanuki.Process.Actor.{meta_of, resolve_actor}
use blue_tanuki.Process.Definition.{resolve_process}
use blue_tanuki.Controller.Types.{Setting, ControllerState}
use blue_tanuki.Controller.Prepare.{valid, Decided, authority_request, frame_of}
use blue_tanuki.Controller.Machine.{decide}
use blue_tanuki.Controller.Emission.{RouterThrows, decide-total}
use blue_tanuki.Process.Frame.{frame}
use blue_tanuki.Controller.Command.{
  command_execution_policy_violation, trusted_channel_send_from_metadata,
}
use blue_tanuki.Schedule.Types.{CronRuntime}
use blue_tanuki.Schedule.Fire.{ProviderAnswer, resolve_content, fire}
use blue_tanuki.Schedule.Authority.{
  own_keys, IsCron, message_of, fire-IsCron, IsCron-actor, IsCron-process, IsCron-message, Sends,
  IsCron-command,
}

-- What `decide` answers to a request that may only send `p`: it throws as the action router does, gives
-- no command, or gives one that sends `p` or does nothing.
abbrev pub AnswersCron :
    {Num : Type 0}
    → Setting Num
    → InboundRequest
    → ChannelSendPayload
    → Result String (Decided Num × ControllerState Num)
    → Type 0
AnswersCron {Num} setting raw p result =
    ((e : String) × (result ≡ thrown e) × RouterThrows setting raw e)
    ⊎ ((r : Decided Num × ControllerState Num) × (result ≡ ok r)
        × ((r.0.command ≡ none)
            ⊎ ((command : ExecuteCommand) × (r.0.command ≡ some command) × Sends p command)))

process-frame_of :
    {Num : Type 0} (setting : Setting Num) (req : InboundRequest)
    → (frame_of setting req).process ≡ resolve_process req (resolve_actor req)
unfolding frame_of frame
process-frame_of setting req = refl

valid-injective : (a b : InboundRequest) → valid a ≡ valid b → a ≡ b
valid-injective a b h = cc

decide-AnswersCron :
    {Num : Type 0} (setting : Setting Num) (st : ControllerState Num) (raw : InboundRequest)
    (p : ChannelSendPayload) (uuid : String) (now : ℕ)
    → IsCron (authority_request setting raw) p
    → trusted_channel_send_from_metadata (meta_of (authority_request setting raw)) ≡ some p
    → AnswersCron setting raw p (decide setting st (valid raw) uuid now)
decide-AnswersCron setting st raw p uuid now cron sends =
    elim (decide-total setting st (valid raw) uuid now) [
      | inl (r, result, (quiet, _)) ↦ inr (r, result, inl quiet)
      | inr (req, same, healthy, inl (e, thrown_it, router)) ↦ inl (
        e,
        thrown_it,
        subst (λ q. RouterThrows setting q e) (sym (valid-injective raw req same)) router,
      )
      | inr (req, same, healthy, inr (r, result, command, emission)) ↦
          let (given, built, framed, _, _, allowed, _, _, _) = emission in
          let e = valid-injective raw req same in
          let process = ap (λ f. f.process) framed ∙ process-frame_of setting _ in
          let sent =
            IsCron-command setting (authority_request setting req) p r.0.log uuid command
              (subst (λ q. IsCron (authority_request setting q) p) e cron)
              (subst
                (λ q.
                  trusted_channel_send_from_metadata (meta_of (authority_request setting q))
                  ≡ some p)
                e sends)
              built
              (subst (λ q. command_execution_policy_violation command q ≡ none) process allowed) in
          inr (r, result, inr (command, given, sent))
    ]

-- If the content provider sets none of the gateway's own keys, and neither channel, target nor content is
-- blank, the request of a task that fires comes from the cron actor, whom the gateway trusts, and
-- belongs to the cron process. In whatever state HDS-BRAIN is, `decide` then throws only if the action
-- router does, gives no command, or gives one that sends the task's content to the task's channel and target or does nothing: it gives
-- no tool call, whatever the content says. What `resume` may give after a suspension is not meant.
pub decide-fire :
    {Num : Type 0} (setting : Setting Num) (st : ControllerState Num)
    (digest : String → String → String → String → Option ℕ → String) (truncate : String → String)
    (r : CronRuntime) (answer : ProviderAnswer) (id uuid : String) (fired_at now : ℕ)
    → let resolved = resolve_content truncate r.task answer in
      let raw = (fire digest truncate r answer id fired_at).0 in
      let actor = resolve_actor (authority_request setting raw) in
      All (λ k. get resolved.metadata k ≡ none) own_keys
      → (trim r.task.channel == "") ≡ false
      → (trim r.task.target == "") ≡ false
      → (trim resolved.content == "") ≡ false
      → (actor.actor_kind ≡ ActorKind.cron)
        × (actor.trust_level ≡ TrustLevel.trusted)
        × ((resolve_process (authority_request setting raw) actor).process_kind ≡ ProcessKind.cron)
        × AnswersCron setting raw
            (message_of r.task resolved.content)
            (decide setting st (valid raw) uuid now)
decide-fire setting st digest truncate r answer id uuid fired_at now own channel target content =
    let raw = (fire digest truncate r answer id fired_at).0 in
    let req = authority_request setting raw in
    let p = message_of r.task (resolve_content truncate r.task answer).content in
    let cron : IsCron req p = fire-IsCron digest truncate r answer id fired_at own in
    let (kind, trust) = IsCron-actor req p cron in
    let (process, _) = IsCron-process req p (resolve_actor req) cron in
    (
      kind,
      trust,
      process,
      decide-AnswersCron setting st raw p uuid now cron
          (IsCron-message req p cron channel target content),
    )
