-- ===== src/Schedule/Fire.antt =====
-- apps/gateway/src/cron_channel.ts: `fire`, the request that it hands to the gateway, and the ticks of the timers.
-- `truncate` is `truncateMetadata`, and `answer` what the content provider gives, if there is one.
use blue_tanuki.Base.{
  ℕ, ◌+◌, String, ◌&&◌, Option, some, [], ◌∷◌, or_else, if◌then◌else◌, Result, ok, thrown,
}
use blue_tanuki.Base.Text.{◌<>◌}
use blue_tanuki.Base.Dict.{Dict, get, put}
use blue_tanuki.Base.Json.{Json}
use blue_tanuki.Process.Types.{InboundRequest}
use blue_tanuki.Schedule.Types.{TaskName, TaskOrigin, NormalizedTask, CronRuntime, CronScheduler}
use blue_tanuki.Schedule.Args.{cron_payload_hash}
use blue_tanuki.Schedule.Cron.{LocalClock, require_trimmed, schedule_next_daily}

pub data ProviderAnswer : Type 0 where
  no_provider nothing : ProviderAnswer
  text : String → ProviderAnswer
  result : (content : String) → (metadata : Option (Dict String)) → ProviderAnswer
  failed : (message : String) → ProviderAnswer

pub record ResolvedContent : Type 0 where
  pub content : String
  pub metadata : Dict String

abbrev pub content_source : String
content_source = "blue_tanuki.cron.content_source"

-- `{ ...a, ...b }`
unfoldable pub spread {ℓ} : {V : Type ℓ} → Dict V → Dict V → Dict V
spread a [] = a
spread a ((k, v) ∷ b) = spread (put a k v) b

abbrev pub task_label : TaskName → String
task_label TaskName.daily_brief = "Daily Brief"
task_label TaskName.scheduled_message = "Scheduled message"

abbrev pub origin_name : TaskOrigin → String
origin_name TaskOrigin.boot = "boot"
origin_name TaskOrigin.runtime = "runtime"

abbrev pub static_content : NormalizedTask → ResolvedContent
static_content task = record { content = task.content; metadata = (content_source, "static") ∷ [] }

module _ (truncate : String → String) where
  abbrev pub provider_failed : NormalizedTask → String → ResolvedContent
  provider_failed task message = record {
    content =
        task_label task.name
        <> ": source unavailable; reason="
        <> truncate message
        <> "; mutation_sent=false; safe_to_ignore=false";
    metadata = (content_source, "provider_error") ∷ [];
  }

  abbrev pub dynamic_content : NormalizedTask → Dict String → Result String String → ResolvedContent
  dynamic_content task extra (ok content) = record {
    content = content;
    metadata = spread ((content_source, "dynamic") ∷ []) extra;
  }
  dynamic_content task extra (thrown e) = provider_failed task e

  unfoldable pub resolve_content : NormalizedTask → ProviderAnswer → ResolvedContent
  resolve_content task ProviderAnswer.no_provider = static_content task
  resolve_content task ProviderAnswer.nothing = static_content task
  resolve_content task (ProviderAnswer.text s) =
      dynamic_content task [] (require_trimmed s ("cron task " <> task.id <> " resolved content"))
  resolve_content task (ProviderAnswer.result s extra) =
      dynamic_content task (or_else extra [])
        (require_trimmed s ("cron task " <> task.id <> " resolved content"))
  resolve_content task (ProviderAnswer.failed message) = provider_failed task message

abbrev pub as_texts : Dict String → Dict Json
as_texts [] = []
as_texts ((k, v) ∷ m) = (k, Json.str v) ∷ as_texts m

abbrev pub own_metadata : NormalizedTask → ResolvedContent → String → Dict Json
own_metadata task resolved hash =
    ("blue_tanuki.authority_context", Json.str "gateway_internal_v1")
    ∷ ("blue_tanuki.actor_kind", Json.str "cron")
    ∷ ("blue_tanuki.trust_level", Json.str "trusted")
    ∷ ("blue_tanuki.process_kind", Json.str "cron")
    ∷ ("blue_tanuki.cron.task_id", Json.str task.id)
    ∷ ("blue_tanuki.cron.origin", Json.str (origin_name task.origin))
    ∷ ("blue_tanuki.cron.payload_hash", Json.str hash)
    ∷ (content_source, Json.str (or_else (get resolved.metadata content_source) "static"))
    ∷ ("blue_tanuki.channel_send.channel", Json.str task.channel)
    ∷ ("blue_tanuki.channel_send.target", Json.str task.target)
    ∷ ("blue_tanuki.channel_send.content", Json.str resolved.content)
    ∷ []

abbrev pub cron_metadata : NormalizedTask → ResolvedContent → String → Dict Json
cron_metadata task resolved hash =
    spread (own_metadata task resolved hash) (as_texts resolved.metadata)

-- `id` is a random UUID; the runtime remembers when it fired.
unfoldable pub fire :
    (String → String → String → String → Option ℕ → String)
    → (String → String)
    → CronRuntime
    → ProviderAnswer
    → String
    → ℕ
    → InboundRequest × CronRuntime
fire digest truncate r answer id now =
    let resolved = resolve_content truncate r.task answer in
    let hash =
      cron_payload_hash digest r.task.channel r.task.target resolved.content (some r.task.time)
        r.task.interval_ms in
    (
      record {
        id = id;
        channel = "cron";
        user = "blue-tanuki-cron";
        content = resolved.content;
        timestamp = now;
        metadata = some (cron_metadata r.task resolved hash);
      },
      record r { last_fire_at_ms = some now },
    )

-- the tick of an interval, before it fires
abbrev pub interval_tick : CronRuntime → ℕ → ℕ → CronRuntime
interval_tick r interval_ms now = record r { next_fire_at_ms = some (now + interval_ms) }

-- once a daily task has fired
unfoldable pub daily_fired :
    LocalClock → CronScheduler → CronRuntime → ℕ → Result String CronRuntime
daily_fired local c r now =
    if c.started && r.task.enabled then schedule_next_daily local r now else ok r
