-- ===== src/Schedule/Args.antt =====
-- apps/gateway/src/runtime_schedule.ts: the schedule that a request's arguments describe, and
-- `cronPayloadHash`, whose digest and JSON.stringify are the parameter `digest`. Numbers of
-- arguments are natural numbers.
use Prim.Native.Char.{Char, code}
use blue_tanuki.Base.Chars.{is_digit_char, is_alnum, is_id_char}
use blue_tanuki.Base.{
  ℕ, zero, suc, ◌+◌, ◌-◌, ◌*◌, String, ◌==◌, Bool, true, false, ◌&&◌, Option, none, some, eqb, leb,
  ltb, or_else, if◌then◌else◌, Result, ok, thrown, ◌>>=◌,
}
use blue_tanuki.Base.Text.{◌<>◌}
use blue_tanuki.Base.Trim.{trim}
use blue_tanuki.Base.Dict.{Dict, get}
use blue_tanuki.Base.Json.{Json}
use blue_tanuki.Schedule.Types.{RuntimeSchedule, ScheduleStatus}

-- at most `room` characters of an id
unfoldable pub is_id_tail : ℕ → String → Bool
is_id_tail room Prim.Native.String.[] = true
is_id_tail zero (Prim.Native.String.◌∷◌ c s) = false
is_id_tail (suc room) (Prim.Native.String.◌∷◌ c s) = is_id_char c && is_id_tail room s

-- /^[A-Za-z0-9][A-Za-z0-9_.:-]{0,63}$/
unfoldable pub is_id : String → Bool
is_id Prim.Native.String.[] = false
is_id (Prim.Native.String.◌∷◌ c s) = is_alnum c && is_id_tail 63 s

abbrev pub digit_of : Char → ℕ
digit_of c = code c - 48

-- the hour and the minute of /^(\d{1,2}):(\d{2})$/
unfoldable pub time_parts : String → Option (ℕ × ℕ)
time_parts
      (Prim.Native.String.◌∷◌ a (
        Prim.Native.String.◌∷◌ b
          (Prim.Native.String.◌∷◌ c (Prim.Native.String.◌∷◌ d Prim.Native.String.[])))) =
    if is_digit_char a && eqb (code b) 58 && is_digit_char c && is_digit_char d
    then some (digit_of a, 10 * digit_of c + digit_of d)
    else none
time_parts
      (Prim.Native.String.◌∷◌ a (
        Prim.Native.String.◌∷◌ b (
          Prim.Native.String.◌∷◌ c
            (Prim.Native.String.◌∷◌ d (Prim.Native.String.◌∷◌ e Prim.Native.String.[]))))) =
    if is_digit_char a && is_digit_char b && eqb (code c) 58 && is_digit_char d && is_digit_char e
    then some (10 * digit_of a + digit_of b, 10 * digit_of d + digit_of e)
    else none
time_parts _ = none

abbrev pub is_clock : Option (ℕ × ℕ) → Bool
is_clock none = false
is_clock (some (hour, minute)) = leb hour 23 && leb minute 59

-- a text that is not blank, trimmed
abbrev pub filled_text : String → String → Result String String
filled_text value name =
    if trim value == "" then thrown (name <> " must be a non-empty string") else ok (trim value)

abbrev pub given_text : Option Json → String → Result String String
given_text (some (Json.str s)) name = filled_text s name
given_text _ name = thrown (name <> " must be a non-empty string")

-- `stringArg`
unfoldable pub string_arg : Dict Json → String → Option String → Result String String
string_arg args name fallback = elim (get args name) [
  | none ↦ elim fallback [
    | some text ↦ ok text
    | none ↦ thrown (name <> " must be a non-empty string")
  ]
  | some value ↦ given_text (some value) name
]

abbrev pub id_of_text : String → String → Result String String
id_of_text s label =
    if is_id (trim s)
    then ok (trim s)
    else thrown (label <> " must match /^[A-Za-z0-9][A-Za-z0-9_.:-]{0,63}$/")

unfoldable pub required_id : Option Json → String → Result String String
required_id (some (Json.str s)) label = id_of_text s label
required_id _ label = thrown (label <> " must match /^[A-Za-z0-9][A-Za-z0-9_.:-]{0,63}$/")

unfoldable pub optional_time : Option Json → Option String → Result String (Option String)
optional_time none fallback = ok fallback
optional_time (some (Json.str s)) fallback =
    if is_clock (time_parts s) then ok (some s) else thrown "time must use HH:MM local time"
optional_time (some _) fallback = thrown "time must use HH:MM local time"

unfoldable pub optional_interval : Option Json → Option ℕ → Result String (Option ℕ)
optional_interval none fallback = ok fallback
optional_interval (some (Json.num n)) fallback =
    if ltb 0 n then ok (some n) else thrown "interval_ms must be a positive integer"
optional_interval (some _) fallback = thrown "interval_ms must be a positive integer"

abbrev pub field_of {ℓ} : {A : Type ℓ} → (RuntimeSchedule → A) → Option RuntimeSchedule → Option A
field_of f none = none
field_of f (some s) = some (f s)

-- a field that the earlier schedule may not have
abbrev pub option_of {ℓ} :
    {A : Type ℓ} → (RuntimeSchedule → Option A) → Option RuntimeSchedule → Option A
option_of f none = none
option_of f (some s) = f s

module _ (digest : String → String → String → String → Option ℕ → String) where
  abbrev pub cron_payload_hash : String → String → String → Option String → Option ℕ → String
  cron_payload_hash channel target content time interval_ms =
      digest channel target content (or_else time "07:00") interval_ms

  abbrev pub timed_schedule :
      String
      → ℕ
      → Option RuntimeSchedule
      → String
      → String
      → String
      → Option String
      → Option ℕ
      → RuntimeSchedule
  timed_schedule id now previous channel target content time interval_ms = record {
    id = id;
    enabled = true;
    channel = channel;
    target = target;
    content = content;
    time = time;
    interval_ms = interval_ms;
    created_at_ms = or_else (field_of (λ s. s.created_at_ms) previous) now;
    updated_at_ms = now;
    payload_hash = cron_payload_hash channel target content time interval_ms;
    status = ScheduleStatus.pending;
  }

  -- a schedule needs a time or an interval
  abbrev pub with_timing :
      Option String → Option ℕ → RuntimeSchedule → Result String RuntimeSchedule
  with_timing none none s =
      thrown "schedule requires time=HH:MM or interval_ms; nothing was activated"
  with_timing _ _ s = ok s

  unfoldable pub build_schedule_from_args :
      String → Dict Json → ℕ → Option RuntimeSchedule → Result String RuntimeSchedule
  build_schedule_from_args id args now previous =
      string_arg args "channel" (field_of (λ s. s.channel) previous) >>= λ channel.
      string_arg args "target" (field_of (λ s. s.target) previous) >>= λ target.
      string_arg args "content" (field_of (λ s. s.content) previous) >>= λ content.
      optional_time (get args "time") (option_of (λ s. s.time) previous) >>= λ time.
      optional_interval (get args "interval_ms") (option_of (λ s. s.interval_ms) previous)
      >>= λ interval_ms.
          with_timing time interval_ms
            (timed_schedule id now previous channel target content time interval_ms)
