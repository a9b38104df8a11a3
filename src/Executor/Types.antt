-- ===== src/Executor/Types.antt =====
-- packages/blue-tanuki/src: what the executor of executor.ts is built with, the interfaces of the LLM, the
-- tools, the sessions and the channel dispatcher, and what it does to them in their order.
use blue_tanuki.Base.{ℕ, String, Bool, Option, List, Result}
use blue_tanuki.Base.Dict.{Dict}
use blue_tanuki.Base.Json.{Json}
use blue_tanuki.Protocol.{Role, Message, ChannelSendPayload}

-- A promise: what it settles to, and after how long.
pub record Timed (A : Type 0) : Type 0 where
  pub outcome : Result String A
  pub elapsed_ms : ℕ

pub record ToolContext : Type 0 where
  pub command_id : String
  pub upstream_commit_hash : String

-- A tool may settle to undefined.
pub record Tool : Type 0 where
  pub name : String
  pub description : String
  pub required_capabilities : Option (List String)
  pub invoke : Dict Json → ToolContext → Timed (Option Json)

-- `temperature` is in hundredths.
pub record LlmRequest : Type 0 where
  pub messages : List Message
  pub backend_hint : Option String
  pub model : Option String
  pub temperature : Option ℕ
  pub max_tokens : Option ℕ

pub record LlmResponse : Type 0 where
  pub content : String
  pub tokens_used : ℕ
  pub model : String
  pub raw : Option Json

pub record ChatMessage : Type 0 where
  pub role : Role
  pub content : String
  pub timestamp : ℕ

-- The two methods of a session store that the executor calls, on the store's state.
pub record SessionPort (S : Type 0) : Type 0 where
  pub append : S → String → ChatMessage → Result String S
  pub get_messages : S → String → Option ℕ → Result String (List ChatMessage)

pub data ErrorKind : Type 0 where
  recoverable non_recoverable : ErrorKind

pub record SendMeta : Type 0 where
  pub command_id : String
  pub upstream_commit_hash : String

pub record SendResult : Type 0 where
  pub delivered : Bool
  pub external_id : Option String
  pub error : Option String
  pub error_kind : Option ErrorKind
  pub error_code : Option String
  pub retry_after_ms : Option ℕ
  pub next_action : Option String

-- What leaves the executor: a call of the LLM, of a tool, of the dispatcher, or a line of the log.
pub data Call : Type 0 where
  llm : LlmRequest → Call
  tool : (name : String) → Dict Json → ToolContext → Call
  dispatch : ChannelSendPayload → SendMeta → Call
  log : ChannelSendPayload → Call

-- What changes while a command runs: the sessions, and the calls that were made.
pub record ExecutorState (S : Type 0) : Type 0 where
  pub session_store : Option S
  pub calls : List Call

-- What `Date.now` gives: at the start, when the messages and when the reply are kept, and at the end.
pub record Times : Type 0 where
  pub start : ℕ
  pub kept : ℕ
  pub replied : ℕ
  pub finish : ℕ
