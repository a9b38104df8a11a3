-- ===== src/Protocol.antt =====
-- packages/protocol/src/types.ts: decisions, commands and their constraints.
use blue_tanuki.Base.{ℕ, String, Option, List}
use blue_tanuki.Base.Dict.{Dict}
use blue_tanuki.Base.Json.{Json}

pub data Decision : Type 0 where
  assert suspend out_of_scope fail : Decision

pub record UpstreamDecision : Type 0 where
  pub frame_goal : String
  pub model_abstraction : String
  pub commit_hash : String
  pub commit_decision : Decision

pub data Role : Type 0 where
  system user assistant : Role

pub record Message : Type 0 where
  pub role : Role
  pub content : String

-- `temperature` is in hundredths.
pub record LlmCallPayload : Type 0 where
  pub messages : List Message
  pub backend_hint : Option String
  pub model : Option String
  pub temperature : Option ℕ
  pub session_id : Option String

pub record ToolCallPayload : Type 0 where
  pub tool_name : String
  pub arguments : Dict Json

pub record ChannelSendPayload : Type 0 where
  pub channel : String
  pub target : String
  pub content : String

pub record CommandConstraints : Type 0 where
  pub max_tokens : Option ℕ
  pub timeout_ms : Option ℕ
  pub allowed_tools : Option (List String)
  pub allowed_capabilities : Option (List String)

pub data CommandType : Type 0 where
  llm_call tool_call channel_send noop : CommandType

unfoldable pub CommandType-discrete : Discrete CommandType
CommandType-discrete = hlevel

unfoldable pub Decision-discrete : Discrete Decision
Decision-discrete = hlevel

-- The payload of each command type.
pub data Body : Type 0 where
  llm_call : LlmCallPayload → Body
  tool_call : ToolCallPayload → Body
  channel_send : ChannelSendPayload → Body
  noop : (reason : String) → Body

abbrev pub type_of : Body → CommandType
type_of (llm_call _) = CommandType.llm_call
type_of (tool_call _) = CommandType.tool_call
type_of (channel_send _) = CommandType.channel_send
type_of (noop _) = CommandType.noop

pub record ExecuteCommand : Type 0 where
  pub id : String
  pub body : Body
  pub constraints : Option CommandConstraints
  pub upstream_decision : UpstreamDecision
