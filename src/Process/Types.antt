-- ===== src/Process/Types.antt =====
-- The actor, process and frame types of packages/hds-brain/src/types.ts, and the inbound request of
-- packages/protocol/src/types.ts.
use blue_tanuki.Base.{ℕ, String, Bool, Option, List, test}
use blue_tanuki.Base.Dict.{Dict}
use blue_tanuki.Base.Json.{Json}
use blue_tanuki.Protocol.{CommandType}
use blue_tanuki.Approval.Types.{Mode, Operation}

pub record InboundRequest : Type 0 where
  pub id : String
  pub channel : String
  pub user : String
  pub content : String
  pub timestamp : ℕ
  pub metadata : Option (Dict Json)

pub data ActorKind : Type 0 where
  owner user system webhook cron : ActorKind

pub data TrustLevel : Type 0 where
  owner trusted limited untrusted : TrustLevel

pub data ProcessKind : Type 0 where
  chat tool approval cron webhook system : ProcessKind

pub data Trigger : Type 0 where
  inbound cron webhook resume system : Trigger

pub data MemorySource : Type 0 where
  hds_ltm authority audit : MemorySource

pub data Retrieval : Type 0 where
  exact tag recent : Retrieval

pub data CaptureEvent : Type 0 where
  assert approval feedback failure : CaptureEvent

unfoldable pub ActorKind-discrete : Discrete ActorKind
ActorKind-discrete = hlevel

unfoldable pub ProcessKind-discrete : Discrete ProcessKind
ProcessKind-discrete = hlevel

abbrev pub is_actor_kind : ActorKind → ActorKind → Bool
is_actor_kind a b = test (ActorKind-discrete a b)

pub record ActorRef : Type 0 where
  pub actor_id : String
  pub actor_kind : ActorKind
  pub channel : String
  pub external_user_id : Option String
  pub trust_level : TrustLevel

pub record MemoryReadPolicy : Type 0 where
  pub policy_id : String
  pub enabled : Bool
  pub max_hits : ℕ
  pub allowed_sources : List MemorySource
  pub retrieval_modes : List Retrieval

pub record ExecutionPolicy : Type 0 where
  pub allowed_command_types : List CommandType
  pub allowed_tools : List String
  pub allowed_capabilities : List String
  pub timeout_ms : ℕ

-- `trigger`, `actor_policy`, `approval_profile` and `capture_policy` are flattened.
pub record ProcessDefinition : Type 0 where
  pub process_id : String
  pub process_kind : ProcessKind
  pub version : String
  pub trigger : Trigger
  pub trigger_channel : Option String
  pub allowed_actor_kinds : List ActorKind
  pub owner_required : Bool
  pub memory_policy : MemoryReadPolicy
  pub default_mode : Mode
  pub final_review_operations : List Operation
  pub execution_policy : ExecutionPolicy
  pub capture_on : List CaptureEvent
  pub persist_to_ltm : Bool

-- `summary` is flattened into `goal`, `problem_definition_id` and `abstraction`.
pub record MemoryHit : Type 0 where
  pub source : MemorySource
  pub memory_id : String
  pub f_reference : String
  pub entry_hash : String
  pub reason : Retrieval
  pub matched_on : Option String
  pub goal : String
  pub problem_definition_id : String
  pub abstraction : String

-- `used_for_authority` is the literal false, and is left out.
pub record MemoryTrace : Type 0 where
  pub policy_id : String
  pub process_id : String
  pub hits : List MemoryHit

pub data SurfaceId : Type 0 where
  writing daily developer : SurfaceId

pub data SurfaceSource : Type 0 where
  content_prefix gateway_internal_metadata : SurfaceSource

pub record OperatorSurface : Type 0 where
  pub id : SurfaceId
  pub source : SurfaceSource

-- `world_closure` is flattened into `x`, `r` and `m`.
pub record FrameResult : Type 0 where
  pub actor : ActorRef
  pub process : ProcessDefinition
  pub memory_trace : MemoryTrace
  pub operator_surface : Option OperatorSurface
  pub goal : String
  pub protected_values : List String
  pub x : List String
  pub r : List String
  pub m : List String
  pub problem_definition_id : String
