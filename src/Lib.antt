-- ===== src/Lib.antt =====
-- A model of BLUE-TANUKI's decision plane (packages/hds-brain), of its executor, of the gateway's
-- runtime schedules, and of the stores that guard its channels, with what they guarantee.
--
-- HDS-BRAIN receives an inbound request, frames it (actor, process), scores it with detectors and
-- commits a decision. Only an ASSERT becomes a command; a SUSPEND waits for a human verdict; every
-- decision and event goes into one hash-chained audit log. The approval gate asks, allows or denies
-- each command by the grants of the owner, and the executor checks its constraints again before it
-- calls the LLM, a tool or a channel. A schedule is a tool command that waits for approval; once it is
-- active, the scheduler hands its message to HDS-BRAIN as a request of its own.
--
-- Files and the code that they model (function names in snake case, same words):
--   Protocol       packages/protocol/src/types.ts: decisions, commands, payloads.
--   Audit          packages/hds-brain/src/audit.ts: AuditLog's append, verify, loadFromFile; the file
--                  is the text that the log appended. Audit/Chain, Tamper and Persist prove.
--   Approval       approval_policy.ts (Types, Operation, Scope, Grants, Evaluate) and approval_store.ts
--                  (Store); Covers, Review, Classify and Store/Laws prove.
--   Process        process.ts (Actor, Definition), frame.ts (Frame) and their types; Laws proves.
--   Boundary       boundary_policy.ts; Laws proves.
--   Health         health.ts (Types, Checks, and the evaluation) and runtime_invariants.ts (Invariants).
--   Policy         policy.ts (Scoring, Decide, Validate), model.ts, commit.ts, and the contract and
--                  registry of detectors/ (Types, Registry); Laws and Scored prove.
--   Memory         memory_trace.ts (Trace) and f_reference.ts (Reference), over the memory reader; Laws
--                  proves. The controller's frame holds the trace.
--   Normalization  normalization.ts.
--   Controller     controller.ts: Types is the state, Command the checks and the command that is built,
--                  Prepare, Machine and Resume are decide and resume, Events the other operations
--                  and the machine of all of them; Emission, FailSafe, Invariant, Reachable prove.
--   Routing        action_router.ts: the tool table (Table), the routes of a named tool and of metadata,
--                  and routeContent with its tokenizer (Content); Laws proves.
--   Ticket         channel-webchat's ticket_store.ts and resume_approval_token_store.ts; Laws proves.
--   RateLimit      packages/channel-base/src/rate_limit.ts: the TokenBucket and withRetryBackoff (Retry);
--                  Laws and Backoff prove.
--   Session        packages/blue-tanuki/src/sessions/memory.ts, with a natural cap; Laws proves, and
--                  Refinement relates the store to a function from sessions to messages.
--   Executor       packages/blue-tanuki/src/executor.ts (Run) and tools/registry.ts (Registry); the LLM,
--                  the tools, the dispatcher and the sessions are an argument (Types). Gate, Policy
--                  (with the controller's check) and History (with the sessions) prove.
--   Schedule       apps/gateway/src/runtime_schedule.ts (Args, Manager, Prepare, Approve, Listing) and
--                  cron_channel.ts (Cron, Fire): the schedules that wait for approval, the scheduler,
--                  and the requests that it hands to HDS-BRAIN. Consistent, Invariant, Rejection,
--                  Proposal, Effects, Activation, Request, Reachable, Authority and Decided (with
--                  Process and Controller) prove.
--   Base           shared helpers: Boolean tests, lists, texts, the Map with text keys, sorting, JSON.
--
-- State is passed explicitly; a throwing method returns a Result. Numbers are native naturals where
-- the code's are counts, times and risks; the scores and weights of a policy and the tokens
-- of a bucket are JavaScript doubles, and stand as a type parameter with the operations that the code
-- applies, of which no law is assumed. The digests, JSON.stringify, NFKC, lower-casing, the clock (`now`), randomUUID (`uuid`),
-- the memory port and Node's telemetry are parameters. All loops are structural (the retry loop on the
-- retries that are left); there is no fuel.
--
-- Not modelled: output_audit.ts and the record of a released output, the built-in detectors, the memory
-- stores behind the reader, the built-in tools, the session store on disk, the reading of the schedules'
-- file and environment, the channels, the rest of the gateway and the installer. The boundary parser
-- of the protocol is an input of decide.
pub mod Base
pub mod Protocol
pub mod Audit
pub mod Approval
pub mod Process
pub mod Boundary
pub mod Health
pub mod Policy
pub mod Memory
pub mod Normalization
pub mod Controller
pub mod Ticket
pub mod RateLimit
pub mod Schedule
pub mod Session
pub mod Routing
pub mod Executor
