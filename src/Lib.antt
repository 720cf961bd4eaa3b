-- ===== src/Lib.antt =====
-- The server of the Agent Control Plane, acpd, whose state is a database of workflows and the tasks that
-- agents work on. acpd/internal/store holds that state; acpd/internal/api serves it over HTTP, behind
-- acpd/internal/auth; acpd/internal/queue sweeps expired claims; acpd/internal/bridge runs the FARD
-- programs that compute a workflow's next state, whose results the store commits.
--
-- Which file models which part:
--   Prelude, Prelude/*      shared names; lists, rows, tests and sorting, by which SQL is read
--   Sql, Sql/Rules          statements that may fail, and DB.Tx of store/db.go
--   Json, Json/Lookup       the values of encoding/json
--   Schema                  the tables of acpd/migrations and the row types of acpd/internal/store
--   Tasks, Tasks/*          store/tasks.go and queue/queue.go: EnqueueTask is enqueue_task, ClaimNextTask
--                           claim_next, HeartbeatTask heartbeat, CompleteTask complete_task, FailTask
--                           fail_task, RequeueExpiredTasksWithDeadLetter requeue_expired_with_dead_letter;
--                           Tasks/Life is an abstract machine of the lives of tasks, which they refine
--   Workflows, Receipts, Gates   store/workflows.go; store/receipts.go, deltas.go and artifacts.go;
--                           store/gates.go
--   Commit, Commit/*        store/commit.go: CommitTransition is commit_transition, CommitArtifact
--                           commit_artifact, CommitGateResolution commit_gate_resolution
--   Linked                  the chains of digests that receipts and deltas form
--   Plan, Plan/*            store/plan.go: EnqueuePlanTasks is enqueue_plan_tasks, readyNodes ready_nodes,
--                           MarkPlanNodeDone mark_plan_node_done
--   Branches, Branches/*    store/branches.go: CommitFork is commit_fork
--   Anchors, Anchors/*      store/anchors.go: GetAnchorGaps is get_anchor_gaps, AnchorSummary
--                           anchor_summary
--   Keys, Keys/Tokens       security/keys.go, and the store's calls of its key provider
--   Actors, Actors/Lookup   store/actors.go
--   Auth                    auth/middleware.go
--   Database, Database/*    store/db.go: resolveDriver is resolve_driver, rebind rebind; the files that
--                           migrate runs are migrations
--   Anchors/Backend         anchor/backend.go
--   Api, Api/*              the replies of api/api.go, and its handlers: Api/Routes the routing of api.go,
--                           where serve chooses the handler; Api/Create createWorkflow (post_workflow);
--                           Api/Edits editState (edit_state) and commitArtifact (post_artifact); Api/Views the
--                           handlers of workflows.go that only read; Api/Plans executePlan and markNodeDone;
--                           Api/Resume resumeGate (resume_gate); Api/Forks api/branches.go, whose
--                           forkWorkflow is post_fork; Api/Anchors api/anchor.go; Api/Workers claimNextTask
--                           and heartbeatTask; Api/Tasks the other handlers of tasks.go
--   Sdk, Sdk/*              sdk/go: Sdk the requests of acp/client.go and its `do` (send), Sdk/Bodies what
--                           they carry, Sdk/Calls the methods of Client, Sdk/Values the structs of the
--                           replies, Sdk/Builder acp/builder.go, Sdk/Worker acp/worker.go (processOne is
--                           process_one), Sdk/Adapters adapters/adapters.go; Sdk/Plans sets the client's
--                           bodies beside the server's decoders
--   Examples, Examples/*    the theorems applied to small tables
--
-- The state is the record Tables, a list of rows for each table in the order of insertion. A function on
-- the database is a function from Tables to a result and Tables; a statement that fails half-way keeps
-- what earlier ones wrote until `transact` rolls it back. SELECT, UPDATE, ORDER BY and LIMIT are the
-- functions select, update, sort_by, first_by and max_by on rows; primary keys, unique columns and foreign
-- keys are tests that the insertions make. A statement is one step: where several workers run, their
-- statements interleave as a list of steps. A handler or a sweep is one step too, but for resumeGate, which is
-- given the tables that it reads and those that its commit finds.
--
-- Numbers of attempts, sequence numbers and times are natural numbers, a time in whole seconds, as the
-- store writes it. The server reads the clock once per statement; the model reads it once per operation and
-- takes it as the argument `now`. A task's priority is an integer. The loops over numbers run by the rounds
-- that are left, which is how often the loop of the code runs, so none runs out.
--
-- Parameters of the model are the calls of encoding/json, crypto/sha256 (both in Codec) and crypto/hmac
-- (in Mac), the new UUIDs, and what the bridge's FARD programs return to the handlers, a record named
-- Bridge for each module of handlers; and the transport of the SDK, Http, for net/http and the server. A
-- handler is a function from a call and the tables to a reply and the tables; one that only reads
-- returns its answer alone. Errors of the database driver, the middleware of telemetry, TLS, the process
-- of the bridge, the commands, the demonstration and the SDKs in other languages are not modelled.
pub mod Prelude
pub mod Sql
pub mod Json
pub mod Schema
pub mod Database
pub mod Sdk
pub mod Tasks
pub mod Anchors
pub mod Workflows
pub mod Receipts
pub mod Gates
pub mod Commit
pub mod Linked
pub mod Plan
pub mod Keys
pub mod Actors
pub mod Auth
pub mod Branches
pub mod Api
pub mod Examples
