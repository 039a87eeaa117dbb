-- ===== src/Lib.antt =====
-- Kanbrick: an operating platform of a firm, in which staff, guest programs and language-model
-- providers act on a graph of persons and companies under five clearance levels. This library models
-- the decisions that keep that safe, in the code's own terms.
--
-- The parts and their files:
--   Common: shared lists, texts, maps, sets, saturating u64 arithmetic, results and states.
--   Core: kanbrick-core, `ClearanceLevel`, `FirmContext`, `Error`. Every other part uses it.
--   Json: the JSON values that rows are made of.
--   Providers: kanbrick-providers/src/lib.rs, provider kinds, errors, `Usage`.
--   Egress: kanbrick-egress/src/lib.rs. Policy has the four policies, Gate the function `authorize`,
--     Host the function `host_of`, Transport the audited `GatedTransport` over an inner transport
--     that is a parameter; Narrowing and Audit hold proofs.
--   Tokens: kanbrick-tokens, Pricing, Ledger (`InMemoryLedger`) and Budget; Spend holds proofs.
--   Queue: probes/approval-queue/src/lib.rs, the loop of the single writer. The channel is a list of
--     requests in the order of arrival, over which all theorems quantify.
--   Scope: kanbrick-auth/src/scope.rs (Clearance, Rows) and kanbrick-discovery/src/scope.rs (Project,
--     Answers). The queries and the unscoped answers of the graph are arguments.
--   Management: kanbrick-discovery/src/graph.rs, `ancestors`.
--   Grants: kanbrick-discovery/src/grants.rs. Ids has the lists of ids that are stored as one
--     property, Store the nodes and the database's commands, which are parameters, Methods and
--     Scopes the methods of `ScopeGrants`; Eligible, Sound, Approved, Closed, Kept, Revoked and Final hold
--     proofs, and Runs is the gate of a run's step, filled by these grants. A method reads the clock
--     once, and what it wrote before a failing command stays written.
--   Caps: kanbrick-api/src/caps.rs, the capabilities that stand for a caller during one invocation.
--   LoopRuns: kanbrick-api/src/loops.rs, the registry of runs, and in Step and Execute the function
--     `execute_loop`. The grants, the scheduler, the bridge to tools, the custody of keys and the
--     providers are the interface `Services`; what `execute_loop` does with their answers is modelled
--     for one run at a time.
--
--   Mesh: kanbrick-mesh. Abi and Error have what crosses to a guest and what may fail, Task the status
--     of a task, the policy of its retries and its deadline. Scheduler is kanbrick-mesh/src/scheduler.rs:
--     Thread has a worker's thread, one move for each time that it takes a lock, asks the runtime or
--     sleeps, and System any interleaving of the threads and of the callers that schedule tasks; what
--     the runtime answers is free. Permits, Moves, Invariant, Submitting and Working hold the
--     invariant, Safety, Progress, Bounded and Alone what follows from it. Task ids are counted modulo
--     2^64, so that the properties of all tasks suppose at most 2^64 of them.
--     EventBus is kanbrick-mesh/src/event.rs. A handler is a value of any type, and the model returns
--     the handlers that are notified, or the events that are replayed, in their order; Log holds proofs.
--   Admission: kanbrick-api/src/admission.rs. Calls has the calls of `admit`, one step for
--     each access to a semaphore or a counter, interleaved in any order; Counts, Limits and Service hold
--     proofs.
--
--   Skills: kanbrick-store/src/skill_registry.rs, the catalogue of editions. Routes has the handlers of
--     kanbrick-api/src/skills.rs, over the catalogue and the grants; Written, Order, Gate and Trust
--     hold proofs. The reader of a SKILL.md file is an argument of `publish_skill`.
--
--   Auth: kanbrick-auth. ReadOnly is kanbrick-auth/src/readonly.rs, the gate on the statements of
--     guests; Regions and Words describe what it goes by without the scanner, and Gate says what it
--     accepts. Query has the typed queries of kanbrick-store/src/store.rs, and Guarded is
--     kanbrick-auth/src/guarded.rs, the store that is bound to a caller; Sound and Keeps hold proofs.
--     What the database does with a statement is a parameter, and may change it. ApiKey is
--     kanbrick-auth/src/apikey.rs, the keys of services; Rotate has the methods that write, and
--     Compare, Sound and Rotated hold proofs. Token is jwt.rs and Login is login.rs with
--     password.rs, of the same directory; RoundTrip and Sound hold proofs. Requests is the extractor of
--     kanbrick-api/src/lib.rs with its handlers `login`, `me` and `admin`, and Admitted goes from a
--     login to a request. What jsonwebtoken, argon2, chrono and uuid do is a parameter.
--   SkillFile: kanbrick-loops/src/lib.rs, the SKILL.md files that `publish_skill` reads. Lines and
--     Printed describe the lines of a printed file, and RoundTrip reads them back.
--
--   Cache: kanbrick-discovery/src/cache.rs, the cache of discovery answers, which the grants
--     invalidate. Fresh has it in sequence, Race with computations that overlap, Keys its keys.
--
--   GuestPolicies: kanbrick-store/src/guest_policy.rs, the policy of each guest. Write has the upsert
--     of two statements, and Upsert what is read after it.
--
-- How the model corresponds to the code: a struct is a record with its fields, an enum a data type
-- with its variants, and a method a function of the same name, or one with the word of its type added
-- where two would clash (`revoke_scope`, `insert_run`); a method that changes its object
-- returns the new one. Texts are lists of character codes; a map is an association list whose
-- insertion replaces; a hash set is a list without repetition that only membership reads; an ordered
-- set is a sorted list. A u64 is a natural number with its saturating operations written out. Random
-- ids and the clock are arguments.
--
-- Fuel: the climb to the managers takes two rounds more than there are manager edges, which is
-- enough since no manager is met twice. No other loop needs fuel.
--
-- Not modelled: the graph database and the WASM runtime, which are other projects; cryptography,
-- HTTP, most routes of the API, the command line and the cockpit, which are input and output; the
-- registry of loops, which the modelled parts use only through the interfaces named above; the
-- adapters of providers, the traversals of the org graph and the guests, on which no modelled part
-- depends.
pub mod Common
pub mod Core
pub mod Providers
pub mod Egress
pub mod Tokens
pub mod Queue
pub mod Json
pub mod Scope
pub mod Management
pub mod Grants
pub mod Caps
pub mod LoopRuns
pub mod Mesh
pub mod Admission
pub mod Skills
pub mod Auth
pub mod SkillFile
pub mod Cache
pub mod GuestPolicies
