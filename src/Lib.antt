-- ===== src/Lib.antt =====
-- A verification library for nit, a server that lets developers work on the parts of a git
-- repository which a policy allows them to see and to change. Paths below are from the
-- repository's root.
--
-- The policy engine (pkg/policy) compiles a bundle of users, groups, repositories and rules, and
-- answers whether a subject may do an action to a path at a ref. The patch package (pkg/patch)
-- cuts a git patch into sections by file and puts a selection of them together again. Enforcement
-- (pkg/enforce) asks the engine about every section of a patch, and lets a push through whole, or
-- what remains of it, or filters a pull. A push or a pull waits as a task in a store (pkg/store),
-- of which internal/store/memory is the reference: workers claim tasks under leases, and the tasks
-- of one branch run one after the other. The work queue (internal/queue) is what the server and
-- the workers use of that store. A worker publishes a push under a commit message of its own
-- making (internal/worker/message.go). Patches travel in blob stores (pkg/blob), and clients hold
-- signed tokens that name the commit that they are at (internal/synctoken). The server
-- (internal/server) authenticates a request, resolves what it names, asks enforcement, stores what
-- is left of a patch and puts a task into the queue; a worker (internal/worker) takes the task,
-- applies the patch and pushes the commit to the forge, or computes the difference for a pull,
-- filters it for its reader, and shares the outcome, through a cache (internal/pullcache), with
-- all readers of one profile (pkg/policy/profile.go). Every decision is appended to an audit trail
-- and forwarded, through a bounded buffer (internal/auditbuf), to a sink; cmd/nitctl exports the
-- trail page by page.
--
-- Base: Go strings as byte lists, slices as lists, maps as association lists, results with an
-- error, strings.TrimSpace, parts written with their lengths (Framing), and the lemmas that the
-- parts share.
-- Policy: Identity (identity.go), Pattern (pattern.go), Rule (rule.go), Decision (decision.go) and
-- Engine (engine.go; the compiled Policy record of policy.go). `evaluate`, `cached_evaluate` and
-- `allows_all` are Evaluate, CachingEngine.Evaluate and AllowsAll. Engine.Applies says when a rule
-- reaches a request, Engine.Outcome what is answered, Engine.Explain and Engine.Named which rule
-- is named, and Engine.Cache holds the cache. Rules, Groups and Compile are the rest of policy.go:
-- the rules of a bundle (`compile_rules`, `validate_rule`, `check_rule_subject`), its groups
-- (`adopt_directory_groups`, `check_group_references`, `detect_group_cycles`,
-- `resolve_memberships`), and `compile`, which is Compile, with the accessors of a policy.
-- Rules.Valid says what holds of a compiled rule and Rules.Reading what that means for decisions;
-- Groups.Cycles and Groups.Depth are about the search for inclusion cycles, Groups.Members and
-- Groups.Belongs about the search for the groups of a user, and Compile.Compiled about a compiled
-- policy. Profile is profile.go; Profile.Shared is about subjects of one profile.
-- Patch: Change (change.go), Sections and Parse (parse.go), Render (Set.Render). `split_sections`,
-- `parse` and `render` are splitSections, Parse and Render. Bounds and RoundTrip hold their
-- proofs.
-- Enforce: Check (check.go), Guards (guards.go) and Pass (enforce.go). `push` and `pull` are Push
-- and Pull. Direct describes a pass without its cache, Verdicts and Outcome what is let through.
-- Store: Task (pkg/store/models.go, pkg/store/store.go, pkg/protocol/task.go) and Memory
-- (internal/store/memory/tasks.go, with what it uses of memory.go). `create`, `claim`,
-- `heartbeat`, `complete`, `fail`, `cancel`, `release_expired`, `queue_position`, `by_id`,
-- `by_request_id` and `list` are the methods of taskStore; `TaskStore` is the store, its map of
-- tasks a list of values. Counts and Invariant hold the invariant, Dispatch the claim, Claimed
-- what a claim does in plain terms, Runs sequences of calls, Fencing the tokens, Lifecycle the
-- states of a task, Queue repeated requests, queue positions and releases, and Listing what `list`
-- returns. SyncPoints is the syncPointStore of memory.go, its map an association list:
-- `compare_and_set` is CompareAndSet. Directory has the userStore of memory.go and the
-- sessionStore of sessions.go, Tables the workspaceStore and the repositoryStore of memory.go, and
-- Artifacts its artifactStore and policyVersionStore. The one counter of memory.go is a counter
-- for each of these groups, so an ID that the store makes has another number than in the code.
-- Taskspec: what the server tells a worker (internal/taskspec/spec.go) and a blob's description
-- (pkg/protocol/common.go).
-- Compress: internal/compress/zstd.go.
-- PullCache: the key (pkg/pullcache/pullcache.go) and the cache (internal/pullcache/cache.go), its
-- map and its list one list, the most recently used first. `get_projection` and `put_projection`
-- are Get and Put; `run_steps` does any steps of callers in any order. Bounds is about its size,
-- Hits about what it answers.
-- Server: the state of the server and its dependencies, and the files of internal/server: Resolve
-- (resolve.go, `resolve_pull_base` of pull.go, `policy_for` of tenant.go), Patches (`load_patch`
-- and `store_patch` of push.go, `handle_upload_blob` of tasks.go), Report (the report and the
-- audit records of push.go), Push and Pull (`handle_push` and `handle_pull`, with a function for
-- each part of handlePush and handlePull), Tasks (`handle_get_task` and `handle_task_patch` of
-- tasks.go), and Front (`authenticated` of http.go, meta.go). Authorize, Limit, Stored and
-- Admitted are about the parts of a push, EndToEnd about a push with its authentication, Served
-- about what is served for a task, and Listed about the repositories that a caller is told of. One
-- request sees one instant.
-- Queue: internal/queue/queue.go over the store in memory, and Runner (worker.go). `submit`,
-- `claim_task`, `keep_alive`, `complete_task`, `fail_task`, `release_task` and `execute` are
-- Submit, Claim, one tick of keepAlive, Complete, Fail, Release and what execute does after its
-- handler returned. Keys is about PartitionKey, Submission about repeated requests, Settling about
-- how a task ends, and Serial about all calls together.
-- Worker: Message is message.go, with `strip` and `scan` for its regular expression;
-- Message.Honest is about forged trailers. Push and Pull are handlePush and handlePull (push.go,
-- pull.go), `work_push` and `work_pull`, with a function for each part; Filter is filterForReader,
-- Projection what a pull finds in the cache or computes and stores, and State their state and
-- dependencies. Publish and Advance are about what is published and when a sync point moves, and
-- Shared about readers of one profile.
-- Blob: the interface with its contract `IsBlobStore` (blob.go), Memory (memory.go) and Fallback
-- (fallback.go), which keep it.
-- Tokens: synctoken.go; Split is about strings.Split, Verify about what is accepted.
-- Auth: internal/auth/auth.go over the users and sessions of Store.Directory (memory.go,
-- sessions.go). `authenticate`, `issue`, `revoke` and `bearer_token` are Authenticate, Issue,
-- Revoke and BearerToken; Granted is about who is let in, Revoked about revoked sessions.
-- Audit: Record (pkg/audit/audit.go), Buffer (internal/auditbuf/buffer.go) as a machine whose
-- events are the atomic actions of its goroutines, and Trail (the auditStore of memory.go, the
-- loop of cmd/nitctl/export.go, `convert` and, as `record_all`, Record of
-- internal/auditlog/recorder.go; the sink is the list of what it was sent). Buffer.Account,
-- Buffer.Limits and Buffer.Close are about records, sizes and the end of the consumer;
-- Trail.Order, Trail.Export and Trail.Prune about the order of the trail, its export and its
-- purge.
-- Tests: runs on concrete inputs, and the theorems at inputs that meet their hypotheses.
--
-- Conventions. A string type with constants is a data type with a constructor for each constant
-- and, where other strings can occur, one more for these. A nil pointer or a missing key is
-- `none`; a nil slice is the empty list. A method that changes its receiver returns the new
-- record. Loops are recursions on the lists that they range over, but for these, which have fuel:
-- `visit`, the recursion of the search for cycles, gets one more than the number of groups, and no
-- recursion is deeper, since every group above is grey; `closure`, the loop over the queue of the
-- search for memberships, gets the number of groups that list the user and of inclusions, and
-- every round takes one of these; `digits`, which writes a number in decimals, gets one more than
-- the number; `trim_left_from` and `all_space` get as many rounds as there are bytes, and each
-- round takes one at least; `export_loop`, the loop over the pages of an export, gets one more
-- than the number of records, and every page but the last brings one. Instants are natural numbers
-- of nanoseconds, 0 for the zero time. Limits of sizes are int64: one more than the greatest
-- wraps, and nothing is then read (`one_past`). A mutex makes each store operation one step, and
-- its clock and its random token are arguments.
--
-- Parameters. The glob matcher doublestar is `Doublestar` (ValidatePattern and Match), and
-- go-gitdiff is `Gitdiff` (Parse on one section). No theorem assumes anything of either. `Codec`
-- has what sync tokens use of crypto/hkdf, crypto/hmac, encoding/base64, encoding/json and
-- unicode/utf8: `CodecLaws` says that decoding undoes encoding, that the alphabet of base64 has no
-- full stop, and that JSON keeps a payload whose strings are valid UTF-8. SHA-256 in hexadecimal
-- is a function of which `HashLaws` says that it returns 64 hexadecimal digits; that the texts
-- hashed in a theorem are no collision is a hypothesis of that theorem, `NoCollision`. The zstd
-- library is `Zstd`, its decoder a stream that may break off. encoding/json on requests, results
-- and instructions is a field of `Deps` and `WorkerDeps`, and so are the policies by tenant. git,
-- the mirror and the forge (pkg/gitx, internal/gitcache, pkg/forge) are `Git`, an interface over a
-- state of its own. No theorem assumes anything of these.
--
-- Not modelled: the administration of the server, the hub that wakes long polls, request IDs,
-- cross-origin headers and health checks; the choice of a handler and the clean-up of a working
-- tree in a worker; the differences of policies and expectations about them, the loading of
-- policies from files; tenants; messages of errors and rendering of values as text for logs; the
-- clients, SQL stores, git subprocesses, configuration files, and what only forwards calls.
pub mod Base
pub mod Policy
pub mod PullCache
pub mod Taskspec
pub mod Compress
pub mod Server
pub mod Store
pub mod Audit
pub mod Queue
pub mod Tokens
pub mod Blob
pub mod Worker
pub mod Auth
pub mod Patch
pub mod Enforce
mod Tests
