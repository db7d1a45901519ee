-- ===== src/Lib.antt =====
-- Mandala: the core of the fleet tool, modelled from the Rust crates under crates/.
--
-- A fleet is described by an aggregate that Nix evaluates. `Inventory` gates that aggregate and
-- expands selectors to members; every engine that acts on hosts starts from what it resolves. A
-- run of an engine writes streams of JSON events (`Runner`), one for each host and one for the
-- build, and every frontend reads those streams back into the state of a run. The build stream
-- carries the internal log of Nix, which the reader folds into a forest of derivations (`Forest`).
--
-- - Base: what the parts share. Text (a list of code points), BTreeMap and BTreeSet as sorted
--   lists (Map, Set over the interface Order.Ord), i64 (Int), serde_json's Value (Json), Result,
--   and the bytes of UTF-8 and of lines (Utf8).
-- - Inventory: crates/mandala-core/src/inventory.rs. Name, Member, Validate
--   (`from_value_for_controller`), Projection (the accessors) and Select (`resolve`,
--   `resolve_part`, `to_limit`) are the code; Valid, Controller and Accepted prove what an accepted
--   aggregate satisfies; Meaning says what a selector means, Resolve, Plain and Canonical that
--   `resolve` computes it.
-- - Forest: crates/nix-build-forest/src/msg.rs, forest.rs and duration.rs. Message, Paths, State,
--   Activity (`start`, `stop`), Feed (`feed_line` and the other handlers), Resolver (the reads of `.drv`
--   files) and Snapshot are the code; WellFormed, Preserved and Reachable hold the invariant,
--   Sticky and Failed what happens to failed derivations, Counts, Capped and Pending the
--   projections. Duration is the cache of duration.rs, Averages what it estimates.
-- - Drv: crates/nix-build-forest/src/drv.rs. Term and Parse are the code: a parser is what it has
--   not read and an offset, and each term and each round of a loop costs a unit of fuel, of which
--   twice the length of the input and one is enough. Ends and Settled prove that; Print is how Nix
--   writes a term, Front, RoundTrip and Derivation that this is parsed.
-- - Rows: crates/nix-build-forest/src/sort.rs. Display (`display_rows`) and Project
--   (`activity_projection`) are the code. Each level of `visit` costs a unit of fuel, one more than
--   there are nodes, and each path popped off the frontier one of twice as many as there are nodes;
--   Visited, Complete and Closed prove that this is enough, Shown and Accounted what is shown.
-- - Runner: the first half of crates/mandala-core/src/runner.rs, and build_log.rs. Host, Build,
--   BuildLog, Writer and Tail are the code; Replay, Bounds, Cap, Reserve, Chunks and
--   Polled the proofs.
-- - Deploy: crates/mandala-core/src/engines/deploy.rs. Plan (`plan_run`), Tracker (the
--   counters of the batch build), Stream (the records of a host, `RegistryDeploySink`, the
--   early return of a result), Pipeline (`deploy_host_with`, `abnormal_host`), FanOut
--   (`fan_out_with`) and Settle (the outcome of a fan-out, the exit byte) are the code. The
--   deploy-rs fork is a parameter: what each of its operations says and comes to; so is which
--   openings and writes of a stream fail, and which records the cap leaves out of the stream
--   of a host named `build`, which is the log of the build (that its strings are cut there too
--   is left out). Each task of a fan-out writes the stream of its own host, so the tasks are
--   run one behind the other in the order in which they end; the semaphore that bounds how
--   many run at once is left out. Planned, Counted and Settled prove the plan, the counters
--   and the outcome. Observed says what Runner's reader makes of the records of a pipeline,
--   Triple how what holds passes through early returns, Agreed what an end has to satisfy;
--   Ending, Steps, Concluded, Activated, Deployed and HostTask follow the pipeline, Told and
--   FannedOut the fan-out.
-- - Registry: crates/mandala-core/src/registry.rs. Prune (`prune_policy`) and Liveness (`liveness`)
--   are the code; Kept and Verdict the proofs.
-- - Drift: crates/mandala-core/src/drift.rs. Compare (`compare`, `boot_critical_changed`) is the
--   code, Judged and Listed the proofs.
-- - Tui: crates/mandala-tui/src/select.rs, scroll.rs, state.rs, keymap.rs and a part of app.rs.
--   Select, Scroll, State (`AppState` and its queries), Load (its transitions), Activity
--   (`on_mcp_activity`), Session (the events of `App` and the job that runs), Keys and Keymap
--   (`resolve`, here `resolve_key`) are the code; Selected, Scrolled, Unshadowed, Consistent,
--   Requested, Owed, Logged and Stale the proofs.
-- - Mcp: crates/mandala-mcp/src/server.rs, tools.rs, effects.rs and activity.rs. Tools (the
--   arguments and the effects), Output (what ansible prints), Probe and Actions (the tools), Dispatch
--   (`dispatch`) and Audit (`call_tool_from`, `audit_event`) are the code; Allowed, Gated, Refused,
--   Counted, Marked and Audited the proofs.
-- - Host: crates/mandala-context/src/protocol.rs and host.rs. Conn (`serve_conn`, each task of it a
--   step) is the code; Served, Balance and Drained the proofs.
--
-- State is passed explicitly: an operation takes the record of its struct and returns the new one.
-- Time is an argument. The parsers and printers of serde are parameters, as are the bytes of a file
-- and what the thread that reads `.drv` files has sent back. A `+= 1` on a u64 wraps at 2^64, as in
-- a release build; counters that the code saturates are saturated. Loops run over a list;
-- only the parser of `.drv` files and the rows of a display need fuel.
--
-- Not modelled: I/O and its failures, but those of the stream of a host that is deployed
-- (where a write that fails half way counts as one that leaves nothing), locks, the texts of
-- errors, subprocesses and their supervision, the transfers of a snapshot, the Nix evaluator,
-- what the deploy-rs fork does to a host, the process of a batch build and the links of its
-- profiles, the runs that own a subprocess (the second half of runner.rs), the names and the
-- metadata of runs, the files of the drift cache, the command line, the rest of the terminal
-- interface and of the tools of the MCP server, its transport, and the rest of the crate for
-- the shared context.
pub mod Base
pub mod Deploy
pub mod Drift
pub mod Drv
pub mod Forest
pub mod Host
pub mod Inventory
pub mod Mcp
pub mod Registry
pub mod Rows
pub mod Runner
pub mod Tui
