-- ===== src/Lib.antt =====
-- mcp-tools: the verification library of the worktree pool server (wtpool), of the C++ language-server
-- shim (lsp-cpp) and the Rust one (lsp-rust) with the framing they share (lsp-shim-core), and of the task
-- runner of codex-stdio.
--
-- The program. `wtpool` hands worktrees of a repository to workers (pool), reads and writes the lease
-- that says what a worker may touch (lease), and merges finished branches into main behind gates
-- (merge), with a driver that resolves conflicts in one cumulative document (cumulative_md). Its server
-- keeps answers of slow calls in a cache (cache). The merge calls the resolver during its rebase and the
-- glob matcher of the lease for its carveout; the pool and the merge drive `git` by the same runner.
-- `lsp-cpp` answers the calls of an MCP client (mcp) behind a bounded queue (queue) and a supervisor that
-- says when a crashed clangd may be tried again (supervisor); the calls go to one clangd process
-- (clangd), in `Content-Length` frames (lsp-shim-core). `lsp-rust` asks one rust-analyzer process and makes
-- a request once more where the server cancels it (lsp, mcp). `codex-stdio` has Codex work on one task in a
-- worktree, and lets the result through if it stays in there and is committed (run_task).
--
-- The files.
-- - Prelude: names that all parts share. Rust's `&str` is a list of code points, `as_bytes` its UTF-8;
--   Prelude/Result is Rust's `Result` with `?` as bind, Prelude/Action the same over a state.
-- - Wtpool/Lease/Glob: `glob_match` and its helpers in wtpool/src/lease.rs. The two mutually recursive
--   loops over indices are structural recursion over the rest of pattern and text.
-- - Wtpool/Lease/Time: the RFC 3339 reader and writer in wtpool/src/lease.rs. `i64` is the integers: a
--   year has four digits, so no intermediate value leaves the range of 64 bits.
-- - Wtpool/Lease/Contract: the lease, its errors, `validate_self`, `from_json_bytes`, `matches_path`,
--   `matches_cwd`, `is_expired`, `into_lease`. The JSON reader and writer, `fs::canonicalize` and the
--   clock are parameters. Contract/Store is `write` and `read_from_file` over a map of files; the file
--   system's answers to each call are a parameter.
-- - Wtpool/CumulativeMd: `resolve_cumulative_md_conflict` and what it calls in
--   wtpool/src/cumulative_md.rs. The loops over line indices are recursion over the rest of the lines
--   with a number of rounds, which is the number of lines: each round reads a line at least. The
--   `BTreeMap` of the union is a list in the order of its keys. CumulativeMd/Union says what the
--   union of two sides is without that list.
-- - Wtpool/Cache: wtpool/src/cache.rs. The hash map is an association list, a clock's reading an argument.
-- - Wtpool/Pool: wtpool/src/pool.rs: the census of the slots, `pool_release` (Pool/Gates, Pool/Release),
--   `pool_acquire` (Pool/Acquire) and `validate_branch_name`. git2, the file system, the locks and the
--   `git` command are an interface over any type of machine states.
-- - Wtpool/Merge: wtpool/src/merge.rs: the request's checks and the message (Merge), what is asked of the
--   machine (Merge/Host), the gates (Host/Gates), the rebase and the check of the reviewed tip
--   (Host/Rebase), and `merge_to_main` (Host/Orchestration). The state of a run is the machine's with the
--   list of the `git` commands that were run.
-- - LspCpp/Queue: lsp-cpp/src/queue.rs. The mutex makes each operation one step, so threads are a sequence
--   of operations.
-- - LspCpp/Supervisor: lsp-cpp/src/supervisor.rs. Times are nanoseconds and the clock's reading is an
--   argument.
-- - LspCpp/Error, LspCpp/Backend: lsp-cpp/src/error.rs and backend.rs. The backend is a record of actions
--   over any type of machine states; the clock's reading belongs to the state, and readings between which
--   the server asks nothing of the machine are one.
-- - LspCpp/Mcp: lsp-cpp/src/mcp.rs over that record: Reply, Outcome, Tools and Status are its parts, Calls is
--   `handle_tools_call`, Serve is `handle_message` and the loop, with the number of lines as its rounds. The
--   other modules are proofs.
-- - LspCpp/Clangd: lsp-cpp/src/clangd.rs over an interface of the operating system: Launch (settings and
--   command line), Answers, Request, Spawn, Queries, Shards, Index (`build_full_index`) and Shutdown, which
--   makes the handle a backend. The wait for an answer has as many rounds as nanoseconds up to its deadline,
--   the warm-up four rounds a second, the index build's drain one in 2 s and the shutdown one in 50 ms: each
--   round lasts that long at least.
-- - LspRust: lsp-rust/src/lsp.rs over an interface of the operating system: Client (settings, with
--   compat.rs), Answers, Session (start and one request), Requests (retries, the wait for the index) and
--   Shutdown; Mcp and Serve are lsp-rust/src/mcp.rs. The rounds are those of LspCpp/Clangd: one a nanosecond
--   for an answer, two a second for the wait for the index, one in 25 ms for the shutdown.
-- - CodexStdio/Paths, CodexStdio/Worktree, CodexStdio/RunTask: codex-stdio/src/run_task.rs. A path is its
--   text, cut into components as `Path::components` does. RunTask/Headers and RunTask/Reduced say,
--   apart from the code, which path a line of a diff names and where a path with `..` leads.
-- - CodexStdio/Codex: codex-stdio/src/codex.rs; Codex/Events is the decoder of the event stream. What a
--   process prints is decoded text. CodexStdio/Health: codex-stdio/src/health.rs.
-- - LspShimCore/Framing: lsp-shim-core/src/framing.rs over byte lists; the header loop has one round more
--   than the input has bytes, and each round but the one at the end of the stream reads a byte at least.
--   Too few rounds and the panic of an allocation above `isize::MAX` are errors of their own.
-- - Tests: runs at concrete inputs.
--
-- Not modelled: wtpool's server, command line, git.rs, agents.rs and reviews.rs; the server of
-- codex-stdio; the command lines of all crates; what goes to logs; the reader and the writer of JSON;
-- and in wtpool and codex-stdio the layout of JSON payloads, of which the models keep the fields.
pub mod Prelude
pub mod Wtpool
pub mod LspCpp
pub mod LspRust
pub mod LspShimCore
pub mod CodexStdio
pub mod Tests
