-- ===== src/Lib.antt =====
-- A verification library for AutoTree: the paged KV cache under its tree of reasoning branches, the
-- engine that decodes the tree, and the controls of the server in front of it.
--
-- The program. core/autotree_core/kv keeps the attention keys and values of many branches of one
-- prompt. `PagedKVPool` (kv/pool.py) owns fixed-size pages, their reference counts and a heap of
-- free pages. `TreeState` (kv/tree_state.py) owns the branches: each has a block table of page
-- ids and a token count. A fork shares all pages of its source; an append copies a shared last
-- page before it writes (copy-on-write); a prune gives pages back; a scan (kv/dedup.py) merges
-- full pages with the same bytes; a gather (kv/gather.py) reads a branch. `ModelExecutor`
-- (core/autotree_core/modeling/executor.py) runs a language model on such a tree and keeps, for each
-- branch, its next logits and its token ids.
-- `TreeKVEngine.generate` (core/autotree_core/engine/treekv.py) grows the tree: a scheduler tells it
-- which branches to continue, fork, kill or finalize; it prunes branches of low value, merges branches
-- that have converged, yields events and ends with the winner. The server puts a middleware before
-- its endpoints (serve/autotree_serve/enterprise.py): it authenticates a request, reserves tokens of the
-- tenant's quota, and settles them and writes an audit record when the request ends. The SDK
-- (sdk/autotree_sdk/trace.py) rebuilds the tree of branches from the events of a streamed answer, which
-- sdk/autotree_sdk/sse.py reads. Between them, the runner (serve/autotree_serve/runner.py) admits a bounded
-- number of generations. The endpoints, and the benchmark, are not modelled.
--
-- The files.
--   Base               lists, Boolean tests and division on native numbers, for all modules
--   Kv.Errors          kv/errors.py, and the built-in exceptions that kv raises
--   Kv.Exec            methods that mutate and may raise, as functions on the state
--   Kv.Config          kv/config.py: `KVPoolConfig.__post_init__` is `post_init`
--   Kv.Pool            kv/pool.py: each method under its own name, less the leading underscore;
--                      `_adjust_logical_tokens` is `grow_logical` and `shrink_logical`,
--                      `_zero_page` is `blank_page`
--   Kv.Gather          kv/gather.py
--   Kv.Branches        the branch records and the dict that holds them
--   Kv.Tree            kv/tree_state.py without the appends; Kv.Tree.Valid has the invariant,
--                      Kv.Tree.View the abstract tree that the operations are compared with
--   Kv.Append          `append_token`, `append_tokens` and `_append_validated`
--   Kv.Dedup           kv/dedup.py and `TreeState.dedup_scan`
--   Kv.Cover           how a block table spells the tokens of a branch
--   Modeling           modeling/executor.py: a call on an execution is `fork_execution` for `fork`,
--                      `prune_execution` for `prune`, and else has the name of the source;
--                      Modeling.Calls has `decode_batch`, `prefill` and `generate`, and
--                      Modeling.Consistent the invariant of an execution; Modeling.Shapes and
--                      Modeling.Rooted follow a prompt through the checks and into a new tree; what
--                      a call changes is in Modeling.Keeps (`fork`), in Modeling.Appends, .Decode
--                      and .Steps (`decode`), in Modeling.Rows and .Batch (`decode_batch`), and in
--                      Modeling.Generated. The read of the logits of a forward comes after the
--                      append, and may raise
--   Engine             engine/treekv.py: the local variables of `generate` are the record `Run`, a turn
--                      of its loop is `round` in Engine.Rounds, and the nested functions have the names
--                      of the source: `prune_low_value_branches` in Engine.Values,
--                      `merge_converged_branches` in Engine.Merging, `advance_batch` in Engine.Advance;
--                      Engine.Winner has `_path`, `_select_winner` and, as `finish`, what follows the
--                      loop; Engine.Ensures has the rules for calls that may raise, Engine.Events the
--                      counts of events, Engine.Counted the invariant of the counters, and
--                      Engine.Survivors what the pruning leaves; Engine.Requests has what comes
--                      before the loop, `_emvpt_config`, `_consensus_config` and `_scheduler_config`
--   Serve.Config       serve/autotree_serve/enterprise.py: `EnterpriseConfig`; `from_env` and the loading
--                      of JSON mappings are in Serve.Config.Env
--   Serve.Quota        `TokenQuota`: `reserve`, `settle`; Serve.Quota.Ledger has any run of its calls
--   Serve.Auth         `Authenticator.authenticate` and `OIDCVerifier.verify`
--   Serve.Payloads     `_read_body`, `_json_object`, `_requested_tokens`
--   Serve.Middleware   `EnterpriseMiddleware.__call__` is `call`, its `finally` block is `leave`
--   Serve.Runner       serve/autotree_serve/runner.py: `generate` of `EngineRunner` between two awaits is one
--                      of `enter`, `acquire`, `cancel` and `complete`, in any order of the tasks
--   Serve.Json         JSON values; Serve.Words the strings of the source, Serve.Tests a small server
--   Sdk.Trace          sdk/autotree_sdk/trace.py: `_start` is `start`, `_token` is `add_token`; the
--                      checks of `_complete` and `add` itself are in Sdk.Trace.Complete, and the
--                      `done` event against the stream before it in Sdk.Trace.Conforms
--   Sdk.Sse            sdk/autotree_sdk/sse.py, whose lines are parsed by `payloads`
--   Kv.Promises        the theorems, by operation
--   Kv.Tests           a small pool on which the theorems are applied
--
-- The model. Numbers are the native naturals; ids and counts are ints in the source, and a
-- negative one can only come from a caller, whom the source refuses with the errors for unknown
-- ids. A `Row` is the bytes of one token slot in every layer, keys and values, so a page is a list
-- of rows, and the write loop over the layers of one append is one splice. A dict is an
-- association list in insertion order, a set of child ids is a list without repetition, and the
-- heap of free pages is its ascending list. A method is a function from a state to a result and a
-- state: what was written before a raise stays written. The byte copy of torch is taken not to
-- raise, so the rollback in `_copy_page` has no counterpart. The digest of a page is a parameter
-- of the scan: nothing is asked of it, so two different pages may have one digest.
--
-- Fuel. The loop of `_append_validated` runs on fuel, the number of rows to write. Every round
-- writes a row, since a page that is not full has room and a page just taken is empty.
--
-- The climb of `_path` runs on fuel, one more than the id of the branch: a parent is older than its
-- child. The loop of `generate` has no fuel: a run is any number of rounds, as only the scheduler ends
-- it. The digits of a number are printed on fuel, the number itself.
--
-- Time is a natural number of ticks, with `second` ticks in a second; the lock of the quota makes each
-- of its calls one step. A middleware call is one step before the application and one after it; what
-- other requests do to the quota in between is part of what the application returns.
--
-- Floats of the engine (scores, log-probabilities) are a type with the operations that the source uses,
-- of which nothing is asked; the reuse ratios of two snapshots are compared as exact fractions.
--
-- Not modelled: torch (dtypes and devices are tags that are compared), `weakref` and garbage
-- collection of a bound tree, `__repr__`; the constructor of the engine, the encoding of the
-- prompt, `_sample` and its clocks; the endpoints and the HTTP client. The forward pass
-- of the model is a parameter that may return anything or raise; the lock, the attention that is bound
-- into the model for a forest forward and the layout of its cache belong to it. So are the Rust
-- scheduler, the tokenizer, the scores of engine/consensus.py and the answers of engine/answers.py, of
-- which nothing is asked; PyJWT, `json`, the reading of files, and the application behind the
-- middleware. A failing write of the audit file is left out.
pub mod Base
pub mod Engine
pub mod Kv
pub mod Modeling
pub mod Sdk
pub mod Serve
