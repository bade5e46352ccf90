-- ===== src/Lib.antt =====
-- The core of the Arazzo workflow runtime: how a workflow is invoked, how each attempt of a step is
-- routed through its actions, how many retries and iterations it is granted, and in which levels
-- its steps may run in parallel.
--
-- The program (crates/arazzo-runtime) executes a workflow as a sequence of steps. `execute_inner`
-- gates a workflow on its dependencies and runs its loop; each round attempts one step and routes
-- the settled attempt: `handle_step_result` searches the applicable action list for the first
-- action whose criteria match, and `execute_action` turns it into a flow decision (next step,
-- retry, end, transfer to a workflow, error). Retries are counted at sites, a step and an action
-- of its list, and the loop's iterations are bounded by `compute_max_iterations`. In parallel mode
-- the steps are grouped into dependency levels, unless something in the workflow blocks that; a
-- level's tasks run apart, and their attempts are replayed in step order. Criteria are conditions
-- (crates/arazzo-expr), compared and combined here; patterns are compiled through a shared bounded
-- cache. The validator (crates/arazzo-validate) searches documents for dependency cycles before
-- they run.
--
-- Files and what they model (paths from the repository's root; runtime_core is
-- crates/arazzo-runtime/src/runtime_core):
--   Spec            crates/arazzo-spec/src/lib.rs: the document types, with the fields the core reads
--   Json            `serde_json::Value`, as inputs and outputs are
--   Errors          runtime_core/error.rs: error kinds; messages are left out, no decision reads them
--   Env             runtime_core/control.rs: the token, the timeout flag and the debugger
--   Env/Debugger    the checkpoints of crates/arazzo-runtime/src/debug/breakpoints.rs
--   Env/Interrupts  rules for runs that an interrupt may cut off
--   Routing         runtime_core/engine_actions.rs, with `route_attempt` of step_attempt.rs:
--     Decision, RetryAfter   its data, and the delay before a retry
--     Select, Execute, Handle   find_matching_action_with_debug_from, execute_action,
--                     handle_step_result
--     Reference       an independent description of what routing decides
--     First, Selects, Walk, Settle, Within, Execute/Agrees   the proofs about it
--   Budget          compute_max_iterations (engine_impl.rs) and count_retry (step_attempt.rs);
--                   Budget/Sums and Budget/Left compare them with plain sums
--   Invocation      `execute_inner` (engine_impl.rs): the dependency guard, the choice between
--                   parallel and sequential execution, the loop, transfers and completion marks
--     Monad, Calls    the engine's actions, and the operations that `execute_inner` calls
--     Iterations, NoSteps   the iteration limit against the retry budgets, and its edge case
--   Deps            runtime_core/deps.rs:
--     Refs, Edges     the `$steps` references of a step, and the dependencies they name
--     Levels          the levelling loop, with its proofs in Levels/Sets, Count and Layered
--     Build           `build_levels` on a workflow
--     Blocker         parallel_blocker, characterised in Blocker/Free
--     Transitive      compute_transitive_deps, with its proofs in Transitive/Visits and Reachable
--   Debug           the debug controller (crates/arazzo-runtime/src/debug): Breakpoints, Stack and
--                   Controller model its files, Runs is its step relation with the invariant,
--                   Stepping says when an arrival stops
--   Conditions      simple conditions (crates/arazzo-expr/src/simple_condition): Numeric and Syntax
--                   model its numbers and its syntax tree, Nesting the scan before parsing,
--                   Equality and Compare the operators, Evaluation the run of a tree; the modules
--                   under them are named for what they prove
--   Parameters      crates/arazzo-spec/src/effective_step.rs and `merge_workflow_params` of the
--                   runtime; Parameters/Overlay says what a step's parameters are
--   RegexCache      runtime_core/regex_cache.rs: the two critical sections over the shared map;
--                   RegexCache/Uncached compares it with no cache at all
--   Pointers        `apply_json_pointer_replacement` of
--                   crates/arazzo-runtime/src/runtime_core/payload.rs, whose root comes back as
--                   the result in place of a mutation; Put and Escapes have the proofs.
--   Cycles          crates/arazzo-validate/src/step_dependencies.rs: Graph is the graph that it
--                   searches, Fuel counts the rounds, Marks, Progress and Walk keep its invariant,
--                   Verdict and Documents say what the answers mean
--   Parallel        the levels of runtime_core/engine_parallel.rs: Retries is the loop of a step's
--                   task, Orders the freedom of the tasks' ends, Sorted the order of the results,
--                   Decision what ends an invocation
--   References      source_reference.rs, operation_id.rs and workflow_dependency.rs of
--                   crates/arazzo-spec/src: Segments is the split, RoundTrip what is read and written
--   Selected        single-step execution (engine_impl.rs): the selection and its loop;
--                   Selected/Scope is where the loop goes on, Closure what is selected, Left and
--                   Iterations the iteration limit against the retry budgets
--   Redirects       the redirect policy and loop of runtime_core/client.rs, over a transport that
--                   may answer anything; Redirects/Chain is what a chain of them keeps
--   Base            shared names, tests on numbers, lists
--   Tests           small documents, and each theorem applied to one of them
--
-- Correspondence. Async code is a sequence of actions. What other tasks change while it runs (the
-- cancellation token, the timeout flag, the debugger's answer) is an environment that may answer
-- differently at every moment; no law is assumed of it. In the invocation, an action takes a state
-- to a result and a new state, and the other parts of the engine (the execution of a step, input
-- validation, outputs, receivers, events, the parallel executor) are the operations of a record,
-- with nothing assumed of them. The expression evaluator and the conversions of floats are a
-- record of functions too. A `BTreeMap` of retry counts is the function that reads it; sets of
-- step indices are lists without repetition; numbers are unbounded, retry counts among them, which
-- are `u64`s below their limit; the saturation of the `u128` sums is written out. An `f64` is its
-- bit pattern.
--
-- Fuel. The failure loop of `handle_step_result` has one round for each action and one more, which
-- is enough: a round that does not end the loop passes an action. The levelling loop has a round
-- for each step, and so has the search of single-step execution. The call depth is the program's
-- own limit of ten. A chain of redirects has a round for the request and one for each hop. The
-- loop of a parallel step's task has an attempt more than its retry budgets add up to. The search
-- for cycles has a round for each node and for each entry; structural equality has one for each
-- value. The iteration limit is the program's own as well.
--
-- Not modelled: a task of a parallel level that panics; I/O and the transports, the parser of
-- expressions and conditions, the other criteria (the regular expression, JSONPath and XPath
-- libraries), the debugger's output diagnostics and watches, replay, redaction, the other checks
-- of document validation, and the command line, MCP and debug adapter programs.
pub mod Base
pub mod Budget
pub mod Conditions
pub mod Cycles
pub mod Debug
pub mod Deps
pub mod Env
pub mod Errors
pub mod Invocation
pub mod Json
pub mod Parallel
pub mod Parameters
pub mod Pointers
pub mod Redirects
pub mod References
pub mod RegexCache
pub mod Routing
pub mod Selected
pub mod Spec
pub mod Tests
