-- ===== src/Lib.antt =====
-- A verified model of the core of openclawssy, a runtime for agents that call tools.
--
-- Parts and files. Each file opens with the code that it models; functions keep their names, in the
-- spelling of this language, and a method takes its receiver's state and returns it.
--   Base: shared names; numbers, tests, lists, maps as association lists, Go strings as lists of code
--     points, the sorting of strings.
--   Chat/RateLimiter, Chat/Allowlist (internal/channels/chat): who may send a message, and how often.
--   Toolparse/Names (internal/toolparse/parser.go): the names of tools and their aliases.
--   Policy/Capability (internal/policy/capability.go, grants.go): which tools an agent may call. It
--     takes the names of tools from Toolparse/Names.
--   Policy/PathGuard (internal/policy/pathguard.go): which paths a tool may read, write or make. Laws
--     has the laws of the paths, Granted says what a granted path has to be.
--   PromptStack (internal/promptstack/types.go, diff.go): the layers of a prompt, and the difference
--     of two versions of one.
--   Http/Events (internal/channels/http/events.go): the streams of events of a run, their
--     subscribers, and what is kept of ended runs.
--   Http/RunCancel (internal/channels/http/run_cancel_tracker.go) and Runtime/RunTracker
--     (internal/runtime/run_tracker.go): the cancel functions of the runs in progress.
--   Agent/Complexity (internal/agent/complexity.go): when a run that is stuck hands over its work.
--   Agent/Outcomes (internal/agent/run_state.go): how a run counts the outcomes of its tool calls.
--   Agent/Calls (internal/agent/run_state.go): the answers to the tool calls of a model, with the guards
--     against repetition and the caches; it counts with Agent/Outcomes.
--   Agent/Order (internal/agent/runner.go): the order in which delegated tasks are done.
--   Agent/Delegation (internal/agent/runner.go): the loop that gives the tasks to sub-agents, in the
--     order of Agent/Order.
--   Scheduler (internal/scheduler/scheduler.go): Time decides when a job is due, Store keeps the jobs
--     in a file, Executor picks the jobs of a tick and notes their runs.
--
-- Conventions. A method that locks a mutex is one step. An instant is a number of nanoseconds. An
-- int is a whole number: the counters of the program stay far below the width of the machine's
-- integers, whose overflow is not modelled. strings.ToLower acts on ASCII letters and leaves other
-- code points, so a statement about letter case is about ASCII. A text is a list of code points,
-- where len and a slice of the source count bytes. The order in which Go ranges over a map is that
-- of the association list, and no statement depends on it.
-- Package time and encoding/json are parameters (Clock and Codec in Scheduler), with the laws that
-- their documentation gives: a time that is written in RFC 3339 is read back to the second, and
-- written JSON is read back. So are path/filepath and the file system (Paths in Policy/PathGuard),
-- with the documented laws of Policy/PathGuard/Laws and one on Dir, which drops the last element of a
-- path until it comes to a root or to ".". The file system does not change during a call.
-- The executor of tools, its callback, and the parts of encoding/json, net/url, regexp and strconv that
-- the keys of tool calls use are parameters too (Env and Library in Agent/Calls); so are the sub-agents
-- and the routing of a task to a role, which scores in floating point (Env in Agent/Delegation).
-- Loops are recursion on a list, but for four on fuel: pruneRunsLocked, where each round takes one
-- entry off the order of the runs, so that the length of the order and one more is enough; the walk to
-- an existing ancestor in ResolveMkdirPath, for which the length of the path and two are; the search for
-- an unused id of a call, for which one candidate more than there are ids in use is; and the loop of
-- topologicalSortTasks, for which as many rounds as there are tasks and dependencies are.
--
-- Not modelled: the model providers, the prompts and the run loop of the engine (internal/runtime),
-- most of the run loop of an agent (internal/agent), the tools' own actions, the dashboard, Discord
-- and command line front ends, memory, secrets and the sandbox. They are input and output, or they
-- rest on services outside of the repository.
pub mod Agent
pub mod Base
pub mod Chat
pub mod Http
pub mod Policy
pub mod PromptStack
pub mod Runtime
pub mod Scheduler
pub mod Toolparse
