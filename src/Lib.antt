-- ===== src/Lib.antt =====
-- SurveyController: the bookkeeping of a run, the loop of its sessions, and the choice of answers.
--
-- A run fills one survey many times, in several sessions at once, which the code calls threads. The
-- sessions share one `ExecutionState` (software/core/task/task_context.py), whose methods come from
-- four mixins of software/core/task, and one `RunStopPolicy`
-- (software/core/engine/run_stop_policy.py), which is told of each success and each failure. A
-- session reserves a joint sample and, where answers come from a spreadsheet, a row; it collects its
-- choices while it answers; a success commits all three and counts the copy, and a failure gives the
-- reservations back. Answers are drawn by weights, which condition rules on earlier answers may set to
-- 0. The policy stops the run at its target, after too many failures in a row, or
-- when the rows left cannot reach the target.
--
-- Files:
-- - Common: Boolean tests, lists, Python's dict and set, signed settings, text.
-- - Task/Defs: the records of software/core/task/*.py and software/core/reverse_fill/schema.py.
-- - Task/ReverseFill: software/core/task/reverse_fill_state.py and the start of
--   software/core/reverse_fill/runtime.py. Places, Steps, Retries and Totals hold the proofs;
--   Standing, Moves and LifeCycle are the life of a row as a machine of its own, and the rows refine it.
-- - Task/Joint: the joint samples of software/core/task/distribution_state.py, with Assigned, Expiry,
--   Steps and Quota.
-- - Task/Distribution: the answer statistics of the same file, with Counts, Commit, Balance and
--   Pending.
-- - Task/Progress: software/core/task/progress_state.py, with Bounds.
-- - Task/Proxy: software/core/task/proxy_state.py, with Cooldown.
-- - Task/Terminal: the terminal stop of software/core/task/task_context.py.
-- - Task/Prefill: the prefilled answers of software/core/task/task_context.py, with Lookups.
-- - ReverseFill/Parser: the parsers of answers of software/core/reverse_fill/parser.py, with InRange.
--   How a cell reads as text, as a label and as a number is a parameter.
-- - ReverseFill/Sources: the columns, entries and issues of software/core/reverse_fill/schema.py,
--   parser.py and runtime.py.
-- - Engine/StopPolicy: software/core/engine/run_stop_policy.py and failure_reason.py, with Frames,
--   Target, Failures, Histories, Resources and Settling.
-- - Engine/Scheduler: software/core/engine/async_scheduler.py, with Tokens, Waking and Closing. A session
--   acquires a token for each round and releases it once, at the end of the round
--   (software/core/engine/async_runtime_loop.py); the heap is a list in the order of its elements.
-- - Engine/Round: software/core/engine/async_round_resources.py and the stop check of
--   software/core/engine/async_runtime_loop.py, with Holding, Passes and Outcomes.
-- - Engine/Errors: software/core/engine/runtime_error_handlers.py, with Settled.
-- - Engine/Session: the loop of a session in software/core/engine/async_runtime_loop.py, cut at the
--   points where it waits. Failing is what follows a submission, with the pool of
--   software/network/session_policy.py; Steps is the session as a machine, of which each step starts from
--   any world. A stop signal that is set through software/core/engine/async_events.py is only scheduled
--   until the event loop has its turn. Unique, Empty, Turns, Sound and Ends hold the proofs. That the
--   steps of one session leave another's resources alone is not stated.
-- - Questions/Rules: the condition rules of software/core/questions/consistency.py as the settings give
--   them, with Sorting and Normal.
-- - Questions/Consistency: the rest of that file, with the record of given answers of
--   software/core/persona/context.py: Kept (the rules of a run), Picked (the deciding rule), Applied
--   (what it does to the weights) and Applied/Obeyed.
-- - Questions/Weights: the tests for a strict ratio in software/core/questions/strict_ratio.py, with
--   Ending. The search through nested weights has fuel; Ending says how much is enough.
-- - Questions/Ratio: the draw without replacement of the same file, with
--   Sampled. Questions/Guard: the zero-weight guard of software/core/questions/tendency.py, with Nearest.
-- - Questions/Ordinal: software/core/psychometrics/ordinal_options.py, with Scale. What goes by regular
--   expressions and word lists is a parameter.
-- - The Examples modules apply the results to small runs; Task/Samples, Engine/Samples and
--   Questions/Consistency/Samples hold their data.
--
-- Functions keep the names of the methods. A method takes the state and returns the new one with its
-- result. What a method does under the lock is one step, and a history of operations is a list of
-- such steps in any order, so that a result about all lists is one about all interleavings of the
-- threads. Times are clock ticks and are arguments. Settings that a user may set below 0 are
-- integers; counters that start at 0 and only grow are natural numbers. A dict is an association
-- list in the order of insertion, a set a list without repetition. Weights, which are floating-point
-- numbers in the program, are natural numbers of some unit where only their order and their sums
-- count; random numbers are arguments. All loops run over a list or down a number; the printing of a
-- number in decimal has the number itself as fuel, which is more than its digits need.
--
-- Not modelled: the waiting on condition variables and asyncio events, logging, the notices to the
-- user interface, and the fields of the state and the settings that the modelled methods do not
-- read. The number at the end of a thread's name is read in ASCII digits without underscores.
-- The submission itself is an outcome that a session is given. The survey providers, the settings
-- codec, the rest of the network and the user interface are not modelled, nor are the values that a
-- weight may have in floating point only (NaN and the infinities).
mod Common
pub mod Task
pub mod ReverseFill
pub mod Engine
pub mod Questions
