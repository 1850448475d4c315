-- ===== src/Lib.antt =====
-- uv-agent: the turn supervisor, the patch engine, the compaction of conversations, the capture of
-- output, the bus of host events, the scheduler, the locks, the goals of threads on the storage of
-- plugins, and the edits of whole lines.
--
-- uv-agent is a coding agent: a host submits user messages as turns, the engine runs a turn with a
-- model, and the model acts through Python scripts that call a runtime library. The development
-- models ten parts of it.
--
-- Turns (src/uv_agent/turn_manager.py). The supervisor takes requests for turns, runs at most one
-- turn of a thread at a time, and treats a request for a busy thread by its conflict policy.
--   Turns/Handle: `TurnHandle`, and what `_run_handle` and `_mark_merged` do to it.
--   Turns/Thread: `_ThreadState`, the locked sections of `submit_turn` (submit), `_thread_worker`
--     (choose, settle) and the helpers with the suffix `_locked`. Handles live in a store, and a
--     reference to one is its number there, so that aliasing is as in the source.
--   Turns/Steps: the interleavings of submissions, engine events and worker sections as a relation;
--     Turns/Invariant, with its child, is what holds in each reachable thread, and Turns/Line the
--     order of the handles that wait.
--   Turns/Accounted: no handle that was accepted is lost. Its children are about the handles that
--     merge and about submissions.
--   Turns/Drain: the loop of `_thread_worker` on fuel; more fuel than handles left is enough.
--   Turns/Pending, Turns/Signals, Turns/Streams: the texts that wait, the events of the running
--     handle, and the streams of events.
--   Turns/Manager: `TurnManager` with `submit_turn` and `aclose`.
--   The identifier that `new_id` makes is an argument. The semaphore is not modelled: a handle that
--   waits for it is a running one whose first event has not come. The engine is what it sends: any
--   sequence of events and any outcome. A request with no thread is recorded, and its run, which no
--   other run touches, is not modelled; nor is logging.
--
-- Patch (src/uv_agent_runtime/patch.py). A patch in an envelope is parsed into file operations, which
-- are validated against a staging dictionary and then written.
--   Patch/Error: the exceptions, one for each place that raises.
--   Patch/Parse: `_parse_patch`. The parser walks the lines that are left, where the source counts an
--     index; its fuel is one more than the number of lines, which Patch/Parse/Fuel shows to be enough.
--     Patch/Parse/Render writes patches, and Loops and Roundtrip read them back.
--   Patch/Hunks: `_apply_hunks`, with the search (Search), the replacement (Sides, Bodies), and a last
--     line with no line end (Unterminated).
--   Patch/Disk: the file system, a parameter: a record of operations, with a record of laws that say
--     what they do to what stands at the canonical paths: files with a text, files that cannot be read
--     as one, and directories. Paths are texts.
--   Patch/Apply: `_apply_ops` with its staging dictionary. Spec is the meaning of a patch with no
--     staging; Staging, Keys and Writes relate the two; Parents is the loop that removes empty
--     directories, whose fuel is one more than the length of the path.
--   Patch/Envelope: `apply_patch`, `dry_run_patch` and the report. The text of an exception is a
--     parameter, since Python and the file system compose parts of it.
--   Lines of a hunk with no prefix are refused by the parser, and skipped by the functions behind it.
--
-- Compaction (src/uv_agent/agent/compaction.py). When a conversation grows too long for its model, the
-- engine replaces it by one message with a summary and a part of the history.
--   Compaction/Item: the items of a model's input, the prompt texts, which are a parameter, and the
--     helpers on texts; with `message_item` of src/uv_agent/agent/messages.py and `xml_text` of
--     src/uv_agent/agent/context_builder.py.
--   Compaction/Judge: the exchange that asks the model whether to compact, and its removal (Filter).
--     `json.loads` is a parameter: the keys of the object that a text stands for.
--   Compaction/Retain: the selections of the history that is kept, with `estimate_tokens` of
--     src/uv_agent/context.py; `json.dumps` is a parameter. Budget and Ending are about what a
--     selection keeps; Merge, with Longest and Sorted, about the union of both selections. A negative
--     number of tokens is zero here.
--   Compaction/Handoff: the replacement, and the reading of one that is stored (Stable).
--   Not modelled of it: the net gain, which is computed in floating point, and the items that ask the
--   model for a judgement or a summary.
--
-- Output (src/uv_agent/runner/output.py). The standard output and error of a script are read in chunks
-- by two tasks that share one limit of bytes. Output models both as one sequence of chunks, each of one
-- stream, in any order; Output/Budget is about what is captured. The incremental decoder of Python is
-- a parameter, and no law is asked of it.
--
-- Events (src/uv_agent/host_events.py). The host publishes events to handlers and to the bus of the
-- plugins. What a handler does, to the bus too, is a parameter. Events/Delivery is about who gets an
-- event. The lock is not modelled: the bus is used by one caller at a time, and by its handlers.
--
-- Scheduler (src/uv_agent/builtin/scheduler/service.py). Schedules and their runs are kept in two
-- tables; a loop polls for the schedules that are due, advances them and starts tasks, which call actions.
--   Scheduler/Tables: the tables, as lists of rows, and the queries on them. An identifier is a number;
--     a time is the number of its microseconds, since the stored texts are ordered as the instants are;
--     a column of JSON holds the value that it stands for.
--   Scheduler/Params: the arguments of calls, with `_policy`, `_action` and `_timing`; Scheduler/Service:
--     `create`, `update`, `list`, `delete`; Service/Stored and Service/Timezone are about these.
--   Scheduler/Cron: `_next_cron`. `datetime`, `zoneinfo`, JSON, the resolver and the caller of actions
--     are parameters. Digits and signs are those of ASCII. The loop of
--     `_next_cron` is a recursion on the number of minutes that are tried. Cron/Search is about what it
--     finds, Cron/Items about single fields.
--   Scheduler/Due: `run_due_once`, with the overlap policies (Due/Overlap), the next times (Due/Advanced)
--     and the polling loop (Due/Blocked). A call takes all its time stamps at one time.
--   Scheduler/Runs: a run, from the beginning of its task to its end; what happens to the tables while
--     its action is awaited is a parameter, and so is how the action ends: with a value, an exception, or a
--     cancellation. Scheduler/Sound: sequences of all these steps.
--   The semaphore is not modelled: a task that waits for it has not begun.
--
-- Locks (src/uv_agent_runtime/lockfile.py). Locks between processes are files that are created
-- exclusively. Locks models the steps of any number of calls, which interleave in any order, on one
-- lock file; Locks/Exclusion and Locks/Races are about who holds the lock, without and with the removal
-- of stale files. What the file system refuses is an input of each step. The lengths of the sleeps are
-- not modelled.
--
-- Storage (src/uv_agent/plugins/storage.py). The collections of documents that plugins keep, with the
-- table of their indexes; what an index finds in a document is a parameter. Storage/Indexed is about
-- queries by an index. The tables of single values are not modelled.
--
-- Goal (src/uv_agent/builtin/goal/__init__.py). The goal of a thread, with its phase, notes and tasks,
-- which are documents of Storage. What the calls publish to threads is not modelled.
--
-- Textops (src/uv_agent_runtime/textops.py). `edit_lines` replaces lines of a file and keeps the style of
-- its line ends. A file is its decoded text; encodings, paths and the atomic write are not modelled, and
-- `re.search` is a parameter. Textops/Newlines is `_detect_newline_style` and `normalize_text`, and
-- Textops/Lines is about the lines that are written. Textops/Selection is the range of lines that
-- `read_file` reads.
--
-- Common holds what the parts share: texts as lists of code points, with the string methods that the
-- program calls (Text), `str.splitlines` (Lines), lists over native numbers (Lists), Boolean tests
-- (Tests), the outcome of calls that may raise (Outcome) and the clauses of SQL statements (Queries).
--
-- Not modelled: the engine and the clients of models, the session store, the rest of the runner,
-- the other plugins, the terminal interface, and the start of the host, which are I/O or are left for later.
mod Common
pub mod Turns
pub mod Patch
pub mod Compaction
pub mod Output
pub mod Events
pub mod Scheduler
pub mod Locks
pub mod Storage
pub mod Goal
pub mod Textops
