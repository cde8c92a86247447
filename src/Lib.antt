-- ===== src/Lib.antt =====
-- NexAU, an agent framework in Python: the parts that decide what an agent may do, who may work on
-- what, and which provider answers.
--
-- An agent's tools ask the permission checks before they run a command, open a path or a URL, or
-- call an MCP tool; a check returns, or raises a denial or a question to the user. The agents of a
-- team share a task board. Its operations run under a task lock, and both keep their rows in the
-- tables of a database engine, here the in-memory one. A watchdog wakes the leader of a team when
-- all agents idle, and a message bus carries what they tell each other. One agent runs at one place
-- at a time, under a lock that its heartbeat renews. Its messages are a list that is written to a log
-- of actions, from which they are loaded again; when they grow too long, a compaction shortens them.
-- Model calls go through a middleware that fails over to other providers.
--
-- The files, by the part of the program that they model (paths below nexau/archs):
--   Prelude and below        tests, lists, texts (a str is the list of its code points), and results:
--                            a method is a function from a state to the new state and its result or
--                            its exception, so what it did before it raised is kept.
--   Permissions              permissions/types.py. The checks of permissions/helpers.py:
--     Permissions/Split      `_split_shell_commands`
--     Permissions/Wrappers   `_strip_process_wrappers`, `_command_permission_key` and
--                            `_has_output_redirect`
--     Permissions/Shell      `_check_single_command`, `_check_shell_c_inner`,
--                            `check_shell_permission`
--     Permissions/Simple     `check_permission`, `check_path_permission`, `check_url_permission`,
--                            `check_mcp_permission`
--   Orm, Orm/Filters         session/orm/filters: the filters of dsl.py and `evaluate` of converter.py
--   Orm/Engine               session/orm/memory_engine.py: one table, an association list from
--                            primary keys to models; each method runs under the engine's lock and
--                            is one step
--   Session/TaskLock         session/task_lock_service.py, session/models/team_task_lock.py
--   Session/AgentLock        session/agent_lock_service.py, session/models/agent_lock.py; what other
--                            tasks do while `acquire` waits for the engine is an argument of it
--                            (`Others`), a function on the table for each wait
--   History/HistoryList      main_sub/history_list.py
--   History/Log, History/Load, History/Pairing
--                            session/agent_run_action_service.py: what writes the log and queries it,
--                            `load_messages`, and `_ensure_tool_use_paired`; the log is the list of its
--                            rows, the newest first. History/Messages: nexau/core/messages.py
--   Compaction, Compaction/SlidingWindow, Compaction/ToolResults
--                            main_sub/execution/middleware/context_compaction/compact_stratigies: the
--                            grouping of messages, sliding_window.py and compact_tool_result.py
--   Team/MessageBus          main_sub/team/message_bus.py, session/models/team_message.py
--   Team/Slug, Team/TaskBoard
--                            main_sub/team/task_board.py, session/models/team_task.py; `with_lock` is
--                            the `async with` around a method's body; `create_task` is in
--                            Team/TaskBoard/Creation, `list_tasks` in Team/TaskBoard/Listing
--   Team/Watchdog            main_sub/team/watchdog.py: its loop and the calls from outside as one
--                            sequence of events
--   ApplyPatch               tool/builtin/file_tools/apply_patch.py: where the chunks of an update
--                            apply to the lines of a file; ApplyPatch/Chunks: how a chunk is read
--   Failover                 main_sub/execution/middleware/llm_failover.py
--   Sandbox/Output           sandbox/output_utils.py: a pattern that `sub` removes is a function that
--                            says how many characters it takes; the loop over runs of lines goes
--                            through the lines once, counting those of the run still ahead
--
-- Fuel. `_check_single_command` calls itself for `sh -c`; the model bounds the depth by one more
-- than the length of the command, which is enough since an inner command is shorter than the one
-- around it (Permissions/Shell/Fuel). The loop of `_strip_process_wrappers` has as much fuel as there are
-- words, and each round drops one at least. Python's own recursion limit is not modelled.
-- `load_messages` reads pages until one is empty; its fuel is one more than the rows of the log, and
-- each page moves the cursor behind one row at least (History/Load/Pages).
-- `_chunked_summary` has fuel for two calls, since the summary of summaries is one chunk
-- (Compaction/SlidingWindow/Recursion).
--
-- Parameters. Code of Python's library is a parameter: `shlex.split`, `float`, `str.lower`,
-- `urlparse`, `fnmatch`, the table of `\d`, the matching of pathspec, and the clock, whose readings are arguments. The
-- calls of providers are functions that return or raise. The fingerprint of a message, SHA-256 of its
-- JSON, is a function into a type with an equality, which is assumed to tell messages apart.
--
-- Not modelled: the validators of pydantic on messages and blocks, whose values are taken as they are
-- built; floats and JSON columns as values of filters, LIKE, the sorting of `order_by`, the SQL engine, logging,
-- and an interleaving of two methods of the task board, whose bodies are taken to run one after
-- another. The rest of the sandboxes, transports, tracers, the agent loop, configuration and the command line
-- are I/O for the most part and have no model here.
pub mod Prelude
pub mod Permissions
pub mod Orm
pub mod Session
pub mod History
pub mod Compaction
pub mod Team
pub mod Failover
pub mod ApplyPatch
pub mod Sandbox
