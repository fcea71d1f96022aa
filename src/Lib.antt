-- ===== src/Lib.antt =====
-- The verification library of animus-rs, a work engine: items are submitted to a queue in Postgres,
-- claimed by a control plane, executed by the hooks of a faculty, and retired; a client for
-- language models with server-sent events stands beside it.
--
-- Parts and files:
--   * Work: src/model/work.rs. `State` with `can_transition_to`, `is_terminal`, `show` (Display)
--     and `parse` (FromStr) in Work/State, the life cycle as a diagram in Work/State/Graph, the
--     records `WorkItem` and `NewWorkItem` with its builder in Work/Item.
--   * Db: src/db and src/error.rs. Db/Table is the table work_items with the keys of
--     migrations/*.sql; Db/Session is the connection: a monad over `World` (rows, queues,
--     notifications sent, metrics recorded) in which every statement may fail, as the list `faults`
--     says, and in which a transaction that is not committed is undone. Db/Rows has the rows as
--     items and the SET of each statement, Db/Work the operations of src/db/work.rs (Db/Work/Steps is
--     the step relation that they refine, Db/Work/Calls what any number of processes may call),
--     Db/Queue those of src/db/pgmq.rs, Db/Connection those of src/db/mod.rs. The extension pgmq is
--     the interface Db/Pgmq.
--   * Engine: Engine/Focus is src/engine/focus.rs, with the operating system as the interface
--     Engine/Host; Engine/Faculty is src/faculty/mod.rs, with the directory read and the TOML
--     parser as arguments; Engine/Control is `process_work` of src/engine/control.rs over these and
--     Db, and Engine/Control/Loop its `run`, a loop over the events that wake it.
--   * Llm: src/llm. Sse is sse.rs, Types is types.rs and error.rs, and Request, Response, Http,
--     Retry and Stream are openai.rs; Client is mod.rs.
--   * Config: src/config/mod.rs, over an environment that is a function.
--   * Cli: src/bin/animus.rs. Cli/Prompt and Cli/Output have the prompts and the output formats,
--     Cli/Llm and Cli/Show the command `llm complete` up to its call and from there on, Cli/Work
--     the commands `work submit` and `work list`, Cli/Item `work show`. What is printed is a list
--     of texts or of outputs; Cli/Serve has `work` on its database and `cmd_serve`, Cli/Main `main`.
--     Tera, the file system and the formatting of times are arguments.
--   * Telemetry: src/telemetry/mod.rs over the interface Telemetry/Crates of its libraries, and the
--     instruments of metrics.rs; Telemetry/Spans is genai.rs and work.rs. What the
--     other parts count is the list `metrics` of `World`.
--   * Memory: src/model/memory.rs and src/memory. Entry has the records and the interface Ranking
--     of floating-point numbers, pgvector and full-text search; Store has the three operations, and the
--     interface Scan of the rows that the server visits for a vector search, along its approximate
--     index or not.
--   * Json is the interface of serde_json, Prelude the shared helpers; Tests runs the model on
--     concrete inputs. Json/Model, Db/Pgmq/Model and Telemetry/Model show that the interfaces can
--     be met.
--
-- How the code is read: a text is the list of its UTF-8 bytes. A UUID is its 128-bit number and a
-- time a number of microseconds; new UUIDs and the clock are arguments. Casts between 32-bit and
-- 64-bit integers wrap (Prelude/Int). An error of a library that the code passes on is its message.
-- A failing statement outside a transaction has changed nothing. What `tx` receives is a list of
-- events in order; log lines and spans have no effect. `process_work` runs alone on its counter;
-- between two rounds others may change the database. Each operation of Db runs alone, but for
-- `merge_amid` (Db/Work/Submit/Overlap), the part of `submit_work` behind a conflict with what other
-- processes commit between its statements; alone, it is the transaction of `merge`.
--
-- Bounds: `drain` (the loop of `feed`) has the length of the buffer as fuel, and each event takes
-- two bytes off; `complete_loop` has `max_retries + 1` as fuel, one for each request. The theorems
-- on them hold for this fuel with no further condition.
--
-- Not modelled: the argument parser of the command line, which is generated, and the schema but for
-- the constraints of the tables. A memory that is stored without an embedding does not occur, since
-- no operation stores one. The count of attempts is not bounded by its column, an INTEGER: it is
-- raised when an item starts, which the program does once at most.
pub mod Prelude
pub mod Json
pub mod Work
pub mod Db
pub mod Config
pub mod Cli
pub mod Memory
pub mod Llm
pub mod Engine
pub mod Telemetry
pub mod Tests
