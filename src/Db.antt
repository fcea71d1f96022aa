-- ===== src/Db.antt =====
-- src/db: the tables and queues in Postgres, and the operations on them. `Table` is the table of
-- work items with the statements that are sent to it, `Rows` its rows as items and how they change,
-- `Pgmq` the queue extension, `Session` the connection with its transactions, `Connection` how it
-- starts, and `Work` and `Queue` the operations of the source.
pub mod Connection
pub mod Pgmq
pub mod Queue
pub mod Rows
pub mod Session
pub mod Table
pub mod Work
