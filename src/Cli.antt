-- ===== src/Cli.antt =====
-- src/bin/animus.rs: the commands of the operator.
pub mod Failure
pub mod Prompt
pub mod Output
pub mod Llm
pub mod Show
pub mod Work
pub mod Item
pub mod Serve
pub mod Main
