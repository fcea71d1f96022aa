-- ===== src/Llm.antt =====
-- src/llm: the provider-independent types, the event-stream parser and the OpenAI client.
pub mod Sse
pub mod Types
pub mod Response
pub mod Request
pub mod Client
pub mod Http
pub mod Stream
pub mod Retry
