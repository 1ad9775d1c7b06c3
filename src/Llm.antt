-- ===== src/Llm.antt =====
-- The LLM client of backend/app/llm: reliability primitives and the provider chain.
pub mod Breaker
pub mod Quota
pub mod Budget
pub mod Types
pub mod Reidentify
pub mod Attempts
pub mod Prompt
pub mod Client
mod Tests
