-- ===== src/Answer.antt =====
-- packages/citedelta/src/citedelta/answer: from retrieved passages to an answer or a refusal.
pub mod Models
pub mod Validator
pub mod Gate
pub mod Prompt
pub mod Payload
pub mod Service
pub mod Resolve
pub mod Rerank
