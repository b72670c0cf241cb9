-- ===== src/Web.antt =====
-- packages/citedelta/src/citedelta/web: the record of a conversation.
pub mod Transcript
