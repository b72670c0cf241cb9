-- ===== src/Eval.antt =====
-- packages/citedelta/src/citedelta/eval: the evaluation of the answer path.
pub mod Graders
mod Examples
