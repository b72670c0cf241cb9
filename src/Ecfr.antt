-- ===== src/Ecfr.antt =====
-- packages/citedelta/src/citedelta/ecfr: the version records of the regulation.
pub mod Models
pub mod Timeline
