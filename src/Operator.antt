-- ===== src/Operator.antt =====
-- src/risi/operator: the operator's contracts, and the authorization of a run.
pub mod Models
pub mod Limits
pub mod Safety
