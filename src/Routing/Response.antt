-- ===== src/Routing/Response.antt =====
-- runtime-response-validator.ts: the rules on the answer of a provider, and the verdict.
pub mod Words
pub mod Recency
pub mod Scans
pub mod Validator
pub mod Verdicts
pub mod Accepted
pub mod Bounded
