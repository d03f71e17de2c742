-- ===== src/Cve.antt =====
-- The CVE subsystem, src/boxmunge/cve/: from scan findings to what a project may keep running.
pub mod Scanner
pub mod Breaker
pub mod Kev
pub mod Hardening
pub mod Relevance
pub mod Suppressions
pub mod Policy
pub mod Alerting
pub mod Grace
pub mod SecurityPolicy
pub mod Quarantine
