-- ===== src/Tests.antt =====
-- Runs of the development's theorems and definitions on small concrete inputs.
mod Scanner
mod Policy
mod Fleet
mod Kev
mod Quarantine
mod Suppressions
mod Relevance
mod Userns
mod Remap
mod Release
