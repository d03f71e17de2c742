-- ===== src/Release.antt =====
-- src/boxmunge: the installation of a release. The install transaction, the release that it keeps
-- for a rollback, and the choice of the release that the platform upgrades itself to.
pub mod Txn
pub mod Keep
pub mod Selection
