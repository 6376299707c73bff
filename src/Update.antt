-- ===== src/Update.antt =====
-- The updater (update/): the signed manifest and what it makes eligible.
pub mod Manifest
pub mod Eligibility
pub mod Activation
pub mod CheckService
mod Examples
pub mod StateStore
pub mod Package
pub mod Manager
