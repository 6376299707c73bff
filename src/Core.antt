-- ===== src/Core.antt =====
-- The parts of src/core that do not call Windows themselves.
pub mod Paths
pub mod Files
pub mod SecureFs
pub mod Process
mod Examples
