-- ===== src/Tests.antt =====
-- Runs of the definitions on concrete inputs, and the theorems applied to such inputs.
pub mod Plans
pub mod Channel
pub mod Server
pub mod Models
pub mod Connections
pub mod Desktop
pub mod Jobs
