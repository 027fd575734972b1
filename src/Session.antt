-- ===== src/Session.antt =====
-- ale-gui/src/remote_server.rs: the server that a paired phone talks to.
-- An instant is a number of milliseconds, and so is a duration.
pub mod PendingPlans
pub mod RateLimit
pub mod Pairing
pub mod Audio
pub mod Speech
pub mod Messages
pub mod Requests
pub mod Decisions
pub mod Handlers
pub mod Reports
pub mod Connection
