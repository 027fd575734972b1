-- ===== src/Modeld.antt =====
-- ale-modeld, the process that runs the models, and what it uses of ale-core: how the process is
-- reached (model_ipc.rs), which jobs it admits (main.rs), how remote models are called again
-- (model_api.rs), and the failover between them and the health of the runtime (scheduler.rs).
-- An instant is a number of milliseconds, and so is a duration, except in Health.
pub mod Ipc
pub mod Admission
pub mod Retry
pub mod Circuit
pub mod Health
pub mod Jobs
pub mod Running
pub mod Configuring
