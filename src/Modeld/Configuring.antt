-- ===== src/Modeld/Configuring.antt =====
-- ale-modeld/src/scheduler.rs: `configure_scheduler`, which sets the remote providers and the local
-- models as one revision.
use ale_my_eyes_desktop.Prelude.{
  ℕ, suc, ◌≡◌, Bool, true, false, not, ◌&&◌, ◌||◌, Option, none, some, is_some, ◌==◌, if◌then◌else◌,
  arith,
}
use ale_my_eyes_desktop.Modeld.Circuit as Circuit
use ale_my_eyes_desktop.Modeld.Circuit.{CircuitState, RemoteProviderSet, fresh_circuit, configured}
use ale_my_eyes_desktop.Modeld.Health as Health
use ale_my_eyes_desktop.Modeld.Health.{Monitor, refresh_health}

pub record SchedulerConfiguration (Config Endpoint : Type 0) : Type 0 where
  pub revision : ℕ
  pub providers : RemoteProviderSet Endpoint
  pub models : Config

-- The fields of `ModelScheduler` that are configured; times in seconds.
pub record ModelScheduler (Config Endpoint GpuDevice Code : Type 0) : Type 0 where
  pub circuit : CircuitState
  pub remote : Option (RemoteProviderSet Endpoint)
  pub monitor : Monitor Config GpuDevice Code

abbrev pub is_configured : {R : Type 0} → Circuit.IpcReply R → Bool
is_configured configured = true
is_configured other = false

module _ {Config Endpoint GpuDevice Code : Type 0} where
  -- On what the request's payload is read as, with whether it is accepted. That the running model is
  -- told (`llama.reconfigure`) is left out.
  unfoldable pub configure_scheduler :
      ModelScheduler Config Endpoint GpuDevice Code
      → Option (SchedulerConfiguration Config Endpoint)
      → (now : ℕ) → ModelScheduler Config Endpoint GpuDevice Code × Bool
  configure_scheduler s none now = (s, false)
  configure_scheduler s (some config) now =
      let p = config.providers in
      if not (p.revision == config.revision)
        || (p.backup_enabled && (not p.backup_pre_authorized || not (is_some p.backup)))
      then (s, false)
      else (
        record {
          circuit = fresh_circuit config.revision;
          remote = some p;
          monitor =
              refresh_health
                (record {
                  models = some config.models;
                  probing = s.monitor.probing;
                  cache = record s.monitor.cache {
                    attempt = none;
                    generation = suc s.monitor.cache.generation;
                  };
                })
                true now;
        },
        true,
      )

  -- `configure_remote` on the same providers: what it leaves, and whether it accepts them.
  abbrev pub remotely :
      ModelScheduler Config Endpoint GpuDevice Code
      → RemoteProviderSet Endpoint
      → (CircuitState × Option (RemoteProviderSet Endpoint)) × Circuit.IpcReply (Unit {0})
  remotely s p = Circuit.configure_remote (some p) (s.circuit, s.remote)

  -- The configuration of both is accepted just when its revision is that of its providers and
  -- `configure_remote` accepts them; it then leaves what `configure_remote` and `configure_models`
  -- leave, and otherwise nothing changes.
  pub configure_scheduler-both :
      (s : ModelScheduler Config Endpoint GpuDevice Code)
      (config : SchedulerConfiguration Config Endpoint) (now : ℕ)
      → configure_scheduler s (some config) now ≡ (
          if (config.providers.revision == config.revision)
            && is_configured (remotely s config.providers).1
          then (
            record {
              circuit = (remotely s config.providers).0.0;
              remote = (remotely s config.providers).0.1;
              monitor = Health.configure_models s.monitor config.models now;
            },
            true,
          )
          else (s, false))
  unfolding configure_scheduler Circuit.configure_remote Health.configure_models
  configure_scheduler-both s config now = ground arith
