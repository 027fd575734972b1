-- ===== src/Modeld/Health.antt =====
-- ale-modeld/src/scheduler.rs: `HealthCache`, `refresh_health`, and what `configure_models` does to
-- it. The connection's task runs one of these at a time; only the probe runs beside it, and so its
-- end is a step of its own. What the probe finds is a parameter. Times are in seconds.
pub mod Probing
use ale_my_eyes_desktop.Prelude.{
  ℕ, zero, suc, ◌+◌, ◌-◌, ◌≤◌, Bool, true, false, not, ◌&&◌, ◌||◌, Option, none, some, is_some,
  List, [], ◌∷◌, leb, ◌==◌, if◌then◌else◌,
}
use ale_my_eyes_desktop.Prelude.Result.{Result, ok, err}

pub data ModelCapability : Type 0 where
  speech_recognition state_summary local_planning remote_planning : ModelCapability
  element_grounding state_verification speech_synthesis : ModelCapability

pub record HealthCache (GpuDevice Code : Type 0) : Type 0 where
  pub sampled : Option ℕ
  pub attempt : Option ℕ
  pub gpus : List GpuDevice
  pub capabilities : List ModelCapability
  pub error : Option Code
  pub generation : ℕ

-- The configuration that a probe was started with, and the generation it will write for.
pub record Probe (Config : Type 0) : Type 0 where
  pub runtime : Option Config
  pub generation : ℕ

-- What a probe finds.
pub record Found (GpuDevice Code : Type 0) : Type 0 where
  pub capabilities : List ModelCapability
  pub devices : Result Code (List GpuDevice)

-- The probe that runs is the flag `probing`, with what its task has captured.
pub record Monitor (Config GpuDevice Code : Type 0) : Type 0 where
  pub models : Option Config
  pub cache : HealthCache GpuDevice Code
  pub probing : Option (Probe Config)

pub data Event (Config : Type 0) : Type 0 where
  maintenance : ℕ → Event Config
  configure : Config → ℕ → Event Config
  probe_ends : ℕ → Event Config

-- `time.elapsed() >= Duration::from_secs(30)`, or no attempt yet.
abbrev pub is_due : Option ℕ → ℕ → Bool
is_due none now = true
is_due (some time) now = leb 30 (now - time)

abbrev pub note_devices :
    {GpuDevice Code : Type 0}
    → HealthCache GpuDevice Code
    → List ModelCapability
    → Result Code (List GpuDevice)
    → (now : ℕ) → HealthCache GpuDevice Code
note_devices c capabilities (ok devices) now = record c {
  capabilities = capabilities;
  gpus = devices;
  sampled = some now;
  error = none;
}
note_devices c capabilities (err code) now = record c {
  capabilities = capabilities;
  error = some code;
}

module _ {Config GpuDevice Code : Type 0} where
  abbrev pub start : Monitor Config GpuDevice Code
  start = record {
    models = none;
    probing = none;
    cache = record {
      sampled = none;
      attempt = none;
      gpus = [];
      capabilities = [];
      error = none;
      generation = 0;
    };
  }

  unfoldable pub refresh_health :
      Monitor Config GpuDevice Code → (force : Bool) → (now : ℕ) → Monitor Config GpuDevice Code
  refresh_health s force now =
      if not (force || is_due s.cache.attempt now) || is_some s.probing then s else record {
        models = s.models;
        cache = record s.cache { attempt = some now };
        probing = some (record { runtime = s.models; generation = s.cache.generation });
      }

  -- `configure_models`, on a configuration that could be read.
  unfoldable pub configure_models :
      Monitor Config GpuDevice Code → Config → (now : ℕ) → Monitor Config GpuDevice Code
  configure_models s config now =
      refresh_health
        (record {
          models = some config;
          probing = s.probing;
          cache = record s.cache { attempt = none; generation = suc s.cache.generation };
        })
        true now

  -- The end of the probe's task.
  unfoldable pub finish_probe :
      Monitor Config GpuDevice Code
      → Found GpuDevice Code
      → (now : ℕ) → Monitor Config GpuDevice Code
  finish_probe s found now = elim s.probing [
    | none ↦ s
    | some p ↦ record {
      models = s.models;
      probing = none;
      cache =
          if s.cache.generation == p.generation
          then note_devices s.cache found.capabilities found.devices now
          else record s.cache { attempt = none };
    }
  ]

  module _ (probe : Option Config → ℕ → Found GpuDevice Code) where
    unfoldable pub step :
        Monitor Config GpuDevice Code → Event Config → Monitor Config GpuDevice Code
    step s (maintenance now) = refresh_health s false now
    step s (configure config now) = configure_models s config now
    step s (probe_ends now) = elim s.probing [
      | none ↦ s
      | some p ↦ finish_probe s (probe p.runtime now) now
    ]

    unfoldable pub run :
        Monitor Config GpuDevice Code → List (Event Config) → Monitor Config GpuDevice Code
    run s [] = s
    run s (e ∷ es) = run (step s e) es
