-- ===== src/Modeld/Circuit.antt =====
-- ale-modeld/src/scheduler.rs: `remote_plan` with the circuit of the primary endpoint, and
-- `configure_remote`. The endpoints' calls, the deadline and the clock are parameters: the calls
-- under a deadline as `retry` makes them, and what it then returns.
pub mod Failover
pub mod Tripping
use ale_my_eyes_desktop.Prelude.{
  ℕ, zero, suc, ◌+◌, ◌-◌, ◌*◌, ◌/◌, ◌^◌, Bool, true, false, not, ◌&&◌, Option, none, some, is_some,
  List, [], ◌∷◌, ltb, leb, ◌==◌, if◌then◌else◌, min, max,
}
use ale_my_eyes_desktop.Prelude.Result.{Result, ok, err}
use ale_my_eyes_desktop.Modeld.Retry.{Attempt, AleError, is_transient, retry}

-- Times in milliseconds.
pub record CircuitState : Type 0 where
  pub revision : ℕ
  pub consecutive_failures : ℕ
  pub open_until : Option ℕ

pub record RemoteProviderSet (Endpoint : Type 0) : Type 0 where
  pub transcription : Option Endpoint
  pub revision : ℕ
  pub primary : Endpoint
  pub backup : Option Endpoint
  pub backup_enabled : Bool
  pub backup_pre_authorized : Bool
  pub circuit_failure_threshold : ℕ
  pub circuit_open_seconds : ℕ

abbrev pub fresh_circuit : ℕ → CircuitState
fresh_circuit revision = record { revision = revision; consecutive_failures = 0; open_until = none }

-- `open_until.is_some_and(|until| until > now)`
abbrev pub open_at : Option ℕ → ℕ → Bool
open_at none now = false
open_at (some until) now = ltb now until

abbrev pub saturating_add : ℕ → ℕ → ℕ
saturating_add a b = min (a + b) (2 ^ 32 - 1)

pub data RemoteEndpointRole : Type 0 where
  primary backup : RemoteEndpointRole

pub data IpcReply (Response : Type 0) : Type 0 where
  planned : Response → RemoteEndpointRole → (failover_notice : Bool) → IpcReply Response
  configured : IpcReply Response
  invalid_remote_job screenshot_not_authorized remote_not_configured : IpcReply Response
  primary_remote_rejected remote_failed primary_remote_failed : IpcReply Response
  invalid_remote_config backup_not_authorized : IpcReply Response

module _ {Endpoint : Type 0} where
  abbrev pub primary_open : CircuitState → RemoteProviderSet Endpoint → (now : ℕ) → Bool
  primary_open c p now = (c.revision == p.revision) && open_at c.open_until now

  -- The circuit after an answer of the primary endpoint.
  unfoldable pub note_success : CircuitState → RemoteProviderSet Endpoint → CircuitState
  note_success c p = if c.revision == p.revision then fresh_circuit c.revision else c

  -- The circuit after a transient error of the primary endpoint.
  unfoldable pub note_failure : CircuitState → RemoteProviderSet Endpoint → (now : ℕ) → CircuitState
  note_failure c p now =
      let failures = saturating_add c.consecutive_failures 1 in
      let until =
        if leb (max p.circuit_failure_threshold 1) failures
        then some (now + 1000 * max p.circuit_open_seconds 1)
        else c.open_until in
      if c.revision == p.revision
      then record { revision = c.revision; consecutive_failures = failures; open_until = until }
      else c

  unfoldable pub has_backup : RemoteProviderSet Endpoint → Bool
  has_backup p = p.backup_enabled && (p.backup_pre_authorized && is_some p.backup)

  abbrev pub primary_retries : RemoteProviderSet Endpoint → ℕ
  primary_retries p = if has_backup p then 0 else 1

  abbrev pub primary_deadline : RemoteProviderSet Endpoint → (now deadline : ℕ) → ℕ
  primary_deadline p now deadline = if has_backup p then now + (deadline - now) / 2 else deadline

  -- `configure_remote`, on what the request's bytes are read as.
  unfoldable pub configure_remote :
      {R : Type 0}
      → Option (RemoteProviderSet Endpoint)
      → CircuitState × Option (RemoteProviderSet Endpoint)
      → (CircuitState × Option (RemoteProviderSet Endpoint)) × IpcReply R
  configure_remote none s = (s, invalid_remote_config)
  configure_remote (some p) s =
      if p.backup_enabled && not (p.backup_pre_authorized && is_some p.backup)
      then (s, backup_not_authorized)
      else ((fresh_circuit p.revision, some p), configured)

-- What a planning job and the world around it are to `remote_plan`: when it starts and its
-- deadline, the circuit as it finds it then and as it finds it after the primary endpoint's call
-- (another job may have come between), when that is, and each endpoint's attempts.
pub record Scene (Endpoint Response : Type 0) : Type 0 where
  pub has_image : Bool
  pub allow_full_screenshot : Bool
  pub now : ℕ
  pub deadline : ℕ
  pub before : CircuitState
  pub after : CircuitState
  pub noted_at : ℕ
  pub primary_calls : ℕ → Attempt Response
  pub backup_calls : ℕ → Attempt Response

-- The circuit as it leaves it, its answer, and how many calls it made of each endpoint.
pub record Planned (Response : Type 0) : Type 0 where
  pub circuit : CircuitState
  pub reply : IpcReply Response
  pub to_primary : ℕ
  pub to_backup : ℕ

abbrev pub refuse : {Response : Type 0} → CircuitState → IpcReply Response → Planned Response
refuse c r = record { circuit = c; reply = r; to_primary = 0; to_backup = 0 }

module _ {Endpoint Response : Type 0} where
  -- The end of `remote_plan`, once the primary endpoint is open or has failed.
  unfoldable pub fall_back :
      RemoteProviderSet Endpoint
      → Scene Endpoint Response
      → CircuitState
      → (made : ℕ) → Planned Response
  fall_back p s c made =
      if has_backup p
      then (let (result, n) = retry s.deadline 0 s.backup_calls in
          elim result [
            | ok r ↦ record {
              circuit = c;
              reply = planned r backup true;
              to_primary = made;
              to_backup = n;
            }
            | err e ↦ record {
              circuit = c;
              reply = remote_failed;
              to_primary = made;
              to_backup = n;
            }
          ])
      else record { circuit = c; reply = primary_remote_failed; to_primary = made; to_backup = 0 }

  unfoldable pub call_primary :
      RemoteProviderSet Endpoint → Scene Endpoint Response → Planned Response
  call_primary p s =
      let (result, made) =
        retry (primary_deadline p s.now s.deadline) (primary_retries p) s.primary_calls in
      elim result [
        | ok r ↦ record {
          circuit = note_success s.after p;
          reply = planned r primary false;
          to_primary = made;
          to_backup = 0;
        }
        | err e ↦
            if is_transient e
            then fall_back p s (note_failure s.after p s.noted_at) made
            else record {
              circuit = s.after;
              reply = primary_remote_rejected;
              to_primary = made;
              to_backup = 0;
            }
      ]

  -- `remote_plan`: whether the payload is a planning job, and the providers configured.
  unfoldable pub remote_plan :
      (readable : Bool)
      → Option (RemoteProviderSet Endpoint)
      → Scene Endpoint Response
      → Planned Response
  remote_plan false providers s = refuse s.before invalid_remote_job
  remote_plan true none s = refuse s.before (
      if s.has_image && not s.allow_full_screenshot
      then screenshot_not_authorized
      else remote_not_configured)
  remote_plan true (some p) s =
      if s.has_image && not s.allow_full_screenshot
      then refuse s.before screenshot_not_authorized
      else if primary_open s.before p s.now
      then fall_back p s s.before 0
      else call_primary p s
