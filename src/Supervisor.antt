-- ===== src/Supervisor.antt =====
-- ale-gui/src/modeld.rs: `SupervisedModeldClient`, which starts ale-modeld, watches it, and starts it
-- again. An instance is known by its number. The process, its answers and the clock are parameters;
-- a request keeps the client that it began with, which is left out. Times are in milliseconds.
pub mod Budget
pub mod Wellness
pub mod Runs
pub mod Starting
use ale_my_eyes_desktop.Prelude.{
  ℕ, suc, ◌+◌, ◌-◌, ◌*◌, ◌^◌, Bool, true, false, not, ◌&&◌, ◌||◌, Option, none, some, ltb, leb,
  ◌==◌, min, max, if◌then◌else◌,
}
use ale_my_eyes_desktop.Prelude.Text.{Text, codes}
use ale_my_eyes_desktop.Prelude.Result.{Result, ok, err}

abbrev pub max_consecutive_process_failures : ℕ
max_consecutive_process_failures = 3

module _ (Config Health : Type 0) where
  pub record SupervisorState : Type 0 where
    pub retired : Option ℕ
    pub health_failures : ℕ
    pub healthy_since : Option ℕ
    pub next_start : ℕ
    pub last_health : Option (ℕ × Result Text Health)
    pub revision : ℕ
    pub config : Config
    pub client : Option ℕ
    pub consecutive_failures : ℕ
    pub restart_blocked : Bool
    pub last_error : Option Text

-- What a connection finds: the clock, which instances are alive and which are seen to exit when they
-- are terminated, and how a start ends, and when.
pub record World : Type 0 where
  pub now : ℕ
  pub alive : ℕ → Bool
  pub exits : ℕ → Bool
  pub start : Result Text ℕ
  pub start_ends : ℕ

unfoldable pub confirm_exit : World → Option ℕ → Bool
confirm_exit w none = true
confirm_exit w (some instance_id) = w.exits instance_id

abbrev pub is_current : Option ℕ → ℕ → Bool
is_current none instance_id = false
is_current (some current) instance_id = current == instance_id

abbrev pub since_or : Option ℕ → ℕ → ℕ
since_or none now = now
since_or (some since) now = since

module _ {Config Health : Type 0} where
  -- The counter is a `u8` that stops at its greatest.
  unfoldable pub record_process_failure :
      SupervisorState Config Health → (now : ℕ) → Text → SupervisorState Config Health
  record_process_failure s now error =
      let failures = min (s.consecutive_failures + 1) 255 in
      record s {
        consecutive_failures = failures;
        last_error = some error;
        next_start = now + 1000 * 2 ^ min (failures - 1) 2;
        restart_blocked = s.restart_blocked || leb max_consecutive_process_failures failures;
      }

  -- `SupervisedModeldClient::start`, by how the first start ends.
  unfoldable pub start_supervisor :
      Config → Result Text ℕ → (now : ℕ) → SupervisorState Config Health
  start_supervisor config first now = record {
    retired = none;
    health_failures = 0;
    healthy_since = none;
    next_start = now;
    last_health = none;
    revision = 0;
    config = config;
    client = elim first [ ok instance_id ↦ some instance_id | err e ↦ none ];
    consecutive_failures = elim first [ ok instance_id ↦ 0 | err e ↦ 1 ];
    restart_blocked = false;
    last_error = elim first [ ok instance_id ↦ none | err e ↦ some e ];
  }

  -- A client that is not alive is taken out.
  unfoldable pub retire_dead : World → SupervisorState Config Health → SupervisorState Config Health
  retire_dead w s = elim s.client [
    | none ↦ s
    | some instance_id ↦
        record_process_failure (record s { client = none; retired = some instance_id }) w.now
          (codes "模型调度器进程已退出")
  ]

  -- The start of a process, not before `next_start`, with when it is.
  unfoldable pub start_process :
      World
      → SupervisorState Config Health
      → SupervisorState Config Health × (Result Text ℕ × Option ℕ)
  start_process w s = elim w.start [
    | ok instance_id ↦ (
      record s {
        client = some instance_id;
        health_failures = 0;
        healthy_since = none;
        last_health = none;
      },
      (ok instance_id, some (max w.now s.next_start)),
    )
    | err e ↦ (record_process_failure s w.start_ends e, (err e, some (max w.now s.next_start)))
  ]

  -- The rest of `connection`, when no client is alive.
  unfoldable pub restart :
      World
      → SupervisorState Config Health
      → SupervisorState Config Health × (Result Text ℕ × Option ℕ)
  restart w s =
      let t = retire_dead w s in
      if not (confirm_exit w t.retired)
      then (t, (err (codes "MODELD_PREVIOUS_EXIT_UNCONFIRMED"), none))
      else if t.restart_blocked
      then (record t { retired = none }, (err (codes "MODEL_SCHEDULER_RESTART_BLOCKED"), none))
      else start_process w (record t { retired = none })

  -- `connection`, with when it starts a process, if it does.
  unfoldable pub connection :
      World
      → SupervisorState Config Health
      → SupervisorState Config Health × (Result Text ℕ × Option ℕ)
  connection w s = elim s.client [
    | none ↦ restart w s
    | some instance_id ↦ if w.alive instance_id then (s, (ok instance_id, none)) else restart w s
  ]

  -- After each request, by the client that it was sent to.
  unfoldable pub record_result :
      SupervisorState Config Health
      → (instance_id : ℕ) → (succeeded alive : Bool) → (now : ℕ) → SupervisorState Config Health
  record_result s instance_id succeeded alive now =
      if is_current s.client instance_id && not succeeded && not alive
      then record_process_failure (record s { retired = s.client; client = none }) now
          (codes "模型调度器连接已关闭")
      else s

  unfoldable pub note_healthy :
      SupervisorState Config Health → (now since : ℕ) → SupervisorState Config Health
  note_healthy s now since =
      if leb 60000 (now - since)
      then record s {
        health_failures = 0;
        healthy_since = some since;
        consecutive_failures = 0;
        last_error = none;
      }
      else record s { health_failures = 0; healthy_since = some since }

  -- The critical section of `health` after the answer of a client.
  unfoldable pub note_health :
      SupervisorState Config Health
      → (instance_id : ℕ) → Result Text Health
      → (alive : Bool) → (now : ℕ) → SupervisorState Config Health
  note_health s instance_id (ok h) alive now =
      if not (is_current s.client instance_id)
      then s
      else note_healthy (record s { last_health = some (now, ok h) }) now
          (since_or s.healthy_since now)
  note_health s instance_id (err e) alive now =
      let failures = min (s.health_failures + 1) 255 in
      let t = record s {
        last_health = some (now, err e);
        healthy_since = none;
        health_failures = failures;
      } in
      if not (is_current s.client instance_id)
      then s
      else if leb 3 failures || not alive
      then record_process_failure (record t { retired = s.client; client = none }) now
          (codes "MODELD_UNRESPONSIVE")
      else t

  -- `update_config`, by whether the client acknowledges it, and is seen to exit if it does not.
  unfoldable pub update_config :
      SupervisorState Config Health
      → Config
      → (acknowledged exited : Bool) → SupervisorState Config Health × Bool
  update_config s config acknowledged exited =
      let committed = record s {
        config = config;
        revision = suc s.revision;
        restart_blocked = false;
        consecutive_failures = 0;
        health_failures = 0;
        healthy_since = none;
        last_health = none;
        last_error = none;
      } in
      elim s.client [
        | none ↦ (committed, true)
        | some instance_id ↦ if acknowledged then (committed, true) else (
          record s {
            client = none;
            last_health = none;
            retired = if exited then s.retired else some instance_id;
          },
          false,
        )
      ]

  unfoldable pub retry_after_user_request :
      SupervisorState Config Health → SupervisorState Config Health
  retry_after_user_request s =
      if s.restart_blocked
      then record s {
        client = none;
        consecutive_failures = 0;
        restart_blocked = false;
        last_error = none;
      }
      else s
