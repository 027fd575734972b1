-- ===== src/Supervisor/Budget.antt =====
-- modeld.rs, `SupervisedModeldClient`: how often ale-modeld is started again.
use ale_my_eyes_desktop.Prelude.{
  ℕ, ◌+◌, ◌-◌, ◌*◌, ◌≤◌, ◌≡◌, inl, inr, Bool, false, Option, none, some, is_some, ltb, leb,
  if◌then◌else◌, arith, Option-cases,
}
use ale_my_eyes_desktop.Prelude.Text.{Text}
use ale_my_eyes_desktop.Prelude.Result.{Result, ok, err, Result-cases}
use ale_my_eyes_desktop.Supervisor.{
  SupervisorState, World, record_process_failure, retire_dead, start_process, restart, connection,
  record_result, note_healthy, note_health, update_config, retry_after_user_request,
}

abbrev pub count : Option ℕ → ℕ
count none = 0
count (some at) = 1

module _ {Config Health : Type 0} where
  abbrev pub running : SupervisorState Config Health → ℕ
  running s = if is_some s.client then 1 else 0

  -- The starts that are left before the user is asked: a client that runs has used one up.
  abbrev pub left : SupervisorState Config Health → ℕ
  left s = 3 - (s.consecutive_failures + running s)

  -- Starts are blocked just after three failures, and then there is no client.
  abbrev pub IsCounted : SupervisorState Config Health → Type 0
  IsCounted s =
      (s.restart_blocked ≡ leb 3 s.consecutive_failures) × (s.consecutive_failures + running s ≤ 3)

  retire_dead-IsCounted :
      (w : World) (s : SupervisorState Config Health)
      → IsCounted s
      → IsCounted (retire_dead w s)
        × ((retire_dead w s).client ≡ none)
        × (left (retire_dead w s) ≡ left s)
  unfolding retire_dead record_process_failure
  retire_dead-IsCounted w s v = elim (Option-cases s.client) [
    | inl e ↦ ground arith
    | inr (i, e) ↦ ground arith
  ]

  -- Starts are paid for out of what is left.
  abbrev Spends : SupervisorState Config Health → SupervisorState Config Health → ℕ → Type 0
  Spends s s' starts = IsCounted s' × (left s' + starts ≤ left s)

  start_process-Spends :
      (w : World) (s : SupervisorState Config Health)
      → IsCounted s
      → s.client ≡ none
      → s.restart_blocked ≡ false
      → Spends s (start_process w s).0 (count (start_process w s).1.1)
  unfolding start_process record_process_failure
  start_process-Spends w s v c b = elim (Result-cases w.start) [
    | inl (e, h) ↦ ground arith
    | inr (i, h) ↦ ground arith
  ]

  restart-Spends :
      (w : World) (s : SupervisorState Config Health)
      → IsCounted s
      → Spends s (restart w s).0 (count (restart w s).1.1)
  unfolding restart
  restart-Spends w s v =
      let t = retire_dead w s in
      ground
        (arith, retire_dead-IsCounted w s v, start_process-Spends w (record t { retired = none }))

  pub connection-Spends :
      (w : World) (s : SupervisorState Config Health)
      → IsCounted s
      → Spends s (connection w s).0 (count (connection w s).1.1)
  unfolding connection
  connection-Spends w s v = ground (arith, restart-Spends w s v)

  pub record_result-Spends :
      (s : SupervisorState Config Health) (instance_id : ℕ) (succeeded alive : Bool) (now : ℕ)
      → IsCounted s
      → Spends s (record_result s instance_id succeeded alive now) 0
  unfolding record_result record_process_failure
  record_result-Spends s instance_id succeeded alive now v = ground arith

  -- Whether the failures in a row were forgotten.
  abbrev pub is_renewed : SupervisorState Config Health → SupervisorState Config Health → Bool
  is_renewed s s' = ltb s'.consecutive_failures s.consecutive_failures

  -- An observation gives starts back only by forgetting failures.
  pub note_health-IsCounted :
      (s : SupervisorState Config Health) (instance_id : ℕ) (r : Result Text Health) (alive : Bool)
      (now : ℕ)
      → IsCounted s
      → IsCounted (note_health s instance_id r alive now)
        × (left (note_health s instance_id r alive now)
            ≤ left s + 3 * (if is_renewed s (note_health s instance_id r alive now) then 1 else 0))
  unfolding note_health note_healthy record_process_failure
  note_health-IsCounted s instance_id (ok h) alive now v = ground arith
  note_health-IsCounted s instance_id (err e) alive now v = ground arith

  pub update_config-IsCounted :
      (s : SupervisorState Config Health) (config : Config) (acknowledged exited : Bool)
      → IsCounted s
      → IsCounted (update_config s config acknowledged exited).0
  unfolding update_config
  update_config-IsCounted s config acknowledged exited v = ground arith

  pub retry-IsCounted :
      (s : SupervisorState Config Health) → IsCounted s → IsCounted (retry_after_user_request s)
  unfolding retry_after_user_request
  retry-IsCounted s v = ground arith
