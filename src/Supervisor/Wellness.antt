-- ===== src/Supervisor/Wellness.antt =====
-- modeld.rs, `SupervisedModeldClient`: since when ale-modeld is well, against all calls so far.
use ale_my_eyes_desktop.Prelude.{
  ℕ, ◌-◌, ◌≡◌, inl, inr, Bool, true, false, ◌&&◌, ◌||◌, some, List, [], ◌∷◌, leb, ◌==◌,
  if◌then◌else◌, arith, Option-cases,
}
use ale_my_eyes_desktop.Prelude.Text.{Text}
use ale_my_eyes_desktop.Prelude.Result.{Result, ok, err, Result-cases}
use ale_my_eyes_desktop.Supervisor.{
  SupervisorState, World, record_process_failure, retire_dead, start_process, restart, connection,
  record_result, note_healthy, note_health, update_config, retry_after_user_request,
}
use ale_my_eyes_desktop.Supervisor.Budget.{IsCounted, is_renewed}

-- The calls that change the state.
pub data Event (Config Health : Type 0) : Type 0 where
  connects : World → Event Config Health
  responds : (instance_id : ℕ) → (succeeded alive : Bool) → (now : ℕ) → Event Config Health
  observes :
      (instance_id : ℕ) → Result Text Health → (alive : Bool) → (now : ℕ) → Event Config Health
  configures : Config → (acknowledged exited : Bool) → Event Config Health
  retries : Event Config Health

module _ {Config Health : Type 0} where
  -- The next state.
  unfoldable pub react :
      SupervisorState Config Health → Event Config Health → SupervisorState Config Health
  react s (connects w) = (connection w s).0
  react s (responds instance_id succeeded alive now) =
      record_result s instance_id succeeded alive now
  react s (observes instance_id r alive now) = note_health s instance_id r alive now
  react s (configures config acknowledged exited) = (update_config s config acknowledged exited).0
  react s retries = retry_after_user_request s

  -- Whether an instance that answers well now was well for a minute: among the calls so far, the last
  -- first, it answered well at least a minute ago, and after that no answer of it failed, and the
  -- configuration was not changed.
  unfoldable pub was_well : (instance_id now : ℕ) → List (Event Config Health) → Bool
  was_well i now [] = false
  was_well i now (observes j (ok h) alive at ∷ past) =
      let before = was_well i now past in (j == i && leb 60000 (now - at)) || before
  was_well i now (observes j (err e) alive at ∷ past) =
      let before = was_well i now past in if j == i then false else before
  was_well i now (configures config acknowledged exited ∷ past) = false
  was_well i now (other ∷ past) = was_well i now past

  -- What the state says of the client's health is borne out by the calls so far.
  abbrev pub IsVouched : List (Event Config Health) → SupervisorState Config Health → Type 0
  IsVouched past s =
      (i t now : ℕ)
      → s.client ≡ some i
      → s.healthy_since ≡ some t
      → leb 60000 (now - t) ≡ true
      → was_well i now past ≡ true

  connection-keeps :
      (w : World) (s : SupervisorState Config Health) (i t : ℕ)
      → (connection w s).0.client ≡ some i
      → (connection w s).0.healthy_since ≡ some t
      → (s.client ≡ some i) × (s.healthy_since ≡ some t)
  unfolding connection restart retire_dead start_process record_process_failure
  connection-keeps w s i t c h = elim (Option-cases s.client) [
    | inl e ↦ elim (Result-cases w.start) [ inl (f, d) ↦ ground arith | inr (j, d) ↦ ground arith ]
    | inr (k, e) ↦ elim (Result-cases w.start) [
      | inl (f, d) ↦ ground arith
      | inr (j, d) ↦ ground arith
    ]
  ]

  pub react-IsVouched :
      (past : List (Event Config Health)) (s : SupervisorState Config Health)
      (e : Event Config Health)
      → IsVouched past s
      → IsVouched (e ∷ past) (react s e)
  unfolding react was_well record_result note_health note_healthy update_config
      retry_after_user_request record_process_failure
  react-IsVouched past s (connects w) v i t now c h l =
      let (client, since) = connection-keeps w s i t c h in v i t now client since l
  react-IsVouched past s (responds j succeeded alive at) v i t now c h l = ground (arith, v i t now)
  react-IsVouched past s (observes j (ok a) alive at) v i t now c h l = ground (arith, v i t now)
  react-IsVouched past s (observes j (err e) alive at) v i t now c h l = ground (arith, v i t now)
  react-IsVouched past s (configures config acknowledged exited) v i t now c h l = ground arith
  react-IsVouched past s retries v i t now c h l = ground (arith, v i t now)

  -- Failures are forgotten by an observation only after a minute of health.
  pub note_health-was_well :
      (past : List (Event Config Health)) (s : SupervisorState Config Health) (i : ℕ)
      (r : Result Text Health) (alive : Bool) (now : ℕ)
      → IsCounted s
      → IsVouched past s
      → is_renewed s (note_health s i r alive now) ≡ true
      → was_well i now past ≡ true
  unfolding note_health note_healthy record_process_failure
  note_health-was_well past s i (ok h) alive now counted v e = elim (Option-cases s.healthy_since) [
    | inl unknown ↦ absurd (ground arith)
    | inr (t, since) ↦ ground (arith, v i t now)
  ]
  note_health-was_well past s i (err f) alive now counted v e = absurd (ground arith)
