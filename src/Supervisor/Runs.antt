-- ===== src/Supervisor/Runs.antt =====
-- modeld.rs, `SupervisedModeldClient`: all its calls, one after the other.
use ale_my_eyes_desktop.Prelude.{
  ℕ, ◌+◌, ◌*◌, ◌≤◌, ◌≡◌, refl, inl, inr, ◌&&◌, none, List, [], ◌∷◌, leb, arith, Bool-cases,
  if◌then◌else◌,
}
use ale_my_eyes_desktop.Prelude.Text.{Text}
use ale_my_eyes_desktop.Prelude.Result.{Result, ok, err}
use ale_my_eyes_desktop.Supervisor.{SupervisorState, start_supervisor, connection, note_health}
use ale_my_eyes_desktop.Supervisor.Budget.{
  count, left, IsCounted, is_renewed, connection-Spends, record_result-Spends,
  note_health-IsCounted, update_config-IsCounted, retry-IsCounted,
}
use ale_my_eyes_desktop.Supervisor.Wellness.{
  Event, connects, responds, observes, configures, retries, react, was_well, IsVouched,
  react-IsVouched, note_health-was_well,
}

module _ {Config Health : Type 0} where
  -- Whether a process was started.
  abbrev pub starts : SupervisorState Config Health → Event Config Health → ℕ
  starts s (connects w) = count (connection w s).1.1
  starts s other = 0

  -- What gives starts back: the user changes the configuration or asks to try again, or failures are
  -- forgotten after a minute of health.
  abbrev pub renewals :
      List (Event Config Health) → SupervisorState Config Health → Event Config Health → ℕ
  renewals past s (observes i r alive now) =
      if is_renewed s (note_health s i r alive now) && was_well i now past then 1 else 0
  renewals past s (configures config acknowledged exited) = 1
  renewals past s retries = 1
  renewals past s other = 0

  -- The last state, how many processes were started, and how often starts were given back.
  unfoldable pub run :
      (past : List (Event Config Health))
      → SupervisorState Config Health
      → List (Event Config Health)
      → SupervisorState Config Health × (ℕ × ℕ)
  run past s [] = (s, (0, 0))
  run past s (e ∷ es) =
      let (s', (more, again)) = run (e ∷ past) (react s e) es in
      (s', (starts s e + more, renewals past s e + again))

  react-IsCounted :
      (past : List (Event Config Health)) (s : SupervisorState Config Health)
      (e : Event Config Health)
      → IsCounted s
      → IsVouched past s
      → IsCounted (react s e) × (left (react s e) + starts s e ≤ left s + 3 * renewals past s e)
  unfolding react
  react-IsCounted past s (connects w) v h = ground (arith, connection-Spends w s v)
  react-IsCounted past s (responds instance_id succeeded alive now) v h =
      ground (arith, record_result-Spends s instance_id succeeded alive now v)
  react-IsCounted past s (observes i r alive now) v h =
      elim (Bool-cases (is_renewed s (note_health s i r alive now))) [
        | inl renewed ↦ ground (
          arith,
          note_health-IsCounted s i r alive now v,
          note_health-was_well past s i r alive now v h renewed,
        )
        | inr kept ↦ ground (arith, note_health-IsCounted s i r alive now v)
      ]
  react-IsCounted past s (configures config acknowledged exited) v h =
      ground (arith, update_config-IsCounted s config acknowledged exited v)
  react-IsCounted past s retries v h = ground (arith, retry-IsCounted s v)

  run-IsCounted :
      (past : List (Event Config Health)) (s : SupervisorState Config Health)
      (es : List (Event Config Health))
      → IsCounted s
      → IsVouched past s
      → IsCounted (run past s es).0
        × (left (run past s es).0 + (run past s es).1.0 ≤ left s + 3 * (run past s es).1.1)
  unfolding run
  run-IsCounted past s [] v h = ground arith
  run-IsCounted past s (e ∷ es) v h =
      let (counted, spent) = react-IsCounted past s e v h in
      ground
        (arith, spent, run-IsCounted (e ∷ past) (react s e) es counted (react-IsVouched past s e h))

  fresh-IsVouched :
      (past : List (Event Config Health)) (s : SupervisorState Config Health)
      → s.healthy_since ≡ none
      → IsVouched past s
  fresh-IsVouched past s unknown i t later c h l = absurd (ground arith)

  -- From its start on, the supervisor starts ale-modeld at most twice more, and at most three times
  -- more each time that the user changes the configuration or asks to try again, or that failures
  -- are forgotten on a good answer of an instance that answered well at least a minute before too,
  -- with no failed answer of it and no change of the configuration in between; and starts are blocked
  -- just after three failures in a row.
  pub run-start_supervisor :
      (config : Config) (first : Result Text ℕ) (now : ℕ) (es : List (Event Config Health))
      → ((run [] (start_supervisor config first now) es).1.0
          ≤ 2 + 3 * (run [] (start_supervisor config first now) es).1.1)
        × ((run [] (start_supervisor config first now) es).0.restart_blocked
            ≡ leb 3 (run [] (start_supervisor config first now) es).0.consecutive_failures)
  unfolding start_supervisor
  run-start_supervisor config (ok i) now es = ground (
    arith,
    run-IsCounted [] (start_supervisor config (ok i) now) es (refl, ground arith)
        (fresh-IsVouched [] (start_supervisor config (ok i) now) refl),
  )
  run-start_supervisor config (err e) now es = ground (
    arith,
    run-IsCounted [] (start_supervisor config (err e) now) es (refl, ground arith)
        (fresh-IsVouched [] (start_supervisor config (err e) now) refl),
  )
