-- ===== src/Supervisor/Starting.antt =====
-- modeld.rs, `connection`: when ale-modeld is started.
use ale_my_eyes_desktop.Prelude.{
  ℕ, ◌≤◌, ◌≡◌, inl, inr, Bool, true, false, Option, none, some, is_some, not, zero, suc, ◌+◌, ◌-◌,
  ◌^◌, min, ◌||◌, leb, arith, Option-cases,
}
use ale_my_eyes_desktop.Supervisor.{
  SupervisorState, World, record_process_failure, retire_dead, start_process, confirm_exit, restart,
  connection,
}

-- The instance that is alive or not known to be gone.
abbrev pub gone : World → Option ℕ → Bool
gone w none = true
gone w (some instance_id) = not (w.alive instance_id)

one_le_pow : (k : ℕ) → 1 ≤ 2 ^ k
one_le_pow zero = omega arith
one_le_pow (suc k) = ground (arith, one_le_pow k)

module _ {Config Health : Type 0} where
  -- A process is started only when starts are not blocked, neither before nor by a client found dead
  -- just then, which must be the first or second failure in a row; not before the time that the last
  -- failure set, which is a second or more from now if a client is found dead just then; when no
  -- client is alive, and when the process before it was seen to exit; and none is left waiting for
  -- its exit.
  pub connection-starts :
      (w : World) (s : SupervisorState Config Health) (at : ℕ)
      → (connection w s).1.1 ≡ some at
      → (s.restart_blocked ≡ false)
        × ((retire_dead w s).restart_blocked ≡ false)
        × ((not (is_some s.client) || leb s.consecutive_failures 1) ≡ true)
        × ((retire_dead w s).next_start ≤ at)
        × ((not (is_some s.client) || leb (w.now + 1000) at) ≡ true)
        × (gone w s.client ≡ true)
        × (confirm_exit w (retire_dead w s).retired ≡ true)
        × ((connection w s).0.retired ≡ none)
  unfolding connection restart retire_dead start_process record_process_failure
  connection-starts w s at h = elim (Option-cases s.client) [
    | inl e ↦ ground arith
    | inr (i, e) ↦ ground (arith, one_le_pow (min (min (s.consecutive_failures + 1) 255 - 1) 2))
  ]
