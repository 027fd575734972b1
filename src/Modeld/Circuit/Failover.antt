-- ===== src/Modeld/Circuit/Failover.antt =====
-- scheduler.rs, `remote_plan`: which endpoints a planning job may reach.
use ale_my_eyes_desktop.Prelude.{
  ℕ, ◌+◌, ◌≤◌, ◌≡◌, Bool, true, false, not, ◌&&◌, Option, none, some, is_some, if◌then◌else◌, arith,
}
use ale_my_eyes_desktop.Modeld.Retry.{retry}
use ale_my_eyes_desktop.Modeld.Retry.Laws.{retry-calls}
use ale_my_eyes_desktop.Modeld.Circuit.{
  CircuitState, RemoteProviderSet, Scene, primary_open, has_backup, fall_back, call_primary,
  remote_plan, primary_retries, primary_deadline, note_failure,
}

abbrev pub may_back_up : {Endpoint : Type 0} → Option (RemoteProviderSet Endpoint) → Bool
may_back_up none = false
may_back_up (some p) = p.backup_enabled && (p.backup_pre_authorized && is_some p.backup)

module _ {Endpoint Response : Type 0} where
  fall_back-calls :
      (p : RemoteProviderSet Endpoint) (s : Scene Endpoint Response) (c : CircuitState) (made : ℕ)
      → ((fall_back p s c made).to_primary ≡ made)
        × ((fall_back p s c made).to_backup ≤ 1)
        × ((1 ≤ (fall_back p s c made).to_backup) → has_backup p ≡ true)
        × ((fall_back p s c made).circuit ≡ c)
  unfolding fall_back
  fall_back-calls p s c made = ground (arith, retry-calls s.deadline 0 s.backup_calls)

  call_primary-calls :
      (p : RemoteProviderSet Endpoint) (s : Scene Endpoint Response)
      → ((call_primary p s).to_primary ≤ 2)
        × ((call_primary p s).to_backup ≤ 1)
        × ((1 ≤ (call_primary p s).to_backup) → has_backup p ≡ true)
  unfolding call_primary
  call_primary-calls p s =
      let deadline = primary_deadline p s.now s.deadline in
      let tried = retry deadline (primary_retries p) s.primary_calls in
      let fallen = fall_back-calls p s (note_failure s.after p s.noted_at) tried.1 in
      ground (arith, retry-calls deadline (primary_retries p) s.primary_calls, fallen)

  abbrev pub is_tripped : Option (RemoteProviderSet Endpoint) → Scene Endpoint Response → Bool
  is_tripped none s = false
  is_tripped (some p) s = primary_open s.before p s.now

  -- A planning job reaches the primary endpoint at most twice, and not at all while the circuit is
  -- open for the configured revision; the backup at most once, and only if it is enabled,
  -- authorized beforehand and configured. With a screenshot that is not authorized it reaches
  -- neither.
  pub remote_plan-calls :
      (readable : Bool) (providers : Option (RemoteProviderSet Endpoint))
      (s : Scene Endpoint Response)
      → ((remote_plan readable providers s).to_primary ≤ (if is_tripped providers s then 0 else 2))
        × ((remote_plan readable providers s).to_backup ≤ (if may_back_up providers then 1 else 0))
        × ((remote_plan readable providers s).to_primary
              + (remote_plan readable providers s).to_backup
            ≤ (if s.has_image && not s.allow_full_screenshot then 0 else 3))
  unfolding remote_plan has_backup
  remote_plan-calls false providers s = ground arith
  remote_plan-calls true none s = ground arith
  remote_plan-calls true (some p) s =
      ground (arith, call_primary-calls p s, fall_back-calls p s s.before 0)
