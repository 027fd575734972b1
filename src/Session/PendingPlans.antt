-- ===== src/Session/PendingPlans.antt =====
-- remote_server.rs: plans that wait for the phone's confirmation, and `prepare_confirm`.
pub mod Laws
pub mod Sources
use ale_my_eyes_desktop.Prelude.{
  ℕ, ◌+◌, ◌≤◌, ◌<◌, ◌≡◌, Bool, true, false, not, ◌&&◌, Option, none, some, List, [], ◌∷◌, ltb, leb,
  if◌then◌else◌, length,
}
use ale_my_eyes_desktop.Prelude.Text.{Text, codes}
use ale_my_eyes_desktop.Prelude.Result.{Result, ok, err}
use ale_my_eyes_desktop.Prelude.Assoc.{text_key}
use ale_my_eyes_desktop.Prelude.Assoc
use ale_my_eyes_desktop.Actions.{ActionPlan}

pub record PendingPlan : Type 0 where
  pub plan : ActionPlan
  pub expires_at : ℕ

pub record PendingPlans : Type 0 where
  pub plans : List (Text × PendingPlan)
  pub max_entries : ℕ
  pub ttl : ℕ

unfoldable pub new : (max_entries ttl : ℕ) → PendingPlans
new max_entries ttl = record { plans = []; max_entries = max_entries; ttl = ttl }

unfoldable pub purge_expired : PendingPlans → ℕ → PendingPlans
purge_expired s now = record s { plans = Assoc.retain (λ p. ltb now p.expires_at) s.plans }

-- The error carries nothing.
unfoldable pub insert : PendingPlans → Text → ActionPlan → ℕ → PendingPlans × Bool
insert s request_id plan now =
    let t = purge_expired s now in
    if not (Assoc.contains_key request_id t.plans) && leb t.max_entries (length t.plans)
    then (t, false)
    else (
      record t {
        plans = Assoc.insert request_id (record { plan = plan; expires_at = now + t.ttl }) t.plans;
      },
      true,
    )

abbrev pub plan_of : Option PendingPlan → Option ActionPlan
plan_of none = none
plan_of (some p) = some p.plan

unfoldable pub take : PendingPlans → Text → ℕ → PendingPlans × Option ActionPlan
take s request_id now =
    let t = purge_expired s now in
    (
      record t { plans = Assoc.remove request_id t.plans },
      plan_of (Assoc.lookup request_id t.plans),
    )

pub data ExecutionState : Type 0 where
  preview_ready executing completed failed cancelled : ExecutionState

pub record ExecutionStatus : Type 0 where
  pub request_id : Text
  pub state : ExecutionState
  pub message : Text
  pub actions_executed : ℕ

pub record ConfirmExecution : Type 0 where
  pub request_id : Text
  pub approved : Bool

pub data ConfirmAction : Type 0 where
  immediate : ExecutionStatus → ConfirmAction
  execute : (request_id : Text) → ActionPlan → ConfirmAction

abbrev pub status : Text → ExecutionState → Text → ConfirmAction
status request_id state message =
    immediate
      (record { request_id = request_id; state = state; message = message; actions_executed = 0 })

abbrev pub execute_or_fail : Text → Option ActionPlan → ConfirmAction
execute_or_fail request_id none = status request_id failed (codes "PLAN_EXPIRED_OR_UNKNOWN")
execute_or_fail request_id (some plan) = execute request_id plan

-- The records of the audit log are left out.
unfoldable pub prepare_confirm : ConfirmExecution → PendingPlans → ℕ → PendingPlans × ConfirmAction
prepare_confirm confirm pending now =
    let (pending', plan) = take pending confirm.request_id now in
    if confirm.approved
    then (pending', execute_or_fail confirm.request_id plan)
    else (pending', status confirm.request_id cancelled (codes "已取消"))
