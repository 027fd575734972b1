-- ===== src/Session/Connection/Executing.antt =====
-- remote_server.rs, `handle_connection`: what makes the desktop execute a plan.
use ale_my_eyes_desktop.Prelude.{
  ◌≡◌, refl, Bool, true, false, ◌||◌, none, some, List, [], ◌∷◌, arith, is_some, map,
}
use ale_my_eyes_desktop.Prelude.Text.{Text}
use ale_my_eyes_desktop.Prelude.Bytes.{Bytes}
use ale_my_eyes_desktop.Prelude.Result.{Result, ok, err}
use ale_my_eyes_desktop.Actions.{ActionPlan}
use ale_my_eyes_desktop.Session.Audio as Audio
use ale_my_eyes_desktop.Session.Audio.{AudioError}
use ale_my_eyes_desktop.Session.PendingPlans as PendingPlans
use ale_my_eyes_desktop.Session.PendingPlans.{
  PendingPlans, ConfirmExecution, prepare_confirm, execute, ExecutionStatus,
}
use ale_my_eyes_desktop.Session.Messages.{
  CommandRequest, use_remote_model, upload_full_screenshot, risk_changed, DecisionKind,
  DecisionResponse,
}
use ale_my_eyes_desktop.Session.Requests.{
  ConnectionContext, Moment, Connection, DeferredRequest, RequestPayload, Effect, starts_execution,
  text, audio_wav, send_remote_error, send_assistant_output, hold_started, dispatch,
  start_remote_request, send_decision_request,
}
use ale_my_eyes_desktop.Session.Decisions.{start_decided, decide, respond}
use ale_my_eyes_desktop.Session.Handlers.{
  accept_command, accept_audio, finish_recording, publish_execution_status, on_confirm_execution,
}
use ale_my_eyes_desktop.Session.Reports.{
  ProcessingOutcome, progress, complete, failed_with, status, broken, RemoteExecutionOutcome,
  publish_execution_outcome, publish_preview, publish_processing_result,
}

-- The executions that a list of effects starts.
abbrev pub executions : List Effect → List (Text × ActionPlan)
executions [] = []
executions (starts_execution id plan ∷ effects) = (id, plan) ∷ executions effects
executions (other ∷ effects) = executions effects

pub hold_started-executions :
    (c : Connection) (id : Text) (m : Moment) (payload : RequestPayload) (busy full local : Bool)
    → executions (hold_started c id (start_remote_request m id payload busy full local)).1 ≡ []
unfolding hold_started start_remote_request send_remote_error
hold_started-executions c id m payload busy full local = ground arith

pub dispatch-executions :
    (x : ConnectionContext) (m : Moment) (c : Connection) (id : Text) (payload : RequestPayload)
    → executions (dispatch x m c id payload).1 ≡ []
unfolding dispatch send_remote_error send_assistant_output send_decision_request
dispatch-executions x m c id payload =
    ground (arith, hold_started-executions c id m payload false false true)

pub start_decided-executions :
    (x : ConnectionContext) (m : Moment) (c : Connection) (waiting : DeferredRequest) (full : Bool)
    → executions (start_decided x m c waiting full).1 ≡ []
unfolding start_decided send_remote_error
start_decided-executions x m c waiting full = ground (
  arith,
  hold_started-executions c waiting.request_id m waiting.payload
      (is_some c.processing || is_some c.execution) full false,
)

pub decide-executions :
    (x : ConnectionContext) (m : Moment) (c : Connection) (waiting : DeferredRequest)
    (approved : Bool) (kind : DecisionKind)
    → executions (decide x m c waiting approved kind).1 ≡ []
unfolding decide send_remote_error send_assistant_output send_decision_request
decide-executions x m c waiting false use_remote_model = refl
decide-executions x m c waiting true use_remote_model = ground arith
decide-executions x m c waiting false risk_changed = refl
decide-executions x m c waiting true risk_changed = start_decided-executions x m c waiting false
decide-executions x m c waiting false upload_full_screenshot =
    start_decided-executions x m c waiting false
decide-executions x m c waiting true upload_full_screenshot =
    start_decided-executions x m c waiting true

pub respond-executions :
    (x : ConnectionContext) (m : Moment) (c : Connection) (waiting : DeferredRequest)
    (response : DecisionResponse)
    → executions (respond x m c waiting response).1 ≡ []
unfolding respond send_remote_error
respond-executions x m c waiting response =
    ground (arith, decide-executions x m c waiting response.approved waiting.kind)

pub finish_recording-executions :
    (x : ConnectionContext) (m : Moment) (c : Connection) (id : Text) (r : Result AudioError Bytes)
    → executions (finish_recording x m c id r).1.0 ≡ []
unfolding finish_recording send_remote_error
finish_recording-executions x m c id (ok wav) = dispatch-executions x m c id (audio_wav wav)
finish_recording-executions x m c id (err e) = refl

pub accept_audio-executions :
    (c : Connection) (start : Audio.AudioStart) → executions (accept_audio c start).1 ≡ []
unfolding accept_audio send_remote_error
accept_audio-executions c start = ground arith

pub accept_command-executions :
    (x : ConnectionContext) (m : Moment) (c : Connection) (r : CommandRequest)
    → executions (accept_command x m c r).1 ≡ []
unfolding accept_command send_remote_error
accept_command-executions x m c r =
    ground (arith, dispatch-executions x m c r.request_id (text r.input))

pub publish_processing_result-executions :
    (m : Moment) (c : Connection) (id : Text) (outcome : ProcessingOutcome)
    → executions (publish_processing_result m c id outcome).1 ≡ []
unfolding publish_processing_result publish_preview send_remote_error send_assistant_output
publish_processing_result-executions m c id (progress stage) = refl
publish_processing_result-executions m c id (complete preview none) = refl
publish_processing_result-executions m c id (complete preview (some plan)) = ground arith
publish_processing_result-executions m c id (failed_with code message) = refl

pub publish_execution_outcome-executions :
    (id : Text) (outcome : RemoteExecutionOutcome)
    → executions (publish_execution_outcome id outcome) ≡ []
unfolding publish_execution_outcome publish_execution_status send_remote_error send_assistant_output
publish_execution_outcome-executions id (status s) = refl
publish_execution_outcome-executions id (broken code message) = refl

pub errors-executions :
    (code : Text) (ids : List Text)
    → executions (map (λ id. send_remote_error (some id) code) ids) ≡ []
unfolding send_remote_error
errors-executions code [] = refl
errors-executions code (id ∷ ids) = errors-executions code ids

-- What a confirmation starts, at most one plan.
pub on_confirm_execution-executions :
    (m : Moment) (c : Connection) (r : ConfirmExecution) (id : Text) (plan : ActionPlan)
    (rest : List (Text × ActionPlan))
    → executions (on_confirm_execution m c r).1.0 ≡ (id, plan) ∷ rest
    → (r.approved ≡ true)
      × (id ≡ r.request_id)
      × (c.execution ≡ none)
      × ((PendingPlans.take c.pending id m.now).1 ≡ some plan)
      × (rest ≡ [])
unfolding on_confirm_execution prepare_confirm send_remote_error publish_execution_status
on_confirm_execution-executions m c r id plan rest h = ground arith
