-- ===== src/Session/Connection/Plans.antt =====
-- remote_server.rs, `handle_connection`: what one input does to the plans that wait.
use ale_my_eyes_desktop.Prelude.{
  ℕ, ◌≡◌, refl, sym, subst, not, ◌&&◌, inl, inr, ◌∙◌, Option, none, some, List, arith, is_some,
  if◌then◌else◌, Option-cases, Bool-cases,
}
use ale_my_eyes_desktop.Prelude.Text.{Text}
use ale_my_eyes_desktop.Prelude.Bytes.{Bytes}
use ale_my_eyes_desktop.Actions.{ActionPlan}
use ale_my_eyes_desktop.Session.Audio as Audio
use ale_my_eyes_desktop.Session.PendingPlans as PendingPlans
use ale_my_eyes_desktop.Session.PendingPlans.{PendingPlans, ConfirmExecution, prepare_confirm}
use ale_my_eyes_desktop.Session.PendingPlans.Laws.{prepare_confirm-after}
use ale_my_eyes_desktop.Session.Messages.{
  RemoteMessage, client_hello, command_request, audio_start, audio_chunk, audio_end, cancel_request,
  decision_response, confirm_execution, CommandPreview,
}
use ale_my_eyes_desktop.Session.Requests.{ConnectionContext, Moment, Connection, text, new_pending}
use ale_my_eyes_desktop.Session.Handlers.{
  Reaction, handled, unhandled, fails, accept_command, limited, on_client_hello, on_command_request,
  accept_audio, on_audio_start, on_audio_chunk, on_audio_end, on_cancel_request,
  on_confirm_execution, on_decision_response,
}
use ale_my_eyes_desktop.Session.Reports.{
  ProcessingOutcome, progress, complete, failed_with, finished, timed_out, finished_after_timeout,
  publish_processing_result, holds, on_processing_result, on_execution_event,
}
use ale_my_eyes_desktop.Session.Connection.{
  handle, on_message, is_client_hello, refused_in_pause, ping_due, count_unexpected, Input, reply,
  wire_message, decision_tick, processing_result, execution_event, on_decision_tick, on_pause,
  pause, step,
}
use ale_my_eyes_desktop.Session.Connection.Keeping.{
  dispatch-Keeps, finish_recording-Keeps, respond-Keeps,
}

-- What one input does to the plans that wait: at most one call of their table.
pub data PendingStep (m : Moment) (s : PendingPlans) (input : Input) (s' : PendingPlans)
    : Type 0 where
  keeps : s' ≡ s → PendingStep m s input s'
  takes : (id : Text) → s' ≡ (PendingPlans.take s id m.now).0 → PendingStep m s input s'
  inserts :
      (id : Text) (preview : CommandPreview) (plan : ActionPlan)
      → input ≡ processing_result id (complete preview (some plan))
      → s' ≡ (PendingPlans.insert s id plan m.now).0
      → PendingStep m s input s'
  empties : s' ≡ new_pending → PendingStep m s input s'

on_confirm_execution-pending :
    (m : Moment) (c : Connection) (r : ConfirmExecution)
    → (on_confirm_execution m c r).0.pending ≡ (
        if is_some c.execution
        then c.pending
        else (PendingPlans.take c.pending r.request_id m.now).0)
unfolding on_confirm_execution
on_confirm_execution-pending m c r = ground (arith, prepare_confirm-after r c.pending m.now)

count_unexpected-pending : (r : Reaction) → (count_unexpected r).0.pending ≡ r.0.pending
unfolding count_unexpected
count_unexpected-pending (c, (effects, handled)) = refl
count_unexpected-pending (c, (effects, unhandled)) = refl
count_unexpected-pending (c, (effects, fails code)) = refl

module _ (decode : Text → Option Bytes) (sha256 : Bytes → Text)
    (write_wav : (channels sample_rate : ℕ) → List ℕ → Option Bytes) where
  handle-PendingStep :
      (x : ConnectionContext) (m : Moment) (c : Connection) (message : RemoteMessage)
      (input : Input)
      → PendingStep m c.pending input (handle decode sha256 write_wav x m c message).0.pending
  unfolding handle on_client_hello on_command_request limited accept_command on_audio_start
      accept_audio on_audio_chunk on_audio_end on_cancel_request on_decision_response
  handle-PendingStep x m c (client_hello version name) input = keeps (ground arith)
  handle-PendingStep x m c (command_request r) input =
      keeps (ground (arith, dispatch-Keeps x m c r.request_id (text r.input)))
  handle-PendingStep x m c (audio_start r) input = keeps (ground arith)
  handle-PendingStep x m c (audio_chunk r) input = keeps (ground arith)
  handle-PendingStep x m c (audio_end r) input = keeps (elim (Option-cases c.active_audio) [
    | inl e ↦ ground arith
    | inr (upload, e) ↦ ground (
      arith,
      finish_recording-Keeps x m (record c { active_audio = none }) r.request_id
          (Audio.finish sha256 write_wav upload r),
    )
  ])
  handle-PendingStep x m c (cancel_request id) input = takes id refl
  handle-PendingStep x m c (confirm_execution r) input = elim (Bool-cases (is_some c.execution)) [
    | inl e ↦ keeps (ground (arith, on_confirm_execution-pending m c r))
    | inr e ↦ takes r.request_id (ground (arith, on_confirm_execution-pending m c r))
  ]
  handle-PendingStep x m c (decision_response r) input = keeps (elim (Option-cases c.deferred) [
    | inl e ↦ ground arith
    | inr (waiting, e) ↦ ground (arith, respond-Keeps x m (record c { deferred = none }) waiting r)
  ])
  handle-PendingStep x m c other input = keeps refl

  on_message-PendingStep :
      (x : ConnectionContext) (m : Moment) (c : Connection) (message : RemoteMessage)
      (input : Input)
      → PendingStep m c.pending input (on_message decode sha256 write_wav x m c message).0.pending
  unfolding on_message
  on_message-PendingStep x m c message input =
      elim (Bool-cases (not c.authenticated && not (is_client_hello message))) [
        | inl e ↦ keeps (ground arith)
        | inr e ↦ elim (Bool-cases (c.paused && is_some (refused_in_pause message))) [
          | inl f ↦ keeps (ground arith)
          | inr f ↦
              subst (PendingStep m c.pending input)
                (sym (count_unexpected-pending (handle decode sha256 write_wav x m c message))
                  ∙ ground arith)
                (handle-PendingStep x m c message input)
        ]
      ]

  on_processing_result-PendingStep :
      (m : Moment) (c : Connection) (id : Text) (outcome : ProcessingOutcome)
      → PendingStep m c.pending
          (processing_result id outcome)
          (on_processing_result m c id outcome).0.pending
  unfolding on_processing_result publish_processing_result
  on_processing_result-PendingStep m c id (complete preview (some plan)) =
      elim (Bool-cases (holds c.processing id)) [
        | inl e ↦ inserts id preview plan refl (ground arith)
        | inr e ↦ keeps (ground arith)
      ]
  on_processing_result-PendingStep m c id (complete preview none) = keeps (ground arith)
  on_processing_result-PendingStep m c id (progress stage) = keeps (ground arith)
  on_processing_result-PendingStep m c id (failed_with code message) = keeps (ground arith)

  pub step-PendingStep :
      (x : ConnectionContext) (m : Moment) (c : Connection) (input : Input)
      → PendingStep m c.pending input (step decode sha256 write_wav x m c input).0.pending
  unfolding step on_decision_tick on_execution_event on_pause
  step-PendingStep x m c (reply message) = on_message-PendingStep x m c message (reply message)
  step-PendingStep x m c (wire_message message) =
      on_message-PendingStep x m (record c { last_received = m.now }) message (wire_message message)
  step-PendingStep x m c decision_tick = keeps (ground arith)
  step-PendingStep x m c (processing_result id outcome) =
      on_processing_result-PendingStep m c id outcome
  step-PendingStep x m c (execution_event id (finished outcome)) = keeps (ground arith)
  step-PendingStep x m c (execution_event id timed_out) = keeps (ground arith)
  step-PendingStep x m c (execution_event id finished_after_timeout) = keeps (ground arith)
  step-PendingStep x m c (pause value) = empties refl
  step-PendingStep x m c ping_due = keeps (ground arith)
  step-PendingStep x m c other = keeps refl
