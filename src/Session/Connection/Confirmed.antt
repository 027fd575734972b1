-- ===== src/Session/Connection/Confirmed.antt =====
-- remote_server.rs, `handle_connection`: a plan is executed only when the phone has confirmed it, and
-- only a plan that a request of this connection made.
use ale_my_eyes_desktop.Prelude.{
  ℕ, ◌≡◌, refl, inl, inr, ap, true, false, Option, none, some, List, [], ◌∷◌, arith, if◌then◌else◌,
  Option-cases,
}
use ale_my_eyes_desktop.Prelude.Text.{Text, codes}
use ale_my_eyes_desktop.Prelude.Bytes.{Bytes}
use ale_my_eyes_desktop.Actions.{ActionPlan}
use ale_my_eyes_desktop.Session.Audio as Audio
use ale_my_eyes_desktop.Session.Audio.{AudioError}
use ale_my_eyes_desktop.Session.PendingPlans as PendingPlans
use ale_my_eyes_desktop.Session.PendingPlans.{
  PendingPlans, ConfirmExecution, prepare_confirm, execute, ExecutionStatus,
}
use ale_my_eyes_desktop.Session.Messages.{
  RemoteMessage, client_hello, command_request, audio_start, audio_chunk, audio_end,
  decision_response, confirm_execution,
}
use ale_my_eyes_desktop.Session.Requests.{
  ConnectionContext, Moment, Connection, send_remote_error, send_assistant_output,
}
use ale_my_eyes_desktop.Session.Handlers.{
  Reaction, handled, unhandled, fails, limited, on_client_hello, on_command_request, on_audio_start,
  on_audio_chunk, on_audio_end, on_decision_response,
}
use ale_my_eyes_desktop.Session.Reports.{
  finished, timed_out, finished_after_timeout, is_progress, on_processing_result,
  on_execution_event,
}
use ale_my_eyes_desktop.Session.Connection.{
  handle, on_message, refused_in_pause, ping_due, count_unexpected, Input, reply, wire_message,
  decision_tick, processing_result, execution_event, on_decision_tick, on_pause, pause, step,
  under_way,
}
use ale_my_eyes_desktop.Session.Connection.Executing.{
  executions, on_confirm_execution-executions, errors-executions, accept_command-executions,
  accept_audio-executions, finish_recording-executions, respond-executions,
  publish_processing_result-executions, publish_execution_outcome-executions,
}

-- The message that an input brings.
abbrev pub message_of : Input → Option RemoteMessage
message_of (reply message) = some message
message_of (wire_message message) = some message
message_of other = none

-- A confirmation that lets a plan of the connection run, and no other.
abbrev pub Confirms :
    Moment → Connection → ConfirmExecution → Text → ActionPlan → List (Text × ActionPlan) → Type 0
Confirms m c r id plan rest =
    (r.approved ≡ true)
    × (id ≡ r.request_id)
    × (c.execution ≡ none)
    × ((PendingPlans.take c.pending id m.now).1 ≡ some plan)
    × (rest ≡ [])

pub count_unexpected-effects : (r : Reaction) → (count_unexpected r).1.0 ≡ r.1.0
unfolding count_unexpected
count_unexpected-effects (c, (effects, handled)) = refl
count_unexpected-effects (c, (effects, unhandled)) = refl
count_unexpected-effects (c, (effects, fails code)) = refl

module _ (decode : Text → Option Bytes) (sha256 : Bytes → Text)
    (write_wav : (channels sample_rate : ℕ) → List ℕ → Option Bytes) where
  abbrev Starts :
      ConnectionContext
      → Moment
      → Connection
      → RemoteMessage
      → Text
      → ActionPlan
      → List (Text × ActionPlan)
      → Type 0
  Starts x m c message id plan rest =
      (r : ConfirmExecution) × (message ≡ confirm_execution r) × Confirms m c r id plan rest

  handle-executions :
      (x : ConnectionContext) (m : Moment) (c : Connection) (message : RemoteMessage) (id : Text)
      (plan : ActionPlan) (rest : List (Text × ActionPlan))
      → executions (handle decode sha256 write_wav x m c message).1.0 ≡ (id, plan) ∷ rest
      → Starts x m c message id plan rest
  unfolding handle on_client_hello on_command_request limited on_audio_start on_audio_chunk
      on_audio_end on_decision_response send_remote_error
  handle-executions x m c (client_hello version name) id plan rest h = absurd (ground arith)
  handle-executions x m c (command_request r) id plan rest h =
      absurd (ground (arith, accept_command-executions x m c r))
  handle-executions x m c (audio_start r) id plan rest h =
      absurd (ground (arith, accept_audio-executions c r))
  handle-executions x m c (audio_chunk r) id plan rest h = absurd (ground arith)
  handle-executions x m c (audio_end r) id plan rest h = elim (Option-cases c.active_audio) [
    | inl e ↦ absurd (ground arith)
    | inr (upload, e) ↦ absurd (
        ground (
          arith,
          finish_recording-executions x m (record c { active_audio = none }) r.request_id
              (Audio.finish sha256 write_wav upload r),
        ))
  ]
  handle-executions x m c (confirm_execution r) id plan rest h =
      (r, refl, on_confirm_execution-executions m c r id plan rest h)
  handle-executions x m c (decision_response r) id plan rest h = elim (Option-cases c.deferred) [
    | inl e ↦ absurd (ground arith)
    | inr (waiting, e) ↦
        absurd (ground (arith, respond-executions x m (record c { deferred = none }) waiting r))
  ]
  handle-executions x m c other id plan rest h = absurd cc

  on_message-executions :
      (x : ConnectionContext) (m : Moment) (c : Connection) (message : RemoteMessage) (id : Text)
      (plan : ActionPlan) (rest : List (Text × ActionPlan))
      → executions (on_message decode sha256 write_wav x m c message).1.0 ≡ (id, plan) ∷ rest
      → (c.authenticated ≡ true) × (c.paused ≡ false) × Starts x m c message id plan rest
  unfolding on_message refused_in_pause send_remote_error
  on_message-executions x m c message id plan rest h =
      let started : executions (handle decode sha256 write_wav x m c message).1.0
          ≡ (id, plan) ∷ rest =
        ground (arith, count_unexpected-effects (handle decode sha256 write_wav x m c message)) in
      let (r, e, confirmed) = handle-executions x m c message id plan rest started in
      (ground arith, ground arith, (r, e, confirmed))

  -- An input makes the desktop execute a plan, and then only this one, only if it brings, from a phone that has said hello and
  -- while the desktop is not paused, an approved confirmation of the request that the plan waits
  -- under, in time, and if no other plan is being executed.
  pub step-executions :
      (x : ConnectionContext) (m : Moment) (c : Connection) (input : Input) (id : Text)
      (plan : ActionPlan) (rest : List (Text × ActionPlan))
      → executions (step decode sha256 write_wav x m c input).1.0 ≡ (id, plan) ∷ rest
      → (c.authenticated ≡ true)
        × (c.paused ≡ false)
        × ((r : ConfirmExecution) × (message_of input ≡ some (confirm_execution r))
            × Confirms m c r id plan rest)
  unfolding step on_decision_tick on_processing_result on_execution_event on_pause send_remote_error
      send_assistant_output
  step-executions x m c (reply message) id plan rest h =
      let (a, p, (r, e, confirmed)) = on_message-executions x m c message id plan rest h in
      (a, p, (r, ap some e, confirmed))
  step-executions x m c (wire_message message) id plan rest h =
      let (a, p, (r, e, confirmed)) =
        on_message-executions x m (record c { last_received = m.now }) message id plan rest h in
      (a, p, (r, ap some e, confirmed))
  step-executions x m c decision_tick id plan rest h = absurd (ground arith)
  step-executions x m c (processing_result r outcome) id plan rest h =
      let held = if is_progress outcome then c.processing else none in
      absurd (
        ground (
          arith,
          publish_processing_result-executions m (record c { processing = held }) r outcome,
        ))
  step-executions x m c (execution_event r (finished outcome)) id plan rest h =
      absurd (ground (arith, publish_execution_outcome-executions r outcome))
  step-executions x m c (execution_event r timed_out) id plan rest h = absurd (ground arith)
  step-executions x m c (execution_event r finished_after_timeout) id plan rest h =
      absurd (ground arith)
  step-executions x m c (pause value) id plan rest h =
      absurd (ground (arith, errors-executions (codes "CANCELLED") (under_way c)))
  step-executions x m c ping_due id plan rest h = absurd (ground arith)
  step-executions x m c other id plan rest h = absurd cc
