-- ===== src/Session/Connection/Idle.antt =====
-- remote_server.rs, `handle_connection`: nothing is under way before the phone has said hello nor
-- while the desktop is paused.
use ale_my_eyes_desktop.Prelude.{
  ℕ, ◌≡◌, Bool, true, not, ◌&&◌, ◌||◌, Option, none, List, arith, is_empty, is_some, if◌then◌else◌,
}
use ale_my_eyes_desktop.Prelude.Text.{Text}
use ale_my_eyes_desktop.Prelude.Bytes.{Bytes}
use ale_my_eyes_desktop.Prelude.Assoc
use ale_my_eyes_desktop.Session.PendingPlans as PendingPlans
use ale_my_eyes_desktop.Session.Messages.{RemoteMessage, client_hello, cancel_request}
use ale_my_eyes_desktop.Session.Requests.{ConnectionContext, Moment, Connection, new_pending}
use ale_my_eyes_desktop.Session.Handlers.{on_client_hello, drop_if, on_cancel_request}
use ale_my_eyes_desktop.Session.Connection.{
  handle, on_message, count_unexpected, refused_in_pause, Input, reply, wire_message, decision_tick,
  processing_result, execution_event, on_decision_tick, on_pause, step,
}
use ale_my_eyes_desktop.Session.Reports.{
  finished, timed_out, finished_after_timeout, on_processing_result, on_execution_event,
  is_progress,
}
use ale_my_eyes_desktop.Session.Connection.Keeping.{
  handle-SameFlags, publish_processing_result-Keeps,
}

abbrev pub is_active : Connection → Bool
is_active c = c.authenticated && not c.paused

-- Nothing is under way, and no plan waits.
abbrev pub is_idle : Connection → Bool
is_idle c =
    is_empty c.pending.plans
    && not (is_some c.active_audio)
    && not (is_some c.processing)
    && not (is_some c.deferred)
    && not (is_some c.execution)

on_cancel_request-idle :
    (m : Moment) (c : Connection) (id : Text)
    → is_idle c ≡ true
    → is_idle (on_cancel_request m c id) ≡ true
unfolding on_cancel_request drop_if PendingPlans.take PendingPlans.purge_expired Assoc.retain
    Assoc.remove
on_cancel_request-idle m c id h = ground arith

-- The invariant of the loop.
abbrev pub IsQuiet : Connection → Type 0
IsQuiet c = (is_active c || is_idle c) ≡ true

module _ (decode : Text → Option Bytes) (sha256 : Bytes → Text)
    (write_wav : (channels sample_rate : ℕ) → List ℕ → Option Bytes) where
  on_message-IsQuiet :
      (x : ConnectionContext) (m : Moment) (c : Connection) (message : RemoteMessage)
      → IsQuiet c
      → IsQuiet (on_message decode sha256 write_wav x m c message).0
  unfolding on_message count_unexpected refused_in_pause handle on_client_hello
  on_message-IsQuiet x m c (client_hello version name) q = ground arith
  on_message-IsQuiet x m c (cancel_request id) q = ground (
    arith,
    on_cancel_request-idle m c id,
    handle-SameFlags decode sha256 write_wav x m c (cancel_request id),
  )
  on_message-IsQuiet x m c other q =
      ground (arith, handle-SameFlags decode sha256 write_wav x m c other)

  pub step-IsQuiet :
      (x : ConnectionContext) (m : Moment) (c : Connection) (input : Input)
      → IsQuiet c
      → IsQuiet (step decode sha256 write_wav x m c input).0
  unfolding step on_decision_tick on_processing_result on_execution_event on_pause new_pending
      PendingPlans.new
  step-IsQuiet x m c (reply message) q = on_message-IsQuiet x m c message q
  step-IsQuiet x m c (wire_message message) q =
      on_message-IsQuiet x m (record c { last_received = m.now }) message q
  step-IsQuiet x m c decision_tick q = ground arith
  step-IsQuiet x m c (processing_result id outcome) q =
      let held = if is_progress outcome then c.processing else none in
      ground (arith, publish_processing_result-Keeps m (record c { processing = held }) id outcome)
  step-IsQuiet x m c (execution_event id (finished outcome)) q = ground arith
  step-IsQuiet x m c (execution_event id timed_out) q = ground arith
  step-IsQuiet x m c (execution_event id finished_after_timeout) q = ground arith
  step-IsQuiet x m c other q = ground arith
