-- ===== src/Session/Connection/Counting.antt =====
-- remote_server.rs, `handle_connection`: how many messages that are out of place it bears.
use ale_my_eyes_desktop.Prelude.{
  ℕ, ◌≤◌, ◌≡◌, ◌+◌, suc, Option, none, List, [], ◌∷◌, arith, if◌then◌else◌, true, false, Bool, All,
  length,
}
use ale_my_eyes_desktop.Prelude.Text.{Text, codes}
use ale_my_eyes_desktop.Prelude.Bytes.{Bytes}
use ale_my_eyes_desktop.Session.Messages.{
  RemoteMessage, server_hello, command_preview, progress_update, decision_request, assistant_output,
  execution_status, remote_error,
}
use ale_my_eyes_desktop.Session.Requests.{ConnectionContext, Moment, Connection}
use ale_my_eyes_desktop.Session.Handlers.{handled, unhandled, fails, Reaction}
use ale_my_eyes_desktop.Session.Connection.{
  Next, ends_with, refused_in_pause, handle, on_message, goes_on, count_unexpected, Input, reply,
  wire_message, processing_result, execution_event, on_decision_tick, on_pause, step,
}
use ale_my_eyes_desktop.Session.Reports.{
  finished, timed_out, finished_after_timeout, on_processing_result, on_execution_event,
  is_progress,
}
use ale_my_eyes_desktop.Session.Connection.Keeping.{publish_processing_result-Keeps}

count_unexpected-few :
    (r : Reaction)
    → (count_unexpected r).1.1 ≡ goes_on
    → (count_unexpected r).0.unexpected_messages ≤ 2
unfolding count_unexpected
count_unexpected-few (c, (effects, handled)) e = omega arith
count_unexpected-few (c, (effects, unhandled)) e = ground arith
count_unexpected-few (c, (effects, fails code)) e = ground arith

-- The messages that only the desktop sends, and so never awaits.
unfoldable pub is_for_phone : RemoteMessage → Bool
is_for_phone (server_hello version name id) = true
is_for_phone (command_preview p) = true
is_for_phone (progress_update id stage) = true
is_for_phone (decision_request r) = true
is_for_phone (assistant_output o) = true
is_for_phone (execution_status s) = true
is_for_phone (remote_error e) = true
is_for_phone other = false

module _ (decode : Text → Option Bytes) (sha256 : Bytes → Text)
    (write_wav : (channels sample_rate : ℕ) → List ℕ → Option Bytes) where
  on_message-unexpected :
      (x : ConnectionContext) (m : Moment) (c : Connection) (message : RemoteMessage)
      → c.unexpected_messages ≤ 2
      → (on_message decode sha256 write_wav x m c message).1.1 ≡ goes_on
      → (on_message decode sha256 write_wav x m c message).0.unexpected_messages ≤ 2
  unfolding on_message
  on_message-unexpected x m c message h e =
      ground (arith, count_unexpected-few (handle decode sha256 write_wav x m c message))

  pub step-unexpected :
      (x : ConnectionContext) (m : Moment) (c : Connection) (input : Input)
      → c.unexpected_messages ≤ 2
      → (step decode sha256 write_wav x m c input).1.1 ≡ goes_on
      → (step decode sha256 write_wav x m c input).0.unexpected_messages ≤ 2
  unfolding step on_decision_tick on_processing_result on_execution_event on_pause
  step-unexpected x m c (reply message) h e = on_message-unexpected x m c message h e
  step-unexpected x m c (wire_message message) h e =
      on_message-unexpected x m (record c { last_received = m.now }) message h e
  step-unexpected x m c (processing_result id outcome) h e =
      let held = if is_progress outcome then c.processing else none in
      ground (arith, publish_processing_result-Keeps m (record c { processing = held }) id outcome)
  step-unexpected x m c (execution_event id (finished outcome)) h e = ground arith
  step-unexpected x m c (execution_event id timed_out) h e = ground arith
  step-unexpected x m c (execution_event id finished_after_timeout) h e = ground arith
  step-unexpected x m c other h e = ground arith

  -- The messages of a phone one after the other, as long as the connection goes on.
  unfoldable pub receive_until_end :
      ConnectionContext → Moment → Connection → List RemoteMessage → Next
  receive_until_end x m c [] = goes_on
  receive_until_end x m c (message ∷ messages) =
      let (c', (effects, next)) = on_message decode sha256 write_wav x m c message in
      let rest = receive_until_end x m c' messages in elim next [ goes_on ↦ rest | other ↦ other ]

  on_message-unexpected_kind :
      (x : ConnectionContext) (m : Moment) (c : Connection) (message : RemoteMessage)
      → c.authenticated ≡ true
      → is_for_phone message ≡ true
      → on_message decode sha256 write_wav x m c message ≡ count_unexpected (c, ([], unhandled))
  unfolding on_message handle refused_in_pause is_for_phone
  on_message-unexpected_kind x m c (server_hello version name id) a u = ground arith
  on_message-unexpected_kind x m c (command_preview p) a u = ground arith
  on_message-unexpected_kind x m c (progress_update id stage) a u = ground arith
  on_message-unexpected_kind x m c (decision_request r) a u = ground arith
  on_message-unexpected_kind x m c (assistant_output o) a u = ground arith
  on_message-unexpected_kind x m c (execution_status s) a u = ground arith
  on_message-unexpected_kind x m c (remote_error e) a u = ground arith
  on_message-unexpected_kind x m c other a u = ground arith

  -- On an authenticated connection, a row of messages of the kinds that only the desktop sends ends
  -- the connection with PROTOCOL_VIOLATION, paused or not, once the row and the unexpected messages
  -- counted before it make three.
  pub receive_until_end-ends :
      (x : ConnectionContext) (m : Moment) (c : Connection) (messages : List RemoteMessage)
      → c.authenticated ≡ true
      → c.unexpected_messages ≤ 2
      → All (λ message. is_for_phone message ≡ true) messages
      → 3 ≤ length messages + c.unexpected_messages
      → receive_until_end x m c messages ≡ ends_with (codes "PROTOCOL_VIOLATION")
  unfolding receive_until_end count_unexpected
  receive_until_end-ends x m c [] a h u l = ground arith
  receive_until_end-ends x m c (message ∷ messages) a h (u, us) l = ground (
    arith,
    on_message-unexpected_kind x m c message a u,
    receive_until_end-ends x m (record c { unexpected_messages = suc c.unexpected_messages })
        messages a,
    us,
  )
