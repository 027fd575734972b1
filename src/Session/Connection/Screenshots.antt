-- ===== src/Session/Connection/Screenshots.antt =====
-- remote_server.rs, `handle_connection`: a remote model answers a request, and gets the whole
-- screenshot, only as the phone has decided.
use ale_my_eyes_desktop.Prelude.{
  ℕ, ◌≡◌, refl, ◌⊎◌, inl, inr, ap, not, Bool, true, false, ◌||◌, Option, none, some, List, ◌∷◌,
  arith, if◌then◌else◌, Option-cases,
}
use ale_my_eyes_desktop.Prelude.Text.{Text, codes}
use ale_my_eyes_desktop.Prelude.Bytes.{Bytes}
use ale_my_eyes_desktop.Session.Audio as Audio
use ale_my_eyes_desktop.Session.Audio.{AudioError}
use ale_my_eyes_desktop.Session.Messages.{
  RemoteMessage, client_hello, command_request, audio_start, audio_chunk, audio_end,
  decision_response, confirm_execution, DecisionResponse,
}
use ale_my_eyes_desktop.Session.Requests.{
  ConnectionContext, Moment, Connection, DeferredRequest, send_remote_error, send_assistant_output,
}
use ale_my_eyes_desktop.Session.Decisions.{answers}
use ale_my_eyes_desktop.Session.Handlers.{
  limited, on_client_hello, on_command_request, on_audio_start, on_audio_chunk, on_audio_end,
  on_decision_response,
}
use ale_my_eyes_desktop.Session.Reports.{
  finished, timed_out, finished_after_timeout, is_progress, on_processing_result,
  on_execution_event,
}
use ale_my_eyes_desktop.Session.Connection.{
  handle, on_message, refused_in_pause, ping_due, Input, reply, wire_message, decision_tick,
  processing_result, execution_event, on_decision_tick, on_pause, pause, step, under_way,
}
use ale_my_eyes_desktop.Session.Connection.Confirmed.{message_of, count_unexpected-effects}
use ale_my_eyes_desktop.Session.Connection.Requesting.{
  requests, IsLocal, IsDecided, respond-requests, finish_recording-requests, accept_audio-requests,
  accept_command-requests, on_confirm_execution-requests, publish_processing_result-requests,
  publish_execution_outcome-requests, errors-requests,
}

-- A decision on the request that waits in the connection, which makes a remote model answer it, and
-- starts nothing else.
abbrev pub DecidedBy :
    Moment
    → Connection
    → DecisionResponse
    → Text
    → (full local : Bool) → List (Text × Bool × Bool)
    → Type 0
DecidedBy m c response id full local rest =
    (waiting : DeferredRequest) × (c.deferred ≡ some waiting)
    × (answers response waiting ≡ true)
    × IsDecided m waiting response id full local rest

-- Why a message starts a request.
abbrev Requested :
    ConnectionContext
    → Moment
    → Connection
    → RemoteMessage
    → Text
    → (full local : Bool) → List (Text × Bool × Bool)
    → Type 0
Requested x m c message id full local rest =
    IsLocal x full local rest
    ⊎ ((response : DecisionResponse) × (message ≡ decision_response response)
        × DecidedBy m c response id full local rest)

module _ (decode : Text → Option Bytes) (sha256 : Bytes → Text)
    (write_wav : (channels sample_rate : ℕ) → List ℕ → Option Bytes) where
  handle-requests :
      (x : ConnectionContext) (m : Moment) (c : Connection) (message : RemoteMessage) (id : Text)
      (full local : Bool) (rest : List (Text × Bool × Bool))
      → requests (handle decode sha256 write_wav x m c message).1.0 ≡ (id, full, local) ∷ rest
      → Requested x m c message id full local rest
  unfolding handle on_client_hello on_command_request limited on_audio_start on_audio_chunk
      on_audio_end on_decision_response send_remote_error
  handle-requests x m c (client_hello version name) id full local rest h = absurd (ground arith)
  handle-requests x m c (command_request r) id full local rest h =
      inl (ground (arith, accept_command-requests x m c r id full local rest))
  handle-requests x m c (audio_start r) id full local rest h =
      absurd (ground (arith, accept_audio-requests c r))
  handle-requests x m c (audio_chunk r) id full local rest h = absurd (ground arith)
  handle-requests x m c (audio_end r) id full local rest h = elim (Option-cases c.active_audio) [
    | inl e ↦ absurd (ground arith)
    | inr (upload, e) ↦ inl (
        ground (
          arith,
          finish_recording-requests x m (record c { active_audio = none }) r.request_id
              (Audio.finish sha256 write_wav upload r) id full local rest,
        ))
  ]
  handle-requests x m c (confirm_execution r) id full local rest h =
      absurd (ground (arith, on_confirm_execution-requests m c r))
  handle-requests x m c (decision_response r) id full local rest h =
      elim (Option-cases c.deferred) [
        | inl e ↦ absurd (ground arith)
        | inr (waiting, e) ↦
            let decided = respond-requests x m (record c { deferred = none }) waiting r in
            inr (r, refl, (waiting, e, ground arith, ground (arith, decided id full local rest)))
      ]
  handle-requests x m c other id full local rest h = absurd cc

  on_message-requests :
      (x : ConnectionContext) (m : Moment) (c : Connection) (message : RemoteMessage) (id : Text)
      (full local : Bool) (rest : List (Text × Bool × Bool))
      → requests (on_message decode sha256 write_wav x m c message).1.0 ≡ (id, full, local) ∷ rest
      → Requested x m c message id full local rest
  unfolding on_message refused_in_pause send_remote_error
  on_message-requests x m c message id full local rest h =
      handle-requests x m c message id full local rest
        (ground (arith, count_unexpected-effects (handle decode sha256 write_wav x m c message)))

  -- Why an input starts a request.
  step-Requested :
      (x : ConnectionContext) (m : Moment) (c : Connection) (input : Input) (id : Text)
      (full local : Bool) (rest : List (Text × Bool × Bool))
      → requests (step decode sha256 write_wav x m c input).1.0 ≡ (id, full, local) ∷ rest
      → IsLocal x full local rest
        ⊎ ((response : DecisionResponse) × (message_of input ≡ some (decision_response response))
            × DecidedBy m c response id full local rest)
  unfolding step on_decision_tick on_processing_result on_execution_event on_pause send_remote_error
      send_assistant_output
  step-Requested x m c (reply message) id full local rest h =
      elim (on_message-requests x m c message id full local rest h) [
        | inl l ↦ inl l
        | inr (r, e, decided) ↦ inr (r, ap some e, decided)
      ]
  step-Requested x m c (wire_message message) id full local rest h =
      elim (on_message-requests x m (record c { last_received = m.now }) message id full local rest
        h) [ inl l ↦ inl l | inr (r, e, decided) ↦ inr (r, ap some e, decided) ]
  step-Requested x m c decision_tick id full local rest h = absurd (ground arith)
  step-Requested x m c (processing_result r outcome) id full local rest h =
      let held = if is_progress outcome then c.processing else none in
      absurd (
        ground
          (arith, publish_processing_result-requests m (record c { processing = held }) r outcome))
  step-Requested x m c (execution_event r (finished outcome)) id full local rest h =
      absurd (ground (arith, publish_execution_outcome-requests r outcome))
  step-Requested x m c (execution_event r timed_out) id full local rest h = absurd (ground arith)
  step-Requested x m c (execution_event r finished_after_timeout) id full local rest h =
      absurd (ground arith)
  step-Requested x m c (pause value) id full local rest h =
      absurd (ground (arith, errors-requests (codes "CANCELLED") (under_way c)))
  step-Requested x m c ping_due id full local rest h = absurd (ground arith)
  step-Requested x m c other id full local rest h = absurd cc

  -- An input starts a request that may send the whole screenshot only if it brings the approving
  -- decision, in time, on a request that waits for a decision on just that; and one that a remote
  -- model answers only if it brings a decision, in time, on a request that waits; and with either it
  -- starts no other request.
  pub step-requests :
      (x : ConnectionContext) (m : Moment) (c : Connection) (input : Input) (id : Text)
      (full local : Bool) (rest : List (Text × Bool × Bool))
      → requests (step decode sha256 write_wav x m c input).1.0 ≡ (id, full, local) ∷ rest
      → (full || not local) ≡ true
      → (local ≡ false)
        × ((response : DecisionResponse) × (message_of input ≡ some (decision_response response))
            × DecidedBy m c response id full local rest)
  step-requests x m c input id full local rest h remote =
      elim (step-Requested x m c input id full local rest h) [
        | inl l ↦ absurd (ground arith)
        | inr (r, e, (waiting, w, a, decided)) ↦ (decided.0, (r, e, (waiting, w, a, decided)))
      ]
