-- ===== src/Session/Connection/Keeping.antt =====
-- remote_server.rs, `handle_connection`: what the handlers leave alone.
use ale_my_eyes_desktop.Prelude.{
  ℕ, ◌≡◌, refl, inl, inr, Bool, true, false, ◌||◌, Option, none, some, List, arith, is_some,
  Option-cases,
}
use ale_my_eyes_desktop.Prelude.Text.{Text}
use ale_my_eyes_desktop.Prelude.Bytes.{Bytes}
use ale_my_eyes_desktop.Prelude.Result.{Result, ok, err}
use ale_my_eyes_desktop.Session.Audio as Audio
use ale_my_eyes_desktop.Session.Audio.{AudioError}
use ale_my_eyes_desktop.Session.Messages.{
  RemoteMessage, client_hello, command_request, audio_start, audio_chunk, audio_end,
  decision_response, confirm_execution,
}
use ale_my_eyes_desktop.Session.Messages.{
  use_remote_model, upload_full_screenshot, risk_changed, DecisionKind, DecisionResponse,
}
use ale_my_eyes_desktop.Session.Requests.{
  ConnectionContext, Moment, Connection, DeferredRequest, Effect, RequestPayload, text, audio_wav,
  hold_started, dispatch, start_remote_request,
}
use ale_my_eyes_desktop.Session.Decisions.{start_decided, decide, respond}
use ale_my_eyes_desktop.Session.Handlers.{
  accept_command, limited, on_client_hello, on_command_request, accept_audio, on_audio_start,
  finish_recording, on_audio_chunk, on_audio_end, on_cancel_request, on_confirm_execution,
  on_decision_response,
}
use ale_my_eyes_desktop.Session.Reports.{
  ProcessingOutcome, progress, complete, failed_with, publish_processing_result,
}
use ale_my_eyes_desktop.Session.Connection.{handle}

-- All but what is processed and what waits for a decision.
abbrev pub Keeps : Connection → Connection → Type 0
Keeps c c' =
    (c'.authenticated ≡ c.authenticated)
    × (c'.paused ≡ c.paused)
    × (c'.pending ≡ c.pending)
    × (c'.active_audio ≡ c.active_audio)
    × (c'.execution ≡ c.execution)
    × (c'.unexpected_messages ≡ c.unexpected_messages)

hold_started-Keeps :
    (c : Connection) (id : Text) (r : Result Text Effect) → Keeps c (hold_started c id r).0
unfolding hold_started
hold_started-Keeps c id (ok e) = (refl, refl, refl, refl, refl, refl)
hold_started-Keeps c id (err e) = (refl, refl, refl, refl, refl, refl)

pub dispatch-Keeps :
    (x : ConnectionContext) (m : Moment) (c : Connection) (id : Text) (payload : RequestPayload)
    → Keeps c (dispatch x m c id payload).0
unfolding dispatch
dispatch-Keeps x m c id payload =
    ground (arith, hold_started-Keeps c id (start_remote_request m id payload false false true))

start_decided-Keeps :
    (x : ConnectionContext) (m : Moment) (c : Connection) (waiting : DeferredRequest) (full : Bool)
    → Keeps c (start_decided x m c waiting full).0
unfolding start_decided
start_decided-Keeps x m c waiting full =
    let started =
      start_remote_request m waiting.request_id waiting.payload
        (is_some c.processing || is_some c.execution) full false in
    ground (arith, hold_started-Keeps c waiting.request_id started)

decide-Keeps :
    (x : ConnectionContext) (m : Moment) (c : Connection) (waiting : DeferredRequest)
    (approved : Bool) (kind : DecisionKind)
    → Keeps c (decide x m c waiting approved kind).0
unfolding decide
decide-Keeps x m c waiting false use_remote_model = (refl, refl, refl, refl, refl, refl)
decide-Keeps x m c waiting true use_remote_model = (refl, refl, refl, refl, refl, refl)
decide-Keeps x m c waiting false risk_changed = (refl, refl, refl, refl, refl, refl)
decide-Keeps x m c waiting true risk_changed = start_decided-Keeps x m c waiting false
decide-Keeps x m c waiting false upload_full_screenshot = start_decided-Keeps x m c waiting false
decide-Keeps x m c waiting true upload_full_screenshot = start_decided-Keeps x m c waiting true

pub respond-Keeps :
    (x : ConnectionContext) (m : Moment) (c : Connection) (waiting : DeferredRequest)
    (response : DecisionResponse)
    → Keeps c (respond x m c waiting response).0
unfolding respond
respond-Keeps x m c waiting response =
    ground (arith, decide-Keeps x m c waiting response.approved waiting.kind)

pub finish_recording-Keeps :
    (x : ConnectionContext) (m : Moment) (c : Connection) (id : Text) (r : Result AudioError Bytes)
    → Keeps c (finish_recording x m c id r).0
unfolding finish_recording
finish_recording-Keeps x m c id (ok wav) = dispatch-Keeps x m c id (audio_wav wav)
finish_recording-Keeps x m c id (err e) = (refl, refl, refl, refl, refl, refl)

-- Publishing a result changes only the plans that wait.
pub publish_processing_result-Keeps :
    (m : Moment) (c : Connection) (id : Text) (outcome : ProcessingOutcome)
    → (publish_processing_result m c id outcome).0
      ≡ record c { pending = (publish_processing_result m c id outcome).0.pending }
unfolding publish_processing_result
publish_processing_result-Keeps m c id (progress stage) = refl
publish_processing_result-Keeps m c id (complete preview none) = refl
publish_processing_result-Keeps m c id (complete preview (some plan)) = refl
publish_processing_result-Keeps m c id (failed_with code message) = refl

-- Without a hello the flags stay.
abbrev pub SameFlags : Connection → Connection → Type 0
SameFlags c c' =
    (c'.authenticated ≡ c.authenticated)
    × (c'.paused ≡ c.paused)
    × (c'.unexpected_messages ≡ c.unexpected_messages)

module _ (decode : Text → Option Bytes) (sha256 : Bytes → Text)
    (write_wav : (channels sample_rate : ℕ) → List ℕ → Option Bytes) where
  pub handle-SameFlags :
      (x : ConnectionContext) (m : Moment) (c : Connection) (message : RemoteMessage)
      → c.authenticated ≡ true
      → SameFlags c (handle decode sha256 write_wav x m c message).0
  unfolding handle on_client_hello on_command_request limited accept_command on_audio_start
      accept_audio on_audio_chunk on_audio_end on_cancel_request on_confirm_execution
      on_decision_response
  handle-SameFlags x m c (client_hello version name) a = ground arith
  handle-SameFlags x m c (command_request r) a =
      ground (arith, dispatch-Keeps x m c r.request_id (text r.input))
  handle-SameFlags x m c (audio_start r) a = ground arith
  handle-SameFlags x m c (audio_chunk r) a = ground arith
  handle-SameFlags x m c (audio_end r) a = elim (Option-cases c.active_audio) [
    | inl e ↦ ground arith
    | inr (upload, e) ↦ ground (
      arith,
      finish_recording-Keeps x m (record c { active_audio = none }) r.request_id
          (Audio.finish sha256 write_wav upload r),
    )
  ]
  handle-SameFlags x m c (confirm_execution r) a = ground arith
  handle-SameFlags x m c (decision_response r) a = elim (Option-cases c.deferred) [
    | inl e ↦ ground arith
    | inr (waiting, e) ↦ ground (arith, respond-Keeps x m (record c { deferred = none }) waiting r)
  ]
  handle-SameFlags x m c other a = ground arith
