-- ===== src/Session/Connection/Requesting.antt =====
-- remote_server.rs, `handle_connection`: which requests the local models answer, which ones a remote
-- model, and which ones with the whole screenshot.
use ale_my_eyes_desktop.Prelude.{
  ◌<◌, ◌≡◌, refl, not, ◌&&◌, Bool, true, false, ◌||◌, none, some, List, [], ◌∷◌, arith, is_some,
  map, if◌then◌else◌,
}
use ale_my_eyes_desktop.Prelude.Text.{Text}
use ale_my_eyes_desktop.Prelude.Bytes.{Bytes}
use ale_my_eyes_desktop.Prelude.Result.{Result, ok, err}
use ale_my_eyes_desktop.Session.Audio as Audio
use ale_my_eyes_desktop.Session.Audio.{AudioError}
use ale_my_eyes_desktop.Session.PendingPlans.{ConfirmExecution, prepare_confirm}
use ale_my_eyes_desktop.Session.Messages.{
  CommandRequest, use_remote_model, upload_full_screenshot, risk_changed, DecisionKind,
  DecisionResponse,
}
use ale_my_eyes_desktop.Session.Requests.{
  ConnectionContext, Moment, Connection, DeferredRequest, RequestPayload, Effect, starts_request,
  text, audio_wav, send_remote_error, send_assistant_output, hold_started, dispatch,
  start_remote_request, send_decision_request,
}
use ale_my_eyes_desktop.Session.Decisions.{start_decided, decide, respond}
use ale_my_eyes_desktop.Session.Handlers.{
  accept_command, accept_audio, finish_recording, publish_execution_status, on_confirm_execution,
}
use ale_my_eyes_desktop.Session.Reports.{
  ProcessingOutcome, progress, complete, failed_with, status, broken, RemoteExecutionOutcome,
  publish_execution_outcome, publish_preview, publish_processing_result,
}

-- The requests that a list of effects starts: whether the whole screenshot may leave the desktop,
-- and whether the local models answer.
abbrev pub requests : List Effect → List (Text × Bool × Bool)
requests [] = []
requests (starts_request id payload full local ∷ effects) = (id, full, local) ∷ requests effects
requests (other ∷ effects) = requests effects

abbrev pub is_upload : DecisionKind → Bool
is_upload use_remote_model = false
is_upload upload_full_screenshot = true
is_upload risk_changed = false

-- The local models answer this one request, which the configuration prefers, and they are there.
abbrev pub IsLocal : ConnectionContext → (full local : Bool) → List (Text × Bool × Bool) → Type 0
IsLocal x full local rest =
    (local ≡ true)
    × (full ≡ false)
    × (x.local_planning_available ≡ true)
    × (x.explicit_cloud_mode ≡ false)
    × (rest ≡ [])

-- A remote model answers this one request, as the phone has decided.
abbrev pub IsDecided :
    Moment
    → DeferredRequest
    → DecisionResponse
    → Text
    → (full local : Bool) → List (Text × Bool × Bool)
    → Type 0
IsDecided m waiting response id full local rest =
    (local ≡ false)
    × (full ≡ (is_upload waiting.kind && response.approved))
    × (id ≡ waiting.request_id)
    × (m.now < waiting.expires_at)
    × (rest ≡ [])

hold_started-requests :
    (c : Connection) (id : Text) (m : Moment) (payload : RequestPayload) (busy full local : Bool)
    → requests (hold_started c id (start_remote_request m id payload busy full local)).1
      ≡ (if busy || not m.has_slot then [] else (id, full, local) ∷ [])
unfolding hold_started start_remote_request send_remote_error
hold_started-requests c id m payload busy full local = ground arith

dispatch-requests :
    (x : ConnectionContext) (m : Moment) (c : Connection) (id : Text) (payload : RequestPayload)
    (j : Text) (full local : Bool) (rest : List (Text × Bool × Bool))
    → requests (dispatch x m c id payload).1 ≡ (j, full, local) ∷ rest
    → IsLocal x full local rest
unfolding dispatch send_remote_error send_assistant_output send_decision_request
dispatch-requests x m c id payload j full local rest h =
    ground (arith, hold_started-requests c id m payload false false true)

start_decided-requests :
    (x : ConnectionContext) (m : Moment) (c : Connection) (waiting : DeferredRequest) (may : Bool)
    (j : Text) (full local : Bool) (rest : List (Text × Bool × Bool))
    → requests (start_decided x m c waiting may).1 ≡ (j, full, local) ∷ rest
    → (local ≡ false) × (full ≡ may) × (j ≡ waiting.request_id) × (rest ≡ [])
unfolding start_decided send_remote_error
start_decided-requests x m c waiting may j full local rest h = ground (
  arith,
  hold_started-requests c waiting.request_id m waiting.payload
      (is_some c.processing || is_some c.execution) may false,
)

decide-requests :
    (x : ConnectionContext) (m : Moment) (c : Connection) (waiting : DeferredRequest)
    (approved : Bool) (kind : DecisionKind) (j : Text) (full local : Bool)
    (rest : List (Text × Bool × Bool))
    → requests (decide x m c waiting approved kind).1 ≡ (j, full, local) ∷ rest
    → (local ≡ false)
      × (full ≡ (is_upload kind && approved))
      × (j ≡ waiting.request_id)
      × (rest ≡ [])
unfolding decide send_remote_error send_assistant_output send_decision_request
decide-requests x m c waiting false use_remote_model j full local rest h = absurd cc
decide-requests x m c waiting true use_remote_model j full local rest h = absurd (ground arith)
decide-requests x m c waiting false risk_changed j full local rest h = absurd cc
decide-requests x m c waiting true risk_changed j full local rest h =
    start_decided-requests x m c waiting false j full local rest h
decide-requests x m c waiting false upload_full_screenshot j full local rest h =
    start_decided-requests x m c waiting false j full local rest h
decide-requests x m c waiting true upload_full_screenshot j full local rest h =
    start_decided-requests x m c waiting true j full local rest h

pub respond-requests :
    (x : ConnectionContext) (m : Moment) (c : Connection) (waiting : DeferredRequest)
    (response : DecisionResponse) (j : Text) (full local : Bool) (rest : List (Text × Bool × Bool))
    → requests (respond x m c waiting response).1 ≡ (j, full, local) ∷ rest
    → IsDecided m waiting response j full local rest
unfolding respond send_remote_error
respond-requests x m c waiting response j full local rest h =
    ground (arith, decide-requests x m c waiting response.approved waiting.kind j full local rest)

pub finish_recording-requests :
    (x : ConnectionContext) (m : Moment) (c : Connection) (id : Text) (r : Result AudioError Bytes)
    (j : Text) (full local : Bool) (rest : List (Text × Bool × Bool))
    → requests (finish_recording x m c id r).1.0 ≡ (j, full, local) ∷ rest
    → IsLocal x full local rest
unfolding finish_recording send_remote_error
finish_recording-requests x m c id (ok wav) j full local rest h =
    dispatch-requests x m c id (audio_wav wav) j full local rest h
finish_recording-requests x m c id (err e) j full local rest h = absurd cc

pub accept_audio-requests :
    (c : Connection) (start : Audio.AudioStart) → requests (accept_audio c start).1 ≡ []
unfolding accept_audio send_remote_error
accept_audio-requests c start = ground arith

pub accept_command-requests :
    (x : ConnectionContext) (m : Moment) (c : Connection) (r : CommandRequest) (j : Text)
    (full local : Bool) (rest : List (Text × Bool × Bool))
    → requests (accept_command x m c r).1 ≡ (j, full, local) ∷ rest
    → IsLocal x full local rest
unfolding accept_command send_remote_error
accept_command-requests x m c r j full local rest h =
    ground (arith, dispatch-requests x m c r.request_id (text r.input) j full local rest)

pub on_confirm_execution-requests :
    (m : Moment) (c : Connection) (r : ConfirmExecution)
    → requests (on_confirm_execution m c r).1.0 ≡ []
unfolding on_confirm_execution prepare_confirm send_remote_error publish_execution_status
on_confirm_execution-requests m c r = ground arith

pub publish_processing_result-requests :
    (m : Moment) (c : Connection) (id : Text) (outcome : ProcessingOutcome)
    → requests (publish_processing_result m c id outcome).1 ≡ []
unfolding publish_processing_result publish_preview send_remote_error send_assistant_output
publish_processing_result-requests m c id (progress stage) = refl
publish_processing_result-requests m c id (complete preview none) = refl
publish_processing_result-requests m c id (complete preview (some plan)) = ground arith
publish_processing_result-requests m c id (failed_with code message) = refl

pub publish_execution_outcome-requests :
    (id : Text) (outcome : RemoteExecutionOutcome)
    → requests (publish_execution_outcome id outcome) ≡ []
unfolding publish_execution_outcome publish_execution_status send_remote_error send_assistant_output
publish_execution_outcome-requests id (status s) = refl
publish_execution_outcome-requests id (broken code message) = refl

pub errors-requests :
    (code : Text) (ids : List Text)
    → requests (map (λ id. send_remote_error (some id) code) ids) ≡ []
unfolding send_remote_error
errors-requests code [] = refl
errors-requests code (id ∷ ids) = errors-requests code ids
