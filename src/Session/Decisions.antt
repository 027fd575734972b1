-- ===== src/Session/Decisions.antt =====
-- ale-gui/src/remote_server.rs, `handle_decision_response`: what the phone decides on a request that
-- was put off.
use ale_my_eyes_desktop.Prelude.{
  Bool, true, false, not, ◌&&◌, ◌||◌, some, List, [], ◌∷◌, leb, if◌then◌else◌, is_some,
}
use ale_my_eyes_desktop.Prelude.Text.{codes, text_eq}
use ale_my_eyes_desktop.Session.Messages.{
  DecisionKind, use_remote_model, upload_full_screenshot, risk_changed, DecisionResponse, result,
}
use ale_my_eyes_desktop.Session.Requests.{
  ConnectionContext, Moment, Connection, DeferredRequest, Effect, retries_models, send_remote_error,
  send_assistant_output, send_decision_request, start_remote_request, hold_started,
}

-- The last arm of `handle_decision_response`.
unfoldable pub start_decided :
    ConnectionContext
    → Moment
    → Connection
    → DeferredRequest
    → (allow_full_screenshot : Bool) → Connection × List Effect
start_decided x m c waiting allow_full_screenshot =
    if not x.modeld
    then (c, send_remote_error (some waiting.request_id) (codes "MODEL_SCHEDULER_UNAVAILABLE") ∷ [])
    else hold_started c waiting.request_id (
        start_remote_request m waiting.request_id waiting.payload
          (is_some c.processing || is_some c.execution) allow_full_screenshot false)

-- A decision of the phone in time on the request that waits for it, which is taken out.
unfoldable pub decide :
    ConnectionContext
    → Moment
    → Connection
    → DeferredRequest
    → (approved : Bool) → DecisionKind
    → Connection × List Effect
decide x m c waiting false use_remote_model = (
  c,
  send_assistant_output (some waiting.request_id) result (codes "已取消使用远端模型") true
      ∷ send_remote_error (some waiting.request_id) (codes "CANCELLED")
      ∷ [],
)
decide x m c waiting true use_remote_model =
    let (again, effects) =
      send_decision_request m waiting.request_id waiting.payload upload_full_screenshot in
    (record c { deferred = some again }, if x.modeld then retries_models ∷ effects else effects)
decide x m c waiting false risk_changed =
    (c, send_remote_error (some waiting.request_id) (codes "CANCELLED") ∷ [])
decide x m c waiting true risk_changed = start_decided x m c waiting false
decide x m c waiting approved upload_full_screenshot = start_decided x m c waiting approved

-- Whether a decision is for the request that waits.
unfoldable pub answers : DecisionResponse → DeferredRequest → Bool
answers response waiting =
    text_eq response.request_id waiting.request_id
    && text_eq response.decision_id waiting.decision_id

-- A waiting request and the response to it, with the connection it was taken from.
unfoldable pub respond :
    ConnectionContext
    → Moment
    → Connection
    → DeferredRequest
    → DecisionResponse
    → Connection × List Effect
respond x m c waiting response =
    if leb waiting.expires_at m.now
    then (c, send_remote_error (some waiting.request_id) (codes "DECISION_TIMEOUT") ∷ [])
    else decide x m c waiting response.approved waiting.kind
