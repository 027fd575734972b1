-- ===== src/Session/Requests.antt =====
-- ale-gui/src/remote_server.rs: what a connection keeps of its phone's requests, and how a request
-- is checked, put off until the phone has decided, and started.
-- A task is known by its request: it runs while the connection holds it and is aborted when the
-- connection lets it go. What the desktop's window shows of a connection is left out.
use ale_my_eyes_desktop.Prelude.{
  ℕ, ◌+◌, Bool, true, false, not, ◌&&◌, ◌||◌, Option, none, some, List, [], ◌∷◌, ltb, if◌then◌else◌,
  length, is_empty,
}
use ale_my_eyes_desktop.Prelude.Text.{Text, codes, text_eq, len_utf8, trim_is_empty}
use ale_my_eyes_desktop.Prelude.Bytes.{Bytes}
use ale_my_eyes_desktop.Prelude.Result.{Result, ok, err}
use ale_my_eyes_desktop.Actions.{ActionPlan}
use ale_my_eyes_desktop.Session.Audio.{AudioAssembler}
use ale_my_eyes_desktop.Session.PendingPlans as PendingPlans
use ale_my_eyes_desktop.Session.PendingPlans.{PendingPlans}
use ale_my_eyes_desktop.Session.RateLimit.{IpAddr, ClientRequestLimiter}
use ale_my_eyes_desktop.Session.Speech.{sanitize_speech_text}
use ale_my_eyes_desktop.Session.Messages.{
  CommandRequest, awaiting_decision, DecisionKind, use_remote_model, upload_full_screenshot,
  AssistantOutputKind, error, RemoteMessage, progress_update, decision_request, assistant_output,
  remote_error,
}

abbrev pub max_text_chars : ℕ
max_text_chars = 2000

abbrev pub max_text_bytes : ℕ
max_text_bytes = 8192

abbrev pub max_pending_plans : ℕ
max_pending_plans = 16

abbrev pub pending_plan_ttl : ℕ
pending_plan_ttl = 120000

abbrev pub connection_idle_timeout : ℕ
connection_idle_timeout = 30000

pub data RequestPayload : Type 0 where
  text : Text → RequestPayload
  audio_wav : Bytes → RequestPayload

pub record DeferredRequest : Type 0 where
  pub request_id : Text
  pub decision_id : Text
  pub kind : DecisionKind
  pub payload : RequestPayload
  pub expires_at : ℕ

-- What stays the same for a connection; of the client of ale-modeld, whether there is one.
pub record ConnectionContext : Type 0 where
  pub address : IpAddr
  pub modeld : Bool
  pub scheduler_enabled : Bool
  pub explicit_cloud_mode : Bool
  pub local_planning_available : Bool
  pub credential_code : Text

-- What a connection finds when it takes its next input: the clock, the state it shares with others
-- (the limiter, a free slot of the semaphore, the pairing credentials), and a fresh identifier.
pub record Moment : Type 0 where
  pub now : ℕ
  pub request_limiter : ClientRequestLimiter
  pub has_slot : Bool
  pub current_code : Text
  pub credentials_expire : ℕ
  pub fresh_id : Text

-- The local variables of `handle_connection`.
pub record Connection : Type 0 where
  pub pending : PendingPlans
  pub active_audio : Option AudioAssembler
  pub processing : Option Text
  pub deferred : Option DeferredRequest
  pub execution : Option Text
  pub unexpected_messages : ℕ
  pub authenticated : Bool
  pub paused : Bool
  pub last_received : ℕ

pub data Effect : Type 0 where
  sends : RemoteMessage → Effect
  pings : Effect
  limits : ClientRequestLimiter → Effect
  retries_models : Effect
  starts_request :
      (request_id : Text) → RequestPayload → (allow_full_screenshot local_inference : Bool) → Effect
  starts_execution : (request_id : Text) → ActionPlan → Effect

unfoldable pub new_pending : PendingPlans
new_pending = PendingPlans.new max_pending_plans pending_plan_ttl

unfoldable pub fresh : (now : ℕ) → Connection
fresh now = record {
  pending = new_pending;
  active_audio = none;
  processing = none;
  deferred = none;
  execution = none;
  unexpected_messages = 0;
  authenticated = false;
  paused = false;
  last_received = now;
}

unfoldable pub send_remote_error : Option Text → (code : Text) → Effect
send_remote_error id code = sends (remote_error (record { request_id = id; code = code }))

unfoldable pub send_assistant_output : Option Text → AssistantOutputKind → Text → Bool → Effect
send_assistant_output id kind shown interrupt =
    let speech_text = sanitize_speech_text shown in
    sends (
      assistant_output (record {
        request_id = id;
        kind = kind;
        display_text = speech_text;
        speech_text = speech_text;
        interrupt = interrupt;
        sensitive = not (text_eq speech_text shown);
      }))

-- The error is its code.
unfoldable pub validate_command_request : CommandRequest → Result Text (Unit {0})
validate_command_request request =
    if is_empty request.request_id || ltb 64 (len_utf8 request.request_id)
    then err (codes "INVALID_REQUEST_ID")
    else if trim_is_empty request.input
    then err (codes "EMPTY_TEXT")
    else if ltb max_text_bytes (len_utf8 request.input) || ltb max_text_chars (length request.input)
    then err (codes "TEXT_TOO_LARGE")
    else ok tt

unfoldable pub initial_model_decision :
    (explicit_cloud_mode local_planning_available : Bool) → DecisionKind
initial_model_decision explicit_cloud_mode local_planning_available =
    if explicit_cloud_mode
    then upload_full_screenshot
    else if not local_planning_available
    then use_remote_model
    else use_remote_model

unfoldable pub defer_request : Moment → Text → RequestPayload → DecisionKind → DeferredRequest
defer_request m id payload kind = record {
  request_id = id;
  decision_id = m.fresh_id;
  kind = kind;
  payload = payload;
  expires_at = m.now + 30000;
}

unfoldable pub send_decision_request :
    Moment → Text → RequestPayload → DecisionKind → DeferredRequest × List Effect
send_decision_request m id payload kind = (
  defer_request m id payload kind,
  sends (progress_update id awaiting_decision)
      ∷ sends (
          decision_request (record {
            request_id = id;
            decision_id = m.fresh_id;
            kind = kind;
            expires_in_seconds = 30;
          }))
      ∷ [],
)

-- The task is spawned with a slot of the semaphore; without one, or when the connection is busy, the
-- request is refused.
unfoldable pub start_remote_request :
    Moment
    → Text
    → RequestPayload
    → (connection_busy allow_full_screenshot local_inference : Bool) → Result Text Effect
start_remote_request m id payload connection_busy allow_full_screenshot local_inference =
    if connection_busy || not m.has_slot
    then err (codes "SERVER_BUSY")
    else ok (starts_request id payload allow_full_screenshot local_inference)

-- How each caller of `start_remote_request` goes on.
unfoldable pub hold_started : Connection → Text → Result Text Effect → Connection × List Effect
hold_started c id (ok effect) = (record c { processing = some id }, effect ∷ [])
hold_started c id (err code) = (c, send_remote_error (some id) code ∷ [])

-- A checked command, or a recording that is whole.
unfoldable pub dispatch :
    ConnectionContext → Moment → Connection → Text → RequestPayload → Connection × List Effect
dispatch x m c id payload =
    if not x.scheduler_enabled
    then (c, send_remote_error (some id) (codes "MODEL_SCHEDULER_DISABLED") ∷ [])
    else if not x.modeld
    then (
      c,
      send_assistant_output (some id) error (codes "桌面模型调度器不可用，未切换到旧的直连路径") true
          ∷ send_remote_error (some id) (codes "MODEL_SCHEDULER_UNAVAILABLE")
          ∷ [],
    )
    else if x.local_planning_available && not x.explicit_cloud_mode
    then hold_started c id (start_remote_request m id payload false false true)
    else (let (waiting, effects) =
          send_decision_request m id payload
            (initial_model_decision x.explicit_cloud_mode x.local_planning_available) in
        (record c { deferred = some waiting }, effects))
