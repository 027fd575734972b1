-- ===== src/Session/Messages.antt =====
-- ale-core/src/remote.rs: what a phone and the desktop tell each other. The texts for people in
-- errors, progress and decisions are left out.
use ale_my_eyes_desktop.Prelude.{ℕ, Bool, Option, List}
use ale_my_eyes_desktop.Prelude.Text.{Text}
use ale_my_eyes_desktop.Session.Audio.{AudioStart, AudioChunk, AudioEnd}
use ale_my_eyes_desktop.Session.PendingPlans.{ConfirmExecution, ExecutionStatus}

abbrev pub remote_protocol_version : ℕ
remote_protocol_version = 3

pub record CommandRequest : Type 0 where
  pub request_id : Text
  pub input : Text

pub record CommandPreview : Type 0 where
  pub request_id : Text
  pub response_text : Text
  pub action_steps : List Text
  pub confirmation_text : Text
  pub requires_confirmation : Bool
  pub has_plan : Bool

pub data ProgressStage : Type 0 where
  transcribing capturing_state summarizing planning grounding : ProgressStage
  awaiting_decision executing verifying : ProgressStage

pub data DecisionKind : Type 0 where
  use_remote_model upload_full_screenshot risk_changed : DecisionKind

pub record DecisionRequest : Type 0 where
  pub request_id : Text
  pub decision_id : Text
  pub kind : DecisionKind
  pub expires_in_seconds : ℕ

pub record DecisionResponse : Type 0 where
  pub request_id : Text
  pub decision_id : Text
  pub approved : Bool

pub data AssistantOutputKind : Type 0 where
  information confirmation error result : AssistantOutputKind

pub record AssistantOutput : Type 0 where
  pub request_id : Option Text
  pub kind : AssistantOutputKind
  pub display_text : Text
  pub speech_text : Text
  pub interrupt : Bool
  pub sensitive : Bool

pub record RemoteError : Type 0 where
  pub request_id : Option Text
  pub code : Text

pub data RemoteMessage : Type 0 where
  client_hello : (protocol_version : ℕ) → (device_name : Text) → RemoteMessage
  server_hello : (protocol_version : ℕ) → (device_name session_id : Text) → RemoteMessage
  command_request : CommandRequest → RemoteMessage
  audio_start : AudioStart → RemoteMessage
  audio_chunk : AudioChunk → RemoteMessage
  audio_end : AudioEnd → RemoteMessage
  cancel_request : (request_id : Text) → RemoteMessage
  command_preview : CommandPreview → RemoteMessage
  progress_update : (request_id : Text) → ProgressStage → RemoteMessage
  decision_request : DecisionRequest → RemoteMessage
  decision_response : DecisionResponse → RemoteMessage
  assistant_output : AssistantOutput → RemoteMessage
  confirm_execution : ConfirmExecution → RemoteMessage
  execution_status : ExecutionStatus → RemoteMessage
  ping : (nonce : ℕ) → RemoteMessage
  pong : (nonce : ℕ) → RemoteMessage
  remote_error : RemoteError → RemoteMessage
