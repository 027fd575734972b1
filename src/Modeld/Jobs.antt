-- ===== src/Modeld/Jobs.antt =====
-- ale-core/src/model_scheduler.rs: the jobs that ale-modeld is given, what it answers, and the models
-- on this machine, which ale-modeld/src/llama.rs and sensevoice.rs run.
-- serde_json, Base64 and the local models are parameters.
use ale_my_eyes_desktop.Prelude.{ℕ, Bool, Option, List}
use ale_my_eyes_desktop.Prelude.Text.{Text}
use ale_my_eyes_desktop.Prelude.Bytes.{Bytes}
use ale_my_eyes_desktop.Prelude.Float.{F32}
use ale_my_eyes_desktop.Prelude.Result.{Result}
use ale_my_eyes_desktop.Actions.{RiskLevel}
use ale_my_eyes_desktop.Routing.{SemanticPlan, TargetRef}
use ale_my_eyes_desktop.Modeld.Circuit.{RemoteProviderSet, RemoteEndpointRole}
use ale_my_eyes_desktop.Modeld.Health.{ModelCapability}

abbrev pub model_stage_timeout : ℕ
model_stage_timeout = 30000

pub record JobPrivacy : Type 0 where
  pub allow_remote : Bool
  pub allow_full_screenshot : Bool
  pub allow_sensitive_content : Bool

-- The priority, which nothing reads here, is left out. A deadline is an instant after 1970.
pub record ModelJob (Config Endpoint Value : Type 0) : Type 0 where
  pub runtime_snapshot : Option Config
  pub remote_snapshot : Option (RemoteProviderSet Endpoint)
  pub request_id : Text
  pub capability : ModelCapability
  pub deadline_unix_ms : ℕ
  pub risk_ceiling : RiskLevel
  pub snapshot_id : Option Text
  pub privacy : JobPrivacy
  pub payload : Value

pub record BoundingBox : Type 0 where
  pub x : F32
  pub y : F32
  pub width : F32
  pub height : F32

pub record GroundingCandidate : Type 0 where
  pub bounds : BoundingBox
  pub click_x : F32
  pub click_y : F32
  pub confidence : F32
  pub evidence : Text

pub record GroundingResult : Type 0 where
  pub snapshot_id : Text
  pub model_id : Text
  pub selected : Option GroundingCandidate
  pub candidates : List GroundingCandidate

pub record LocalPlanningJob : Type 0 where
  pub question : Text
  pub image_base64 : Text
  pub application_id : Option Text

pub record LocalPlanningResult : Type 0 where
  pub plan : SemanticPlan
  pub model_id : Text
  pub snapshot_id : Text

pub record GroundingJob : Type 0 where
  pub image_base64 : Text
  pub target : TargetRef
  pub image_width : ℕ
  pub image_height : ℕ
  pub candidate_bounds : List BoundingBox

pub record StateVerificationJob : Type 0 where
  pub image_base64 : Text
  pub expected_state : Text

pub record StateVerificationResult : Type 0 where
  pub observed : Bool
  pub summary : Text
  pub model_id : Text
  pub snapshot_id : Text

pub record SpeechRecognitionJob : Type 0 where
  pub wav_base64 : Text
  pub allow_remote : Bool

-- The notice of a failover, which is never given for speech, is left out.
pub record SpeechRecognitionResult : Type 0 where
  pub text : Text
  pub model_id : Text
  pub used_remote : Bool

-- What serde_json reads a job's payload as; of a job of remote planning, whether it has an image.
pub record Payloads (Value : Type 0) : Type 0 where
  pub local_planning_job : Value → Option LocalPlanningJob
  pub grounding_job : Value → Option GroundingJob
  pub verification_job : Value → Option StateVerificationJob
  pub speech_job : Value → Option SpeechRecognitionJob
  pub remote_planning_job : Value → Option Bool
  pub decode_base64 : Text → Option Bytes

-- The models on this machine, under a configuration: what they can do, and what they answer.
pub record LocalModels (Config : Type 0) : Type 0 where
  pub capabilities : Config → List ModelCapability
  pub local_plan :
      Config → (snapshot_id : Text) → LocalPlanningJob → Result Text LocalPlanningResult
  pub ground : Config → (snapshot_id : Text) → GroundingJob → Result Text GroundingResult
  pub verify :
      Config → (snapshot_id : Text) → StateVerificationJob → Result Text StateVerificationResult
  pub transcribe_wav : Config → Bytes → Result Text Text

-- A reply: its status, and the result or the error's code.
pub data JobReply (Response : Type 0) : Type 0 where
  local_planned : LocalPlanningResult → JobReply Response
  grounded : GroundingResult → JobReply Response
  verified : StateVerificationResult → JobReply Response
  transcribed : SpeechRecognitionResult → JobReply Response
  remote_planned : Response → RemoteEndpointRole → (failover_notice : Bool) → JobReply Response
  decision_required : JobReply Response
  decision_required_for : (code : Text) → JobReply Response
  failed : (code : Text) → JobReply Response
