-- ===== src/Modeld/Running.antt =====
-- ale-modeld/src/scheduler.rs: `schedule`, and how a job is run.
-- The clock and the remote endpoints' answers are parameters, as in Modeld/Circuit; of a reply that
-- fails, the code is kept.
pub mod Laws
use ale_my_eyes_desktop.Prelude.{
  ℕ, ◌+◌, ◌-◌, Bool, true, false, not, ◌&&◌, ◌||◌, Option, none, some, is_some, List, [], ◌∷◌, any,
  ltb, leb, min, if◌then◌else◌,
}
use ale_my_eyes_desktop.Prelude.Text.{Text, codes, text_eq, trim_is_empty}
use ale_my_eyes_desktop.Prelude.Bytes.{Bytes}
use ale_my_eyes_desktop.Prelude.Result.{Result, ok, err}
use ale_my_eyes_desktop.Actions.{rank}
use ale_my_eyes_desktop.Routing.{maximum_risk}
use ale_my_eyes_desktop.Modeld.Retry.{Attempt, retry}
use ale_my_eyes_desktop.Modeld.Circuit as Circuit
use ale_my_eyes_desktop.Modeld.Circuit.{
  RemoteProviderSet, Scene, Planned, IpcReply, planned, configured, invalid_remote_job,
  screenshot_not_authorized, remote_not_configured, primary_remote_rejected, remote_failed,
  primary_remote_failed, invalid_remote_config, backup_not_authorized,
}
use ale_my_eyes_desktop.Modeld.Health.{
  ModelCapability, speech_recognition, state_summary, local_planning, remote_planning,
  element_grounding, state_verification, speech_synthesis,
}
use ale_my_eyes_desktop.Modeld.Jobs.{
  ModelJob, LocalPlanningJob, LocalPlanningResult, SpeechRecognitionJob, Payloads, LocalModels,
  JobReply, local_planned, grounded, verified, transcribed, remote_planned, decision_required,
  decision_required_for, failed, model_stage_timeout,
}

abbrev pub or_else : {A : Type 0} → Option A → Option A → Option A
or_else none later = later
or_else (some a) later = some a

abbrev pub same_capability : ModelCapability → ModelCapability → Bool
same_capability speech_recognition speech_recognition = true
same_capability state_summary state_summary = true
same_capability local_planning local_planning = true
same_capability remote_planning remote_planning = true
same_capability element_grounding element_grounding = true
same_capability state_verification state_verification = true
same_capability speech_synthesis speech_synthesis = true
same_capability a b = false

-- What a job finds: the configuration when it is scheduled and when it asks for it, the clock, how
-- long it runs, how planning by the remote endpoints goes, and their attempts at transcribing.
pub record Situation (Config Endpoint Response : Type 0) : Type 0 where
  pub models : Option Config
  pub models_later : Option Config
  pub remote : Option (RemoteProviderSet Endpoint)
  pub remote_later : Option (RemoteProviderSet Endpoint)
  pub now : ℕ
  pub duration : ℕ
  pub scene : Scene Endpoint Response
  pub transcriptions : Endpoint → Bytes → ℕ → Attempt Text

-- A reply, and how many calls of remote endpoints were made for it.
pub record Ran (Response : Type 0) : Type 0 where
  pub reply : JobReply Response
  pub calls : ℕ

abbrev pub locally : {Response : Type 0} → JobReply Response → Ran Response
locally reply = record { reply = reply; calls = 0 }

-- `Some(value) if !value.trim().is_empty()`
abbrev pub named : Option Text → Option Text
named none = none
named (some id) = if trim_is_empty id then none else some id

-- Whether a planning job has an image.
abbrev pub has_image : Option Bool → Bool
has_image none = false
has_image (some image) = image

unfoldable pub reply_of : {Response : Type 0} → IpcReply Response → JobReply Response
reply_of (planned r role notice) = remote_planned r role notice
reply_of configured = failed (codes "INVALID_REQUEST")
reply_of invalid_remote_job = failed (codes "INVALID_REMOTE_JOB")
reply_of screenshot_not_authorized = failed (codes "SCREENSHOT_NOT_AUTHORIZED")
reply_of remote_not_configured = failed (codes "REMOTE_NOT_CONFIGURED")
reply_of primary_remote_rejected = failed (codes "PRIMARY_REMOTE_REJECTED")
reply_of remote_failed = failed (codes "REMOTE_FAILED")
reply_of primary_remote_failed = failed (codes "PRIMARY_REMOTE_FAILED")
reply_of invalid_remote_config = failed (codes "INVALID_REMOTE_CONFIG")
reply_of backup_not_authorized = failed (codes "BACKUP_NOT_AUTHORIZED")

-- `stage_timeout`
unfoldable pub stage_timeout : ModelCapability → (remaining : ℕ) → ℕ
stage_timeout remote_planning remaining = remaining
stage_timeout speech_recognition remaining = remaining
stage_timeout other remaining = min remaining model_stage_timeout

module _ {Config Endpoint Value Response : Type 0} (payloads : Payloads Value)
    (local : LocalModels Config) (model_of : Endpoint → Text)
    (s : Situation Config Endpoint Response) where
  -- `runtime`, in the scope that `schedule` sets.
  unfoldable pub runtime : ModelJob Config Endpoint Value → Option Config
  runtime job = or_else (or_else job.runtime_snapshot s.models) s.models_later

  unfoldable pub providers : ModelJob Config Endpoint Value → Option (RemoteProviderSet Endpoint)
  providers job = or_else (or_else job.remote_snapshot s.remote) s.remote_later

  unfoldable pub local_capability_available : ModelJob Config Endpoint Value → Bool
  local_capability_available job = elim (runtime job) [
    | none ↦ false
    | some config ↦ any (same_capability job.capability) (local.capabilities config)
  ]

  -- The head that `local_plan`, `ground` and `verify` share: the snapshot, the payload, the models.
  unfoldable pub prepare :
      {J : Type 0}
      → ModelJob Config Endpoint Value
      → Option J
      → (invalid : Text) → Result Text (Text × (J × Config))
  prepare job read invalid = elim (named job.snapshot_id) [
    | none ↦ err (codes "SNAPSHOT_REQUIRED")
    | some id ↦ elim read [
      | none ↦ err invalid
      | some j ↦ elim (runtime job) [
        | none ↦ err (codes "LOCAL_MODEL_UNAVAILABLE")
        | some config ↦ ok (id, (j, config))
      ]
    ]
  ]

  unfoldable pub local_plan : ModelJob Config Endpoint Value → JobReply Response
  local_plan job =
      elim (prepare job (payloads.local_planning_job job.payload) (codes "INVALID_LOCAL_JOB")) [
        | err code ↦ failed code
        | ok (id, (planning, config)) ↦ elim (local.local_plan config id planning) [
          | err e ↦ failed (codes "LOCAL_PLANNING_FAILED")
          | ok result ↦
              if leb (rank (maximum_risk result.plan)) (rank job.risk_ceiling)
              then local_planned result
              else failed (codes "RISK_CEILING_EXCEEDED")
        ]
      ]

  unfoldable pub ground_element : ModelJob Config Endpoint Value → JobReply Response
  ground_element job =
      elim (prepare job (payloads.grounding_job job.payload) (codes "INVALID_GROUNDING_JOB")) [
        | err code ↦ failed code
        | ok (id, (grounding, config)) ↦ elim (local.ground config id grounding) [
          | err e ↦ failed (codes "GROUNDING_FAILED")
          | ok result ↦ grounded result
        ]
      ]

  unfoldable pub verify : ModelJob Config Endpoint Value → JobReply Response
  verify job =
      elim (prepare job (payloads.verification_job job.payload)
        (codes "INVALID_VERIFICATION_JOB")) [
          | err code ↦ failed code
          | ok (id, (verification, config)) ↦ elim (local.verify config id verification) [
            | err e ↦ failed (codes "VERIFICATION_FAILED")
            | ok result ↦ verified result
          ]
        ]

  -- `retry` with one retry, until the stage's deadline.
  unfoldable pub remote_transcribe :
      ModelJob Config Endpoint Value → (deadline : ℕ) → Bytes → Ran Response
  remote_transcribe job deadline wav = elim (providers job) [
    | none ↦ locally (failed (codes "REMOTE_NOT_CONFIGURED"))
    | some p ↦ elim p.transcription [
      | none ↦ locally (failed (codes "REMOTE_ASR_NOT_CONFIGURED"))
      | some endpoint ↦
          let (result, calls) = retry deadline 1 (s.transcriptions endpoint wav) in
          elim result [
            | ok text ↦ record {
              reply =
                  transcribed
                    (record { text = text; model_id = model_of endpoint; used_remote = true });
              calls = calls;
            }
            | err e ↦ record { reply = failed (codes "REMOTE_ASR_FAILED"); calls = calls }
          ]
    ]
  ]

  unfoldable pub transcribe_locally : ModelJob Config Endpoint Value → Bytes → Option Text
  transcribe_locally job wav = elim (runtime job) [
    | none ↦ none
    | some config ↦ elim (local.transcribe_wav config wav) [ ok text ↦ some text | err e ↦ none ]
  ]

  unfoldable pub speech_recognition_job :
      ModelJob Config Endpoint Value → (deadline : ℕ) → Ran Response
  speech_recognition_job job deadline = elim (payloads.speech_job job.payload) [
    | none ↦ locally (failed (codes "INVALID_ASR_JOB"))
    | some speech ↦ elim (payloads.decode_base64 speech.wav_base64) [
      | none ↦ locally (failed (codes "INVALID_AUDIO"))
      | some wav ↦ elim (transcribe_locally job wav) [
        | some text ↦ locally (
            transcribed
              (record { text = text; model_id = codes "SenseVoiceSmall"; used_remote = false }))
        | none ↦
            if not speech.allow_remote || not job.privacy.allow_remote
            then locally (decision_required_for (codes "LOCAL_ASR_UNAVAILABLE"))
            else remote_transcribe job deadline wav
      ]
    ]
  ]

  -- `remote_plan`, with the job's grant of the screenshot and the stage's deadline.
  unfoldable pub plan_remotely : ModelJob Config Endpoint Value → (deadline : ℕ) → Ran Response
  plan_remotely job deadline =
      let read = payloads.remote_planning_job job.payload in
      let plan = Circuit.remote_plan (is_some read) (providers job) (record s.scene {
        has_image = has_image read;
        allow_full_screenshot = job.privacy.allow_full_screenshot;
        deadline = deadline;
      }) in
      record { reply = reply_of plan.reply; calls = plan.to_primary + plan.to_backup }

  unfoldable pub run_local :
      ModelJob Config Endpoint Value
      → (ModelJob Config Endpoint Value → JobReply Response)
      → Ran Response
  run_local job work =
      locally (if local_capability_available job then work job else decision_required)

  -- `run_job`, by the capability that is asked for.
  unfoldable pub run_by :
      ModelCapability → ModelJob Config Endpoint Value → (deadline : ℕ) → Ran Response
  run_by remote_planning job deadline =
      if not job.privacy.allow_remote
      then locally (failed (codes "REMOTE_NOT_AUTHORIZED"))
      else plan_remotely job deadline
  run_by speech_recognition job deadline = speech_recognition_job job deadline
  run_by state_summary job deadline = run_local job local_plan
  run_by local_planning job deadline = run_local job local_plan
  run_by element_grounding job deadline = run_local job ground_element
  run_by state_verification job deadline = run_local job verify
  run_by speech_synthesis job deadline = locally decision_required

  -- `schedule`, on what the request's payload is read as. A job that is not done before its deadline
  -- is dropped, and its reply with it.
  unfoldable pub schedule :
      (request_id : Text) → Option (ModelJob Config Endpoint Value) → Ran Response
  schedule request_id none = locally (failed (codes "INVALID_JOB"))
  schedule request_id (some job) =
      let timeout = stage_timeout job.capability (job.deadline_unix_ms - s.now) in
      let ran = run_by job.capability job (s.now + timeout) in
      if not (text_eq job.request_id request_id)
      then locally (failed (codes "REQUEST_ID_MISMATCH"))
      else if leb job.deadline_unix_ms s.now
      then locally (failed (codes "DEADLINE_EXCEEDED"))
      else if ltb s.duration timeout
      then ran
      else record { reply = failed (codes "DEADLINE_EXCEEDED"); calls = ran.calls }
