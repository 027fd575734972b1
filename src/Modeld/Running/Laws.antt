-- ===== src/Modeld/Running/Laws.antt =====
-- scheduler.rs: which jobs may reach the remote endpoints, and what a local plan keeps to.
use ale_my_eyes_desktop.Prelude.{
  ℕ, ◌+◌, ◌-◌, ◌≤◌, ◌<◌, ◌≡◌, ◌≢◌, inl, inr, Bool, true, false, not, ◌&&◌, none, some, is_some, ltb,
  if◌then◌else◌, arith, Option-cases,
}
use ale_my_eyes_desktop.Prelude.Text.{Text, codes, text_eq, text_eq_iff}
use ale_my_eyes_desktop.Prelude.Bytes.{Bytes}
use ale_my_eyes_desktop.Prelude.Result.{Result-cases}
use ale_my_eyes_desktop.Actions.{rank}
use ale_my_eyes_desktop.Routing.{maximum_risk}
use ale_my_eyes_desktop.Modeld.Retry.Laws.{retry-calls}
use ale_my_eyes_desktop.Modeld.Circuit as Circuit
use ale_my_eyes_desktop.Modeld.Circuit.{RemoteProviderSet}
use ale_my_eyes_desktop.Modeld.Circuit.Failover.{remote_plan-calls}
use ale_my_eyes_desktop.Modeld.Health.{
  ModelCapability, speech_recognition, state_summary, local_planning, remote_planning,
  element_grounding, state_verification, speech_synthesis,
}
use ale_my_eyes_desktop.Modeld.Jobs.{
  ModelJob, LocalPlanningResult, SpeechRecognitionJob, Payloads, LocalModels, local_planned,
}
use ale_my_eyes_desktop.Modeld.Running.{
  Situation, prepare, local_plan, ground_element, verify, remote_transcribe, providers,
  transcribe_locally, speech_recognition_job, plan_remotely, run_local, run_by, stage_timeout,
  schedule, reply_of, has_image, same_capability,
}

-- The capabilities that a remote endpoint may serve.
abbrev pub may_be_remote : ModelCapability → Bool
may_be_remote remote_planning = true
may_be_remote speech_recognition = true
may_be_remote other = false

reply_of-local_planned :
    {Response : Type 0} (r : Circuit.IpcReply Response) (result : LocalPlanningResult)
    → reply_of r ≢ local_planned result
unfolding reply_of
reply_of-local_planned (Circuit.planned r role notice) result h = cc
reply_of-local_planned Circuit.configured result h = cc
reply_of-local_planned Circuit.invalid_remote_job result h = cc
reply_of-local_planned Circuit.screenshot_not_authorized result h = cc
reply_of-local_planned Circuit.remote_not_configured result h = cc
reply_of-local_planned Circuit.primary_remote_rejected result h = cc
reply_of-local_planned Circuit.remote_failed result h = cc
reply_of-local_planned Circuit.primary_remote_failed result h = cc
reply_of-local_planned Circuit.invalid_remote_config result h = cc
reply_of-local_planned Circuit.backup_not_authorized result h = cc

stage_timeout-le :
    (capability : ModelCapability) (remaining : ℕ) → stage_timeout capability remaining ≤ remaining
unfolding stage_timeout
stage_timeout-le speech_recognition remaining = omega arith
stage_timeout-le state_summary remaining = omega arith
stage_timeout-le local_planning remaining = omega arith
stage_timeout-le remote_planning remaining = omega arith
stage_timeout-le element_grounding remaining = omega arith
stage_timeout-le state_verification remaining = omega arith
stage_timeout-le speech_synthesis remaining = omega arith

module _ {Config Endpoint Value Response : Type 0} (payloads : Payloads Value)
    (local : LocalModels Config) (model_of : Endpoint → Text)
    (s : Situation Config Endpoint Response) where
  remote_transcribe-calls :
      (job : ModelJob Config Endpoint Value) (deadline : ℕ) (wav : Bytes)
      → (remote_transcribe payloads local model_of s job deadline wav).calls ≤ 2
  unfolding remote_transcribe
  remote_transcribe-calls job deadline wav =
      elim (Option-cases (providers payloads local model_of s job)) [
        | inl e ↦ ground arith
        | inr (p, e) ↦ elim (Option-cases p.transcription) [
          | inl f ↦ ground arith
          | inr (endpoint, f) ↦
              ground (arith, retry-calls deadline 1 (s.transcriptions endpoint wav))
        ]
      ]

  -- A remote endpoint is called with a recording only if the models on this machine do not
  -- transcribe it, and both the job and its payload allow it.
  pub speech_recognition_job-calls :
      (job : ModelJob Config Endpoint Value) (deadline : ℕ)
      → 1 ≤ (speech_recognition_job payloads local model_of s job deadline).calls
      → (speech : SpeechRecognitionJob) × (wav : Bytes) × (payloads.speech_job job.payload
          ≡ some speech)
        × (payloads.decode_base64 speech.wav_base64 ≡ some wav)
        × (transcribe_locally payloads local model_of s job wav ≡ none)
        × (speech.allow_remote ≡ true)
        × (job.privacy.allow_remote ≡ true)
  unfolding speech_recognition_job
  speech_recognition_job-calls job deadline h =
      elim (Option-cases (payloads.speech_job job.payload)) [
        | inl e ↦ absurd (ground arith)
        | inr (speech, e) ↦ elim (Option-cases (payloads.decode_base64 speech.wav_base64)) [
          | inl f ↦ absurd (ground arith)
          | inr (wav, f) ↦ (speech, wav, e, f, ground arith, ground arith, ground arith)
        ]
      ]

  speech_recognition_job-few :
      (job : ModelJob Config Endpoint Value) (deadline : ℕ)
      → (speech_recognition_job payloads local model_of s job deadline).calls
        ≤ (if job.privacy.allow_remote then 2 else 0)
  unfolding speech_recognition_job
  speech_recognition_job-few job deadline = elim (Option-cases (payloads.speech_job job.payload)) [
    | inl e ↦ ground arith
    | inr (speech, e) ↦ elim (Option-cases (payloads.decode_base64 speech.wav_base64)) [
      | inl f ↦ ground arith
      | inr (wav, f) ↦ ground (arith, remote_transcribe-calls job deadline wav)
    ]
  ]

  -- The whole screenshot is in the payload, and the job does not allow it.
  abbrev pub withholds : ModelJob Config Endpoint Value → Bool
  withholds job =
      has_image (payloads.remote_planning_job job.payload) && not job.privacy.allow_full_screenshot

  plan_remotely-calls :
      (job : ModelJob Config Endpoint Value) (deadline : ℕ)
      → (plan_remotely payloads local model_of s job deadline).calls
        ≤ (if withholds job then 0 else 3)
  unfolding plan_remotely
  plan_remotely-calls job deadline =
      let read = payloads.remote_planning_job job.payload in
      let scene = record s.scene {
        has_image = has_image read;
        allow_full_screenshot = job.privacy.allow_full_screenshot;
        deadline = deadline;
      } in
      ground
        (arith, remote_plan-calls (is_some read) (providers payloads local model_of s job) scene)

  run_by-calls :
      (capability : ModelCapability) (job : ModelJob Config Endpoint Value) (deadline : ℕ)
      → ((run_by payloads local model_of s capability job deadline).calls
          ≤ (if may_be_remote capability && job.privacy.allow_remote then 3 else 0))
        × ((run_by payloads local model_of s capability job deadline).calls
            ≤ (if same_capability capability remote_planning && withholds job then 0 else 3))
  unfolding run_by run_local
  run_by-calls remote_planning job deadline = ground (arith, plan_remotely-calls job deadline)
  run_by-calls speech_recognition job deadline =
      ground (arith, speech_recognition_job-few job deadline)
  run_by-calls state_summary job deadline = ground arith
  run_by-calls local_planning job deadline = ground arith
  run_by-calls element_grounding job deadline = ground arith
  run_by-calls state_verification job deadline = ground arith
  run_by-calls speech_synthesis job deadline = ground arith

  -- A job makes at most three calls of remote endpoints, and none unless it allows them, asks for
  -- remote planning or speech recognition, is in time, and came under its own request; a planning job
  -- with a screenshot that it does not allow makes none.
  pub schedule-calls :
      (request_id : Text) (job : ModelJob Config Endpoint Value)
      → ((schedule payloads local model_of s request_id (some job)).calls ≤ (
          if may_be_remote job.capability
            && job.privacy.allow_remote
            && text_eq job.request_id request_id
            && ltb s.now job.deadline_unix_ms
          then 3
          else 0))
        × ((schedule payloads local model_of s request_id (some job)).calls
            ≤ (if same_capability job.capability remote_planning && withholds job then 0 else 3))
  unfolding schedule
  schedule-calls request_id job =
      let timeout = stage_timeout job.capability (job.deadline_unix_ms - s.now) in
      ground (arith, run_by-calls job.capability job (s.now + timeout))

  local_plan-risk :
      (job : ModelJob Config Endpoint Value) (result : LocalPlanningResult)
      → local_plan payloads local model_of s job ≡ local_planned result
      → rank (maximum_risk result.plan) ≤ rank job.risk_ceiling
  unfolding local_plan
  local_plan-risk job result h =
      elim (Result-cases (
        prepare payloads local model_of s job (payloads.local_planning_job job.payload)
          (codes "INVALID_LOCAL_JOB"))) [
            | inl (code, e) ↦ absurd (ground arith)
            | inr ((id, (planning, config)), e) ↦
                elim (Result-cases (local.local_plan config id planning)) [
                  | inl (code, f) ↦ absurd (ground arith)
                  | inr (found, f) ↦ ground arith
                ]
          ]

  speech_recognition_job-local_planned :
      (job : ModelJob Config Endpoint Value) (deadline : ℕ) (result : LocalPlanningResult)
      → (speech_recognition_job payloads local model_of s job deadline).reply ≢ local_planned result
  unfolding speech_recognition_job remote_transcribe
  speech_recognition_job-local_planned job deadline result h =
      elim (Option-cases (payloads.speech_job job.payload)) [
        | inl e ↦ ground arith
        | inr (speech, e) ↦ elim (Option-cases (payloads.decode_base64 speech.wav_base64)) [
          | inl f ↦ ground arith
          | inr (wav, f) ↦ elim (Option-cases (providers payloads local model_of s job)) [
            | inl g ↦ ground arith
            | inr (p, g) ↦ ground arith
          ]
        ]
      ]

  plan_remotely-local_planned :
      (job : ModelJob Config Endpoint Value) (deadline : ℕ) (result : LocalPlanningResult)
      → (plan_remotely payloads local model_of s job deadline).reply ≢ local_planned result
  unfolding plan_remotely
  plan_remotely-local_planned job deadline result = reply_of-local_planned _ result

  run_by-local_planned :
      (capability : ModelCapability) (job : ModelJob Config Endpoint Value) (deadline : ℕ)
      (result : LocalPlanningResult)
      → (run_by payloads local model_of s capability job deadline).reply ≡ local_planned result
      → rank (maximum_risk result.plan) ≤ rank job.risk_ceiling
  unfolding run_by run_local ground_element verify
  run_by-local_planned remote_planning job deadline result h =
      absurd (ground (arith, plan_remotely-local_planned job deadline result))
  run_by-local_planned speech_recognition job deadline result h =
      absurd (speech_recognition_job-local_planned job deadline result h)
  run_by-local_planned state_summary job deadline result h =
      ground (arith, local_plan-risk job result)
  run_by-local_planned local_planning job deadline result h =
      ground (arith, local_plan-risk job result)
  run_by-local_planned element_grounding job deadline result h =
      elim (Result-cases (
        prepare payloads local model_of s job (payloads.grounding_job job.payload)
          (codes "INVALID_GROUNDING_JOB"))) [
            | inl (code, e) ↦ absurd (ground arith)
            | inr (prepared, e) ↦ absurd (ground arith)
          ]
  run_by-local_planned state_verification job deadline result h =
      elim (Result-cases (
        prepare payloads local model_of s job (payloads.verification_job job.payload)
          (codes "INVALID_VERIFICATION_JOB"))) [
            | inl (code, e) ↦ absurd (ground arith)
            | inr (prepared, e) ↦ absurd (ground arith)
          ]
  run_by-local_planned speech_synthesis job deadline result h = absurd cc

  -- A plan that the local models made is given only if its risk keeps to the job's ceiling and the
  -- job came under its own request and was done before its deadline.
  pub schedule-local_planned :
      (request_id : Text) (job : ModelJob Config Endpoint Value) (result : LocalPlanningResult)
      → (schedule payloads local model_of s request_id (some job)).reply ≡ local_planned result
      → (rank (maximum_risk result.plan) ≤ rank job.risk_ceiling)
        × (job.request_id ≡ request_id)
        × (s.now + s.duration < job.deadline_unix_ms)
  unfolding schedule stage_timeout
  schedule-local_planned request_id job result h =
      let timeout = stage_timeout job.capability (job.deadline_unix_ms - s.now) in
      ground (
        arith,
        text_eq_iff job.request_id request_id,
        stage_timeout-le job.capability (job.deadline_unix_ms - s.now),
        run_by-local_planned job.capability job (s.now + timeout) result,
      )
