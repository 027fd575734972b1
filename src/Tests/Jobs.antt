-- ===== src/Tests/Jobs.antt =====
-- Jobs in ale-modeld at work.
use ale_my_eyes_desktop.Prelude.{
  ℕ, ◌+◌, ◌≤◌, ◌<◌, ◌≡◌, refl, true, false, ◌&&◌, none, some, [], ◌∷◌, ltb, ◌==◌, if◌then◌else◌,
  arith,
}
use ale_my_eyes_desktop.Prelude.Text.{Text, codes, text_eq, is_whitespace, trim_is_empty}
use ale_my_eyes_desktop.Prelude.Bytes.{Bytes}
use ale_my_eyes_desktop.Prelude.Result.{ok, err}
use ale_my_eyes_desktop.Actions.{low, rank, maximum_or_low}
use ale_my_eyes_desktop.Routing.{maximum_risk}
use ale_my_eyes_desktop.Modeld.Retry.{Attempt, retry, retry_from}
use ale_my_eyes_desktop.Modeld.Circuit.{RemoteProviderSet, fresh_circuit}
use ale_my_eyes_desktop.Modeld.Health as Health
use ale_my_eyes_desktop.Modeld.Health.{
  speech_recognition, local_planning, remote_planning, ModelCapability,
}
use ale_my_eyes_desktop.Modeld.Jobs.{
  ModelJob, LocalPlanningResult, SpeechRecognitionJob, Payloads, LocalModels, local_planned,
}
use ale_my_eyes_desktop.Modeld.Running.{
  Situation, schedule, run_by, run_local, local_plan, prepare, runtime, providers,
  local_capability_available, stage_timeout, speech_recognition_job, transcribe_locally,
  remote_transcribe, same_capability,
}
use ale_my_eyes_desktop.Modeld.Running.Laws.{
  may_be_remote, withholds, schedule-calls, schedule-local_planned, speech_recognition_job-calls,
}
use ale_my_eyes_desktop.Modeld.Configuring.{
  SchedulerConfiguration, ModelScheduler, configure_scheduler, remotely, is_configured,
  configure_scheduler-both,
}

abbrev silent : ℕ → Attempt Text
silent n = record { started = n; returned = some (ok (codes "x")); ended = n; clock_ms = 0 }

abbrev services : RemoteProviderSet ℕ
services = record {
  transcription = some 1;
  revision = 4;
  primary = 2;
  backup = none;
  backup_enabled = false;
  backup_pre_authorized = false;
  circuit_failure_threshold = 3;
  circuit_open_seconds = 60;
}

abbrev situation : Situation ℕ ℕ ℕ
situation = record {
  models = some 7;
  models_later = none;
  remote = some services;
  remote_later = none;
  now = 100;
  duration = 5;
  scene = record {
    has_image = false;
    allow_full_screenshot = false;
    now = 100;
    deadline = 0;
    before = fresh_circuit 4;
    after = fresh_circuit 4;
    noted_at = 101;
    primary_calls = λ n. record { started = n; returned = some (ok 1); ended = n; clock_ms = 0 };
    backup_calls = λ n. record { started = n; returned = some (ok 1); ended = n; clock_ms = 0 };
  };
  transcriptions = λ endpoint wav. silent;
}

abbrev found : LocalPlanningResult
found = record {
  plan = record { goal = codes "g"; application_id = none; steps = [] };
  model_id = codes "m";
  snapshot_id = codes "s";
}

-- Plans can be made here, and speech cannot be transcribed.
abbrev local : LocalModels ℕ
local = record {
  capabilities = λ config. local_planning ∷ [];
  local_plan = λ config id job. ok found;
  ground = λ config id job. err [];
  verify = λ config id job. err [];
  transcribe_wav = λ config wav. err [];
}

abbrev speech : SpeechRecognitionJob
speech = record { wav_base64 = codes "w"; allow_remote = true }

abbrev payloads : Payloads ℕ
payloads = record {
  local_planning_job =
      λ v. some (record { question = []; image_base64 = []; application_id = none });
  grounding_job = λ v. none;
  verification_job = λ v. none;
  speech_job = λ v. some speech;
  remote_planning_job = λ v. some false;
  decode_base64 = λ t. some t;
}

abbrev model_of : ℕ → Text
model_of endpoint = codes "whisper"

abbrev job : ModelCapability → ModelJob ℕ ℕ ℕ
job capability = record {
  runtime_snapshot = none;
  remote_snapshot = none;
  request_id = codes "r";
  capability = capability;
  deadline_unix_ms = 1000;
  risk_ceiling = low;
  snapshot_id = some (codes "s");
  privacy = record {
    allow_remote = true;
    allow_full_screenshot = false;
    allow_sensitive_content = false;
  };
  payload = 0;
}

schedule-calls_example :
    ((schedule payloads local model_of situation (codes "r") (some (job remote_planning))).calls ≤ (
      if may_be_remote remote_planning && true && text_eq (codes "r") (codes "r") && ltb 100 1000
      then 3
      else 0))
    × ((schedule payloads local model_of situation (codes "r") (some (job remote_planning))).calls
        ≤ (if same_capability remote_planning remote_planning
              && withholds payloads local model_of situation (job remote_planning)
            then 0
            else 3))
schedule-calls_example =
    schedule-calls payloads local model_of situation (codes "r") (job remote_planning)

planned_here :
    (schedule payloads local model_of situation (codes "r") (some (job local_planning))).reply
    ≡ local_planned found
unfolding schedule stage_timeout run_by run_local local_capability_available runtime local_plan
    prepare trim_is_empty is_whitespace maximum_risk maximum_or_low
planned_here = refl

schedule-local_planned_example :
    (rank (maximum_risk found.plan) ≤ rank low) × (codes "r" ≡ codes "r") × (100 + 5 < 1000)
schedule-local_planned_example =
    schedule-local_planned payloads local model_of situation (codes "r") (job local_planning) found
      planned_here

sent_away :
    1
    ≤ (speech_recognition_job payloads local model_of situation (job speech_recognition) 1000).calls
unfolding speech_recognition_job transcribe_locally runtime remote_transcribe providers retry
    retry_from
sent_away = omega arith

speech_recognition_job-calls_example :
    (s : SpeechRecognitionJob) × (wav : Bytes) × (payloads.speech_job 0 ≡ some s)
    × (payloads.decode_base64 s.wav_base64 ≡ some wav)
    × (transcribe_locally payloads local model_of situation (job speech_recognition) wav ≡ none)
    × (s.allow_remote ≡ true)
    × (true ≡ true)
speech_recognition_job-calls_example =
    speech_recognition_job-calls payloads local model_of situation (job speech_recognition) 1000
      sent_away

abbrev scheduler : ModelScheduler ℕ ℕ ℕ ℕ
scheduler = record { circuit = fresh_circuit 0; remote = none; monitor = Health.start }

abbrev config : SchedulerConfiguration ℕ ℕ
config = record { revision = 4; providers = services; models = 7 }

configure_scheduler-both_example : configure_scheduler scheduler (some config) 50 ≡ (
    if (4 == 4) && is_configured (remotely scheduler services).1
    then (
      record {
        circuit = (remotely scheduler services).0.0;
        remote = (remotely scheduler services).0.1;
        monitor = Health.configure_models Health.start 7 50;
      },
      true,
    )
    else (scheduler, false))
configure_scheduler-both_example = configure_scheduler-both scheduler config 50
