-- ===== src/Tests/Models.antt =====
-- ale-modeld and the models' manifest at work.
use ale_my_eyes_desktop.Prelude.{
  ℕ, ◌+◌, ◌*◌, ◌≡◌, refl, ◌≤◌, Bool, true, false, not, ◌&&◌, Option, none, some, List, [], ◌∷◌,
  ◌++◌, arith, ltb, max, is_some, if◌then◌else◌,
}
use ale_my_eyes_desktop.Prelude.Text.{Text, codes, trim_is_empty, is_whitespace, len_utf8}
use ale_my_eyes_desktop.Prelude.Result.{ok, err}
use ale_my_eyes_desktop.Prelude.Assoc
use ale_my_eyes_desktop.Prelude.Assoc.{text_key}
use ale_my_eyes_desktop.Modeld.Admission as Admission
use ale_my_eyes_desktop.Modeld.Admission.{
  Event, schedules, cancels, ends, admitted, duplicate_request_id, accepted, holds_job, on_schedule,
  on_cancel, Loop, start, run,
}
use ale_my_eyes_desktop.Modeld.Admission.Accounts as Accounts
use ale_my_eyes_desktop.Modeld.Admission.Recovering.{end_all, run-recovers}
use ale_my_eyes_desktop.Modeld.Retry.{Attempt, network, authentication, model_call}
use ale_my_eyes_desktop.Modeld.Circuit.{
  RemoteProviderSet, Scene, fresh_circuit, primary_open, remote_plan,
}
use ale_my_eyes_desktop.Modeld.Circuit.Failover.{is_tripped, may_back_up, remote_plan-calls}
use ale_my_eyes_desktop.Modeld.Circuit.Tripping.{fail_all, fail_all-opens}
use ale_my_eyes_desktop.Modeld.Health as Health
use ale_my_eyes_desktop.Modeld.Health.{
  Found, configure, maintenance, probe_ends, speech_recognition,
}
use ale_my_eyes_desktop.Modeld.Health.Probing.{Outcome, probe_ends-Outcome}
use ale_my_eyes_desktop.Manifest as Manifest
use ale_my_eyes_desktop.Manifest.{
  ModelArtifact, ModelPackage, ModelManifest, validate, download_size_bytes, required_disk_bytes,
  size_overflows, disk_requirement_overflows,
}

-- Two jobs are admitted and the first is cancelled.
abbrev events : List (Bool × Event)
events = (true, schedules (codes "a") 7) ∷ (true, schedules (codes "b") 8) ∷ []

run-Inv_example : Accounts.Inv (run start events)
run-Inv_example = Accounts.run-Inv events

abbrev busy : Loop
busy = run start events

busy_holds : holds_job (codes "a") busy.jobs ≡ true
unfolding run Admission.step start Admission.react on_schedule Assoc.contains_key Assoc.insert
busy_holds = refl

abbrev two_jobs : List (Bool × Event)
two_jobs =
    (true, schedules (codes "a") 7)
    ∷ (true, schedules (codes "b") 9)
    ∷ (true, cancels (some (codes "a")))
    ∷ (true, ends (codes "a"))
    ∷ []

two_jobs_going : (run start two_jobs).running ≡ true
unfolding run Admission.step start Admission.react on_schedule Assoc.contains_key on_cancel
    trim_is_empty is_whitespace Assoc.insert Admission.on_end
two_jobs_going = refl

two_jobs_held :
    (j : Text)
    → Admission.holds_job j (run start two_jobs).jobs ≡ true
    → Admission.holds_job j (codes "c" ∷ codes "b" ∷ []) ≡ true
unfolding run Admission.step start Admission.react on_schedule Assoc.contains_key on_cancel
    trim_is_empty is_whitespace Assoc.insert Admission.on_end
two_jobs_held j h = ground arith

-- The job that is left, and one that never was.
run-recovers_example :
    let s = run (run start two_jobs) (end_all (codes "c" ∷ codes "b" ∷ [])) in
    (s.running ≡ true)
    × (s.jobs ≡ [])
    × (s.cancellations ≡ [])
    × (s.admitted_bytes ≡ 0)
    × ((Admission.step s true (schedules (codes "b") 134217728)).1 ≡ admitted)
run-recovers_example =
    run-recovers two_jobs (codes "c" ∷ codes "b" ∷ []) (codes "b") 134217728 two_jobs_going
      two_jobs_held (omega arith)

-- An endpoint that fails to authenticate, and one that cannot be reached.
abbrev rejected : ℕ → Attempt ℕ
rejected n = record {
  started = n;
  returned = some (err (model_call (record { kind = authentication; retry_after_ms = none })));
  ended = n;
  clock_ms = 0;
}

abbrev unreachable : ℕ → Attempt ℕ
unreachable n = record {
  started = n;
  returned = some (err (model_call (record { kind = network; retry_after_ms = none })));
  ended = n;
  clock_ms = 0;
}

abbrev providers : RemoteProviderSet Text
providers = record {
  transcription = none;
  revision = 3;
  primary = codes "p";
  backup = some (codes "b");
  backup_enabled = true;
  backup_pre_authorized = true;
  circuit_failure_threshold = 2;
  circuit_open_seconds = 30;
}

abbrev scene : Scene Text ℕ
scene = record {
  has_image = false;
  allow_full_screenshot = false;
  now = 0;
  deadline = 1000;
  before = fresh_circuit 3;
  after = fresh_circuit 3;
  noted_at = 5;
  primary_calls = unreachable;
  backup_calls = unreachable;
}

remote_plan-calls_example :
    ((remote_plan true (some providers) scene).to_primary
      ≤ (if is_tripped (some providers) scene then 0 else 2))
    × ((remote_plan true (some providers) scene).to_backup
        ≤ (if may_back_up (some providers) then 1 else 0))
    × ((remote_plan true (some providers) scene).to_primary
          + (remote_plan true (some providers) scene).to_backup
        ≤ (if scene.has_image && not scene.allow_full_screenshot then 0 else 3))
remote_plan-calls_example = remote_plan-calls true (some providers) scene

fail_all-opens_example :
    primary_open (fail_all (fresh_circuit 3) providers ((5 ∷ []) ++ 9 ∷ [])) providers 20000
    ≡ ltb 20000 (9 + 1000 * max 30 1)
fail_all-opens_example = fail_all-opens providers (5 ∷ []) 9 20000 (omega arith) (omega arith)

abbrev heard : Option ℕ → ℕ → Found Text Text
heard config now = record { capabilities = speech_recognition ∷ []; devices = ok [] }

-- A probe runs, started with the first configuration, when the second comes.
abbrev changes : List (Health.Event ℕ)
changes = configure 1 10 ∷ configure 2 11 ∷ []

probe_runs : is_some (Health.run heard Health.start changes).probing ≡ true
unfolding Health.run Health.step Health.configure_models Health.refresh_health
probe_runs = refl

probe_ends-Outcome_example : Outcome heard (Health.run heard Health.start changes) 12 13
probe_ends-Outcome_example = probe_ends-Outcome heard changes 12 13 probe_runs

abbrev tensor : ModelArtifact
tensor = record {
  filename = codes "w.bin";
  url = codes "https://h/w";
  revision = codes "r1";
  sha256 = codes "0123456789abcdef0123456789abcdef0123456789abcdef0123456789abcdef";
  size_bytes = 40;
}

abbrev asr : ModelPackage
asr = record {
  id = codes "asr";
  display_name = codes "ASR";
  license = codes "MIT";
  capabilities = speech_recognition ∷ [];
  minimum_vram_bytes = 0;
  requires_explicit_consent = true;
  artifacts = tensor ∷ [];
}

abbrev manifest : ModelManifest
manifest = record { schema_version = 1; packages = asr ∷ [] }

manifest_valid : validate manifest ≡ ok tt
unfolding validate Manifest.validate_packages Manifest.validate_package Manifest.bad_package
    Manifest.bad_artifact Manifest.components trim_is_empty is_whitespace len_utf8
manifest_valid = refl
