-- ===== src/Tests/Desktop.antt =====
-- The supervisor, the configuration and the voice detector at work.
use ale_my_eyes_desktop.Prelude.{
  if◌then◌else◌, Bool, ℕ, ◌+◌, ◌*◌, ◌≤◌, ◌≡◌, ◌≢◌, refl, true, false, not, ◌&&◌, ◌||◌, Option, none,
  some, is_some, List, [], ◌∷◌, leb,
}
use ale_my_eyes_desktop.Prelude.Text.{Text, codes, trim_is_empty, is_whitespace}
use ale_my_eyes_desktop.Prelude.Bytes.{Bytes}
use ale_my_eyes_desktop.Prelude.Result.{ok, err}
use ale_my_eyes_desktop.Config.{AppConfig, default}
use ale_my_eyes_desktop.Config.Validator.{
  Url, domain, check_url, validate_cloud_api_transport, check_endpoint, check_backup,
  validate_model_endpoints, validate_cloud_api,
}
use ale_my_eyes_desktop.Config.Validator.Transport.{
  IsSafe, IsSafeOr, validate_model_endpoints-IsSafe,
}
use ale_my_eyes_desktop.Config.Manager.{
  Account, primary, backup, transcription, same_account, SecretStore, put, Disk, ConfigManager,
  not_written, rollback_failed, update_config, keys_of, commit, store_keys, roll_back, old_keys,
  write_config, atomic_config_write,
}
use ale_my_eyes_desktop.Config.Manager.Atomic.{IsLawful, update_config-fails}
use ale_my_eyes_desktop.Config.Manager.Loading.{without_local, read_config}
use ale_my_eyes_desktop.Config.Manager.Loading.Saved.{IsTrimmed, read_config-update_config}
use ale_my_eyes_desktop.Voice.{default as default_vad}
use ale_my_eyes_desktop.Voice.Runs.{
  heard, heard-streaks, is_silent, is_speaking, has_ended, speech_streak, silence_streak,
}
use ale_my_eyes_desktop.Supervisor as Supervisor
use ale_my_eyes_desktop.Supervisor.{
  World, SupervisorState, start_supervisor, connection, retire_dead, confirm_exit, restart,
  start_process,
}
use ale_my_eyes_desktop.Supervisor.Runs as Runs
use ale_my_eyes_desktop.Supervisor.Runs.{run-start_supervisor}
use ale_my_eyes_desktop.Supervisor.Wellness.{Event, connects, observes, retries, react, was_well}
use ale_my_eyes_desktop.Supervisor.Starting.{gone, connection-starts}

-- A store of credentials in which everything succeeds.
abbrev Cells : Type 0
Cells = Option Text × (Option Text × Option Text)

abbrev write : Account → Option Text → Cells → Cells
write primary key (p, (b, t)) = (key, (b, t))
write backup key (p, (b, t)) = (p, (key, t))
write transcription key (p, (b, t)) = (p, (b, key))

abbrev read : Account → Cells → Option Text
read primary (p, (b, t)) = p
read backup (p, (b, t)) = b
read transcription (p, (b, t)) = t

abbrev cells : SecretStore Cells
cells = record {
  get = λ account s. some (read account s);
  set = λ account key s. (write account (some key) s, true);
  delete = λ account s. (write account none s, true);
}

cells-own :
    (account : Account) (key : Option Text) (s : Cells)
    → (put cells account key s).1 ≡ true
    → cells.get account (put cells account key s).0 ≡ some key
unfolding put
cells-own primary none s h = refl
cells-own primary (some k) s h = refl
cells-own backup none s h = refl
cells-own backup (some k) s h = refl
cells-own transcription none s h = refl
cells-own transcription (some k) s h = refl

cells-other :
    (account a : Account) (key : Option Text) (s : Cells)
    → same_account account a ≡ false
    → cells.get a (put cells account key s).0 ≡ cells.get a s
unfolding put
cells-other primary primary key s h = absurd cc
cells-other primary backup none s h = refl
cells-other primary backup (some k) s h = refl
cells-other primary transcription none s h = refl
cells-other primary transcription (some k) s h = refl
cells-other backup primary none s h = refl
cells-other backup primary (some k) s h = refl
cells-other backup backup key s h = absurd cc
cells-other backup transcription none s h = refl
cells-other backup transcription (some k) s h = refl
cells-other transcription primary none s h = refl
cells-other transcription primary (some k) s h = refl
cells-other transcription backup none s h = refl
cells-other transcription backup (some k) s h = refl
cells-other transcription transcription key s h = absurd cc

cells-IsLawful : IsLawful cells
cells-IsLawful = record { own = cells-own; other = cells-other }

-- Every address is that of the default service.
abbrev parse : Text → Option Url
parse t = some (record {
  scheme = codes "https";
  username = [];
  password = none;
  host = some (domain (codes "api.openai.com"));
  query = none;
  fragment = none;
})

abbrev to_vec : AppConfig → Option Bytes
to_vec config = some (7 ∷ [])

default-valid : validate_model_endpoints parse default ≡ ok tt
unfolding validate_model_endpoints check_endpoint check_backup validate_cloud_api_transport
    check_url trim_is_empty
default-valid = refl

validate_model_endpoints-IsSafe_example :
    IsSafe parse default.cloud_api
    × IsSafeOr parse default.remote_routing.backup
    × IsSafe parse default.transcription.endpoint
    × ((not default.remote_routing.backup_enabled || default.remote_routing.backup_pre_authorized)
        ≡ true)
validate_model_endpoints-IsSafe_example =
    validate_model_endpoints-IsSafe parse default default-valid

abbrev manager : ConfigManager Cells
manager = record { config = default; file = none; store = (some (codes "k"), (none, none)) }

abbrev full : Disk
full = record { can_write = false; can_rename = true }

abbrev working : Disk
working = record { can_write = true; can_rename = true }

refused : (update_config cells parse to_vec full manager default).1 ≡ err not_written
unfolding update_config validate_model_endpoints check_endpoint check_backup
    validate_cloud_api_transport check_url trim_is_empty old_keys commit store_keys roll_back put
    keys_of write_config atomic_config_write
refused = refl

not_written_other : not_written ≢ rollback_failed
not_written_other = cc

update_config-fails_example :
    ((update_config cells parse to_vec full manager default).0.config ≡ manager.config)
    × ((update_config cells parse to_vec full manager default).0.file ≡ manager.file)
    × (cells.get primary (update_config cells parse to_vec full manager default).0.store
        ≡ cells.get primary manager.store)
update_config-fails_example =
    update_config-fails cells cells-IsLawful parse to_vec full manager default primary not_written
      refused not_written_other

-- The default configuration with a key.
abbrev keyed : AppConfig
keyed = record default { cloud_api = record default.cloud_api { api_key = codes "sk" } }

accepted : (update_config cells parse to_vec working manager keyed).1 ≡ ok tt
unfolding update_config validate_model_endpoints check_endpoint check_backup validate_cloud_api
    validate_cloud_api_transport check_url trim_is_empty old_keys commit store_keys roll_back put
    keys_of write_config atomic_config_write is_whitespace
accepted = refl

not_moved : without_local false default ≡ default
unfolding without_local
not_moved = refl

keyed-IsTrimmed : IsTrimmed keyed.cloud_api.api_key
unfolding trim_is_empty is_whitespace
keyed-IsTrimmed h = absurd cc

read_config-update_config_example :
    ((update_config cells parse to_vec working manager keyed).0.file ≡ some (7 ∷ []))
    × (read_config cells parse to_vec
          (λ content. some false)
          (λ content. some default)
          false
          true
          (update_config cells parse to_vec working manager keyed).0.store
          (7 ∷ [])
        ≡ ok keyed)
read_config-update_config_example =
    read_config-update_config cells cells-IsLawful parse to_vec (λ content. some false)
      (λ content. some default) false working manager keyed (7 ∷ []) accepted refl refl refl
      not_moved keyed-IsTrimmed tt

-- Nothing is alive, and every start fails.
abbrev world : World
world = record {
  now = 10;
  alive = λ i. false;
  exits = λ i. true;
  start = err (codes "no");
  start_ends = 20;
}

abbrev supervisor : SupervisorState ℕ ℕ
supervisor = start_supervisor 0 (ok 1) 0

-- The first process dies, the second is well for a minute and dies, and the next starts fail.
abbrev restarts : World
restarts = record world { start = ok 2 }

abbrev calls : List (Event ℕ ℕ)
calls =
    connects restarts
    ∷ observes 2 (ok 0) true 2000
    ∷ observes 2 (ok 0) true 70000
    ∷ connects world
    ∷ retries
    ∷ connects world
    ∷ []

started : (Runs.run [] (start_supervisor 0 (ok 1) 0) calls).1 ≡ (3, 2)
unfolding Runs.run connection Supervisor.note_health start_supervisor react restart confirm_exit
    retire_dead Supervisor.record_process_failure start_process Supervisor.note_healthy
    Supervisor.retry_after_user_request was_well
started = refl

run-start_supervisor_example :
    ((Runs.run [] (start_supervisor 0 (ok 1) 0) calls).1.0
      ≤ 2 + 3 * (Runs.run [] (start_supervisor 0 (ok 1) 0) calls).1.1)
    × ((Runs.run [] (start_supervisor 0 (ok 1) 0) calls).0.restart_blocked
        ≡ leb 3 (Runs.run [] (start_supervisor 0 (ok 1) 0) calls).0.consecutive_failures)
run-start_supervisor_example = run-start_supervisor 0 (ok 1) 0 calls

starts_later : (connection world supervisor).1.1 ≡ some 1010
unfolding connection restart start_process retire_dead confirm_exit start_supervisor
    Supervisor.record_process_failure
starts_later = refl

connection-starts_example :
    (supervisor.restart_blocked ≡ false)
    × ((retire_dead world supervisor).restart_blocked ≡ false)
    × ((not (is_some supervisor.client) || leb supervisor.consecutive_failures 1) ≡ true)
    × ((retire_dead world supervisor).next_start ≤ 1010)
    × ((not (is_some supervisor.client) || leb (world.now + 1000) 1010) ≡ true)
    × (gone world supervisor.client ≡ true)
    × (confirm_exit world (retire_dead world supervisor).retired ≡ true)
    × ((connection world supervisor).0.retired ≡ none)
connection-starts_example = connection-starts world supervisor 1010 starts_later

abbrev frames : List Bool
frames = true ∷ true ∷ false ∷ []

heard-streaks_example :
    ((if is_silent (heard default_vad frames).state
          && is_speaking (heard default_vad (true ∷ frames)).state
        then leb default_vad.speech_start_frames (speech_streak (true ∷ frames))
        else true)
      ≡ true)
    × ((if has_ended (heard default_vad (true ∷ frames)).state
          then leb default_vad.silence_end_frames (silence_streak (true ∷ frames))
          else true)
        ≡ true)
heard-streaks_example = heard-streaks default_vad true frames
