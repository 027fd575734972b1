-- ===== src/Config/Manager/Loading.antt =====
-- config.rs, `ConfigManager::load`. serde_json is a parameter: whether a file is JSON without a
-- field `transcription`, and the configuration that it reads, its missing fields at their defaults.
pub mod Saved
use ale_my_eyes_desktop.Prelude.{
  Bool, true, false, not, ◌&&◌, Option, none, some, if◌then◌else◌, is_empty,
}
use ale_my_eyes_desktop.Prelude.Text.{Text, codes, text_eq, trim_is_empty}
use ale_my_eyes_desktop.Prelude.Bytes.{Bytes}
use ale_my_eyes_desktop.Prelude.Result.{Result, ok, err, ◌>>=◌}
use ale_my_eyes_desktop.Config.{AppConfig, openai_chat_completions}
use ale_my_eyes_desktop.Config.Validator.{Url}
use ale_my_eyes_desktop.Config.Manager.{
  Account, primary, backup, transcription, SecretStore, Disk, ManagerError, cannot_read,
  not_readable, ConfigManager, or_default, update_config, save,
}

-- A build without local inference plans in the cloud, unless the scheduler is on.
unfoldable pub without_local : (local_inference : Bool) → AppConfig → AppConfig
without_local local_inference config =
    if not local_inference
      && (not config.model_scheduler.enabled && not (text_eq config.inference.mode (codes "cloud")))
    then record config {
      inference = record config.inference {
        mode = codes "cloud";
        prefer_cloud = true;
        fallback_to_local = false;
      };
    }
    else config

-- The endpoint of the transcription in a file from before it had one of its own.
unfoldable pub migrate_transcription : AppConfig → AppConfig
migrate_transcription config = record config {
  transcription = record {
    enabled = not (is_empty config.cloud_api.api_key);
    endpoint = record config.cloud_api {
      model = codes "whisper-1";
      wire_api = openai_chat_completions;
    };
  };
}

unfoldable pub read_file : {A : Type 0} → Option A → Result ManagerError A
read_file none = err not_readable
read_file (some a) = ok a

module _ {S : Type 0} (store : SecretStore S) (s : S) where
  -- A key of the store, empty when it holds none.
  unfoldable pub stored_key : Account → Result ManagerError Text
  stored_key account = elim (store.get account s) [
    | none ↦ err (cannot_read account)
    | some key ↦ ok (or_default key)
  ]

  unfoldable pub fill_primary : AppConfig → Result ManagerError AppConfig
  fill_primary config =
      if trim_is_empty config.cloud_api.api_key
      then (stored_key primary
          >>= (λ key. ok (record config { cloud_api = record config.cloud_api { api_key = key } })))
      else ok config

  unfoldable pub fill_backup : AppConfig → Result ManagerError AppConfig
  fill_backup config = elim config.remote_routing.backup [
    | none ↦ ok config
    | some b ↦
        if trim_is_empty b.api_key
        then (stored_key backup >>= (λ key. ok (record config {
          remote_routing = record config.remote_routing {
            backup = some (record b { api_key = key });
          };
        })))
        else ok config
  ]

  unfoldable pub fill_transcription : (legacy : Bool) → AppConfig → Result ManagerError AppConfig
  fill_transcription true config = ok (migrate_transcription config)
  fill_transcription false config =
      if is_empty config.transcription.endpoint.api_key
      then (stored_key transcription >>= (λ key. ok (record config {
        transcription = record config.transcription {
          endpoint = record config.transcription.endpoint { api_key = key };
        };
      })))
      else ok config

module _ {S : Type 0} (store : SecretStore S) (parse : Text → Option Url)
    (to_vec : AppConfig → Option Bytes) (lacks_transcription : Bytes → Option Bool)
    (from_str : Bytes → Option AppConfig) (local_inference : Bool) where
  -- What the file says, with the keys of the store.
  unfoldable pub read_config : (can_read : Bool) → S → Bytes → Result ManagerError AppConfig
  read_config can_read s content = do
    legacy ← if can_read then read_file (lacks_transcription content) else err not_readable
    config ← read_file (from_str content)
    with_primary ← fill_primary store s (without_local local_inference config)
    with_backup ← fill_backup store s with_primary
    fill_transcription store s legacy with_backup

  unfoldable pub load :
      (can_read : Bool) → Disk → ConfigManager S → ConfigManager S × Result ManagerError (Unit {0})
  load can_read disk m = elim m.file [
    | none ↦ save store parse to_vec disk m
    | some content ↦ elim (read_config can_read m.store content) [
      | err e ↦ (m, err e)
      | ok config ↦ update_config store parse to_vec disk m config
    ]
  ]
