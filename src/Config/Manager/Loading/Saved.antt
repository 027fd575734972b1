-- ===== src/Config/Manager/Loading/Saved.antt =====
-- config.rs: what `ConfigManager::load` reads after `ConfigManager::update_config`.
use ale_my_eyes_desktop.Prelude.{
  ◌≡◌, refl, ◌∙◌, inl, inr, Bool, true, false, Option, none, some, [], ◌∷◌, arith, Bool-cases,
  is_empty, if◌then◌else◌,
}
use ale_my_eyes_desktop.Prelude.Text.{Text, trim_is_empty}
use ale_my_eyes_desktop.Prelude.Bytes.{Bytes}
use ale_my_eyes_desktop.Prelude.Result.{ok}
use ale_my_eyes_desktop.Config.{AppConfig, CloudApiConfig}
use ale_my_eyes_desktop.Config.Validator.{Url}
use ale_my_eyes_desktop.Config.Manager.{
  Account, primary, backup, transcription, SecretStore, Disk, ConfigManager, or_default,
  update_config, keys_of, backup_key_of,
}
use ale_my_eyes_desktop.Config.Manager.Atomic.{IsLawful, update_config-succeeds}
use ale_my_eyes_desktop.Config.Manager.Loading.{
  without_local, read_file, stored_key, fill_primary, fill_backup, fill_transcription, read_config,
}

abbrev pub without_key : CloudApiConfig → CloudApiConfig
without_key endpoint = record endpoint { api_key = [] }

abbrev pub map_backup : Option CloudApiConfig → Option CloudApiConfig
map_backup none = none
map_backup (some b) = some (without_key b)

-- What is written of a configuration: a key is skipped (`skip_serializing` of the field).
abbrev pub without_keys : AppConfig → AppConfig
without_keys config = record config {
  cloud_api = without_key config.cloud_api;
  remote_routing = record config.remote_routing {
    backup = map_backup config.remote_routing.backup;
  };
  transcription = record config.transcription {
    endpoint = without_key config.transcription.endpoint;
  };
}

-- A key that is white space only is empty.
abbrev pub IsTrimmed : Text → Type 0
IsTrimmed key = trim_is_empty key ≡ true → key ≡ []

abbrev pub IsTrimmedOr : Option CloudApiConfig → Type 0
IsTrimmedOr none = Unit
IsTrimmedOr (some b) = IsTrimmed b.api_key

trimmed-back :
    (key : Text) → IsTrimmed key → or_default (if trim_is_empty key then none else some key) ≡ key
trimmed-back key h = elim (Bool-cases (trim_is_empty key)) [
  | inl e ↦ ground (arith, h e)
  | inr e ↦ ground arith
]

empty-back : (key : Text) → or_default (if is_empty key then none else some key) ≡ key
empty-back [] = refl
empty-back (c ∷ key) = refl

module _ {S : Type 0} (store : SecretStore S) (s : S) where
  stored_key-some :
      (account : Account) (key : Option Text)
      → store.get account s ≡ some key
      → stored_key store s account ≡ ok (or_default key)
  unfolding stored_key
  stored_key-some account key h = ground arith

  fill_primary-saved :
      (config : AppConfig)
      → IsTrimmed config.cloud_api.api_key
      → store.get primary s ≡ some (keys_of config).primary_key
      → fill_primary store s (without_keys config)
        ≡ ok (record (without_keys config) { cloud_api = config.cloud_api })
  unfolding fill_primary keys_of trim_is_empty
  fill_primary-saved config trimmed h =
      rw
        (
          stored_key-some primary (keys_of config).primary_key h,
          trimmed-back config.cloud_api.api_key trimmed,
        )
        refl

  fill_backup-saved :
      (config : AppConfig) (b : Option CloudApiConfig)
      → IsTrimmedOr b
      → store.get backup s ≡ some (backup_key_of b)
      → fill_backup store s (record config {
        remote_routing = record config.remote_routing { backup = map_backup b };
      })
        ≡ ok (record config { remote_routing = record config.remote_routing { backup = b } })
  unfolding fill_backup trim_is_empty
  fill_backup-saved config none trimmed h = refl
  fill_backup-saved config (some b) trimmed h =
      rw (stored_key-some backup (backup_key_of (some b)) h, trimmed-back b.api_key trimmed) refl

  fill_transcription-saved :
      (config : AppConfig)
      → store.get transcription s ≡ some (keys_of config).transcription_key
      → fill_transcription store s false (record config {
        transcription = record config.transcription {
          endpoint = without_key config.transcription.endpoint;
        };
      })
        ≡ ok config
  unfolding fill_transcription keys_of
  fill_transcription-saved config h =
      rw
        (
          stored_key-some transcription (keys_of config).transcription_key h,
          empty-back config.transcription.endpoint.api_key,
        )
        refl

module _ {S : Type 0} (store : SecretStore S) (lawful : IsLawful store) (parse : Text → Option Url)
    (to_vec : AppConfig → Option Bytes) (lacks_transcription : Bytes → Option Bool)
    (from_str : Bytes → Option AppConfig) (local_inference : Bool) where
  -- With a store that keeps its promises and a file that reads back without its keys, after an update
  -- that succeeds the file and the store together read as the configuration that was given, keys
  -- included, if no key of the cloud endpoints is white space only and this build does not move the
  -- configuration to the cloud.
  pub read_config-update_config :
      (disk : Disk) (m : ConfigManager S) (config : AppConfig) (content : Bytes)
      → (update_config store parse to_vec disk m config).1 ≡ ok tt
      → to_vec config ≡ some content
      → lacks_transcription content ≡ some false
      → from_str content ≡ some (without_keys config)
      → without_local local_inference (without_keys config) ≡ without_keys config
      → IsTrimmed config.cloud_api.api_key
      → IsTrimmedOr config.remote_routing.backup
      → ((update_config store parse to_vec disk m config).0.file ≡ some content)
        × (read_config store parse to_vec lacks_transcription from_str local_inference true
              (update_config store parse to_vec disk m config).0.store
              content
            ≡ ok config)
  unfolding read_config read_file keys_of
  read_config-update_config disk m config content h written new back kept trimmed trimmed_backup =
      let left =
        (λ (a : Account). update_config-succeeds store lawful parse to_vec disk m config a h) in
      let s = (update_config store parse to_vec disk m config).0.store in
      (
        (left primary).1 ∙ written,
        rw
            (
              new,
              back,
              kept,
              fill_primary-saved store s config trimmed (left primary).2,
              fill_backup-saved store s
                  (record (without_keys config) { cloud_api = config.cloud_api })
                  config.remote_routing.backup trimmed_backup (left backup).2,
            )
            (fill_transcription-saved store s config (left transcription).2),
      )
