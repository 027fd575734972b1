-- ===== src/Config/Manager.antt =====
-- ale-core/src/config.rs: `ConfigManager`, which keeps the configuration in a file and its keys in a
-- store of credentials (the trait `SecretStore` of secret_store.rs, here an interface).
-- serde_json is a parameter, and so is whether each operation on the disk succeeds.
pub mod Atomic
pub mod Loading
use ale_my_eyes_desktop.Prelude.{
  ◌≡◌, Bool, true, false, not, ◌&&◌, Option, none, some, [], if◌then◌else◌, is_empty,
}
use ale_my_eyes_desktop.Prelude.Text.{Text, codes, text_eq, trim_is_empty}
use ale_my_eyes_desktop.Prelude.Bytes.{Bytes}
use ale_my_eyes_desktop.Prelude.Result.{Result, ok, err}
use ale_my_eyes_desktop.Config.{
  AppConfig, CloudApiConfig, InferenceConfig, openai_chat_completions, default,
}
use ale_my_eyes_desktop.Config.Validator.{Url, ConfigError, validate_model_endpoints}

-- The accounts of the store: the key of the primary, the backup and the transcription endpoint.
pub data Account : Type 0 where
  primary backup transcription : Account

abbrev pub same_account : Account → Account → Bool
same_account primary primary = true
same_account backup backup = true
same_account transcription transcription = true
same_account a b = false

-- The trait `SecretStore`, on the state of a store. `none` is a failed read, `false` a failed write.
pub record SecretStore (S : Type 0) : Type 0 where
  pub get : Account → S → Option (Option Text)
  pub set : Account → (key : Text) → S → S × Bool
  pub delete : Account → S → S × Bool

-- A key that is to stand in the store, or none.
unfoldable pub put : {S : Type 0} → SecretStore S → Account → Option Text → S → S × Bool
put store account none s = store.delete account s
put store account (some key) s = store.set account key s

-- Whether the temporary file can be written and can take the file's place.
pub record Disk : Type 0 where
  pub can_write : Bool
  pub can_rename : Bool

pub data ManagerError : Type 0 where
  invalid : ConfigError → ManagerError
  cannot_read : Account → ManagerError
  cannot_store : Account → ManagerError
  not_serialized not_written not_readable rollback_failed : ManagerError

pub record ConfigManager (S : Type 0) : Type 0 where
  pub config : AppConfig
  pub file : Option Bytes
  pub store : S

-- The file is replaced as a whole or not at all.
unfoldable pub atomic_config_write : Disk → Option Bytes → Bytes → Option Bytes × Bool
atomic_config_write disk file content =
    if disk.can_write && disk.can_rename then (some content, true) else (file, false)

pub record Keys : Type 0 where
  pub primary_key : Option Text
  pub backup_key : Option Text
  pub transcription_key : Option Text

abbrev pub backup_key_of : Option CloudApiConfig → Option Text
backup_key_of none = none
backup_key_of (some b) = if trim_is_empty b.api_key then none else some b.api_key

-- The keys that a configuration brings.
unfoldable pub keys_of : AppConfig → Keys
keys_of config = record {
  primary_key =
      if trim_is_empty config.cloud_api.api_key then none else some config.cloud_api.api_key;
  backup_key = backup_key_of config.remote_routing.backup;
  transcription_key =
      if is_empty config.transcription.endpoint.api_key
      then none
      else some config.transcription.endpoint.api_key;
}

abbrev pub or_default : Option Text → Text
or_default none = []
or_default (some key) = key

unfoldable pub write_config :
    (to_vec : AppConfig → Option Bytes)
    → Disk
    → Option Bytes
    → AppConfig
    → Option Bytes × Result ManagerError (Unit {0})
write_config to_vec disk file config = elim (to_vec config) [
  | none ↦ (file, err not_serialized)
  | some content ↦
      let (file', written) = atomic_config_write disk file content in
      (file', if written then ok tt else err not_written)
]

module _ {S : Type 0} (store : SecretStore S) where
  -- The keys as they are, read one after the other.
  unfoldable pub old_keys : S → Result ManagerError Keys
  old_keys s = elim (store.get primary s) [
    | none ↦ err (cannot_read primary)
    | some p ↦ elim (store.get backup s) [
      | none ↦ err (cannot_read backup)
      | some b ↦ elim (store.get transcription s) [
        | none ↦ err (cannot_read transcription)
        | some t ↦ ok (record { primary_key = p; backup_key = b; transcription_key = t })
      ]
    ]
  ]

  -- The keys are stored until one fails.
  unfoldable pub store_keys : Keys → S → S × Result ManagerError (Unit {0})
  store_keys keys s =
      let (s1, p) = put store primary keys.primary_key s in
      let (s2, b) = put store backup keys.backup_key s1 in
      let (s3, t) = put store transcription keys.transcription_key s2 in
      if not p
      then (s1, err (cannot_store primary))
      else if not b
      then (s2, err (cannot_store backup))
      else if not t
      then (s3, err (cannot_store transcription))
      else (s3, ok tt)

  -- All are put back, whatever fails.
  unfoldable pub roll_back : Keys → S → S × Bool
  roll_back keys s =
      let (s1, p) = put store primary keys.primary_key s in
      let (s2, b) = put store backup keys.backup_key s1 in
      let (s3, t) = put store transcription keys.transcription_key s2 in (s3, p && b && t)

module _ {S : Type 0} (store : SecretStore S) (parse : Text → Option Url)
    (to_vec : AppConfig → Option Bytes) where
  -- The closure in `update_config`: the keys, then the file.
  unfoldable pub commit :
      Disk → ConfigManager S → AppConfig → ConfigManager S × Result ManagerError (Unit {0})
  commit disk m config =
      let (s, stored) = store_keys store (keys_of config) m.store in
      elim stored [
        | err e ↦ (record m { store = s }, err e)
        | ok u ↦
            let (file, written) = write_config to_vec disk m.file config in
            (record m { store = s; file = file }, written)
      ]

  unfoldable pub update_config :
      Disk → ConfigManager S → AppConfig → ConfigManager S × Result ManagerError (Unit {0})
  update_config disk m config = elim (validate_model_endpoints parse config) [
    | err e ↦ (m, err (invalid e))
    | ok u ↦ elim (old_keys store m.store) [
      | err e ↦ (m, err e)
      | ok old ↦
          let (m', committed) = commit disk m config in
          elim committed [
            | ok v ↦ (record m' { config = config }, ok tt)
            | err e ↦
                let (s, restored) = roll_back store old m'.store in
                (record m' { store = s }, err (if restored then e else rollback_failed))
          ]
    ]
  ]

  unfoldable pub save : Disk → ConfigManager S → ConfigManager S × Result ManagerError (Unit {0})
  save disk m = elim (validate_model_endpoints parse m.config) [
    | err e ↦ (m, err (invalid e))
    | ok u ↦
        let (file, written) = write_config to_vec disk m.file m.config in
        (record m { file = file }, written)
  ]
