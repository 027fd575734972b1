-- ===== src/Config/Manager/Atomic.antt =====
-- config.rs, `ConfigManager::update_config`: all or nothing.
use ale_my_eyes_desktop.Prelude.{
  ◌≡◌, ◌≢◌, refl, ap, ◌∙◌, inl, inr, true, false, Option, some, arith, Option-cases,
}
use ale_my_eyes_desktop.Prelude.Text.{Text}
use ale_my_eyes_desktop.Prelude.Bytes.{Bytes}
use ale_my_eyes_desktop.Prelude.Result.{ok, err, Result-cases}
use ale_my_eyes_desktop.Config.{AppConfig}
use ale_my_eyes_desktop.Config.Validator.{Url, validate_model_endpoints}
use ale_my_eyes_desktop.Config.Manager.{
  Account, primary, backup, transcription, same_account, SecretStore, put, Disk, ManagerError,
  rollback_failed, ConfigManager, atomic_config_write, Keys, keys_of, old_keys, store_keys,
  roll_back, write_config, commit, update_config,
}

-- What a store documents: a write that succeeds can be read, and a write, also one that fails, leaves
-- the other accounts alone.
pub record IsLawful {S : Type 0} (store : SecretStore S) : Type 0 where
  pub own :
      (account : Account) (key : Option Text) (s : S)
      → (put store account key s).1 ≡ true
      → store.get account (put store account key s).0 ≡ some key
  pub other :
      (account a : Account) (key : Option Text) (s : S)
      → same_account account a ≡ false
      → store.get a (put store account key s).0 ≡ store.get a s

abbrev pub key_of : Keys → Account → Option Text
key_of keys primary = keys.primary_key
key_of keys backup = keys.backup_key
key_of keys transcription = keys.transcription_key

write_config-file :
    (to_vec : AppConfig → Option Bytes) (disk : Disk) (file : Option Bytes) (config : AppConfig)
    → (write_config to_vec disk file config).0
      ≡ (elim (write_config to_vec disk file config).1 [ ok u ↦ to_vec config | err e ↦ file ])
unfolding write_config atomic_config_write
write_config-file to_vec disk file config = elim (Option-cases (to_vec config)) [
  | inl e ↦ ground arith
  | inr (content, e) ↦ ground arith
]

module _ {S : Type 0} (store : SecretStore S) (lawful : IsLawful store) where
  roll_back-get :
      (keys : Keys) (s : S) (account : Account)
      → (roll_back store keys s).1 ≡ true
      → store.get account (roll_back store keys s).0 ≡ some (key_of keys account)
  unfolding roll_back
  roll_back-get keys s primary h =
      let s1 = (put store primary keys.primary_key s).0 in
      let s2 = (put store backup keys.backup_key s1).0 in
      lawful.other transcription primary keys.transcription_key s2 refl
      ∙ lawful.other backup primary keys.backup_key s1 refl
      ∙ lawful.own primary keys.primary_key s (ground arith)
  roll_back-get keys s backup h =
      let s1 = (put store primary keys.primary_key s).0 in
      let s2 = (put store backup keys.backup_key s1).0 in
      lawful.other transcription backup keys.transcription_key s2 refl
      ∙ lawful.own backup keys.backup_key s1 (ground arith)
  roll_back-get keys s transcription h =
      let s1 = (put store primary keys.primary_key s).0 in
      let s2 = (put store backup keys.backup_key s1).0 in
      lawful.own transcription keys.transcription_key s2 (ground arith)

  rolled-stored :
      (keys : Keys) (s : S)
      → (store_keys store keys s).1 ≡ ok tt
      → ((store_keys store keys s).0 ≡ (roll_back store keys s).0)
        × ((roll_back store keys s).1 ≡ true)
  unfolding store_keys roll_back
  rolled-stored keys s h = ground arith

  store_keys-get :
      (keys : Keys) (s : S) (account : Account)
      → (store_keys store keys s).1 ≡ ok tt
      → store.get account (store_keys store keys s).0 ≡ some (key_of keys account)
  store_keys-get keys s account h =
      let (same, rolled) = rolled-stored keys s h in
      ap (store.get account) same ∙ roll_back-get keys s account rolled

  old_keys-get :
      (s : S) (keys : Keys) (account : Account)
      → old_keys store s ≡ ok keys
      → store.get account s ≡ some (key_of keys account)
  unfolding old_keys
  old_keys-get s keys primary h = ground arith
  old_keys-get s keys backup h = ground arith
  old_keys-get s keys transcription h = ground arith

  module _ (parse : Text → Option Url) (to_vec : AppConfig → Option Bytes) where
    commit-fails :
        (disk : Disk) (m : ConfigManager S) (config : AppConfig) (e : ManagerError)
        → (commit store parse to_vec disk m config).1 ≡ err e
        → ((commit store parse to_vec disk m config).0.config ≡ m.config)
          × ((commit store parse to_vec disk m config).0.file ≡ m.file)
    unfolding commit
    commit-fails disk m config e h =
        elim (Result-cases (store_keys store (keys_of config) m.store).1) [
          | inl (f, stored) ↦ ground arith
          | inr (u, stored) ↦ ground (arith, write_config-file to_vec disk m.file config)
        ]

    commit-succeeds :
        (disk : Disk) (m : ConfigManager S) (config : AppConfig) (account : Account)
        → (commit store parse to_vec disk m config).1 ≡ ok tt
        → ((commit store parse to_vec disk m config).0.file ≡ to_vec config)
          × (store.get account (commit store parse to_vec disk m config).0.store
              ≡ some (key_of (keys_of config) account))
    unfolding commit
    commit-succeeds disk m config account h =
        elim (Result-cases (store_keys store (keys_of config) m.store).1) [
          | inl (f, stored) ↦ absurd (ground arith)
          | inr (u, stored) ↦ ground (
            arith,
            write_config-file to_vec disk m.file config,
            store_keys-get (keys_of config) m.store account stored,
          )
        ]

    -- With a store that keeps its promises, an update that fails, for whatever reason but a failed
    -- rollback, leaves the configuration, the file and every key as they were.
    pub update_config-fails :
        (disk : Disk) (m : ConfigManager S) (config : AppConfig) (account : Account)
        (e : ManagerError)
        → (update_config store parse to_vec disk m config).1 ≡ err e
        → e ≢ rollback_failed
        → ((update_config store parse to_vec disk m config).0.config ≡ m.config)
          × ((update_config store parse to_vec disk m config).0.file ≡ m.file)
          × (store.get account (update_config store parse to_vec disk m config).0.store
              ≡ store.get account m.store)
    unfolding update_config
    update_config-fails disk m config account e h not_failed =
        elim (Result-cases (validate_model_endpoints parse config)) [
          | inl (f, v) ↦ ground arith
          | inr (u, v) ↦ elim (Result-cases (old_keys store m.store)) [
            | inl (f, o) ↦ ground arith
            | inr (old, o) ↦ elim (Result-cases (commit store parse to_vec disk m config).1) [
              | inr (w, c) ↦ absurd (ground arith)
              | inl (f, c) ↦ ground (
                arith,
                commit-fails disk m config f c,
                old_keys-get m.store old account o,
                roll_back-get old (commit store parse to_vec disk m config).0.store account,
              )
            ]
          ]
        ]

    -- With a store that keeps its promises, an update that succeeds leaves the new configuration, the
    -- file that it is written as, and for each account just the key that it brings.
    pub update_config-succeeds :
        (disk : Disk) (m : ConfigManager S) (config : AppConfig) (account : Account)
        → (update_config store parse to_vec disk m config).1 ≡ ok tt
        → ((update_config store parse to_vec disk m config).0.config ≡ config)
          × ((update_config store parse to_vec disk m config).0.file ≡ to_vec config)
          × (store.get account (update_config store parse to_vec disk m config).0.store
              ≡ some (key_of (keys_of config) account))
    unfolding update_config
    update_config-succeeds disk m config account h =
        elim (Result-cases (validate_model_endpoints parse config)) [
          | inl (f, v) ↦ absurd (ground arith)
          | inr (u, v) ↦ elim (Result-cases (old_keys store m.store)) [
            | inl (f, o) ↦ absurd (ground arith)
            | inr (old, o) ↦ elim (Result-cases (commit store parse to_vec disk m config).1) [
              | inl (f, c) ↦ absurd (ground arith)
              | inr (w, c) ↦ ground (arith, commit-succeeds disk m config account c)
            ]
          ]
        ]
