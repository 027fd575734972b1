-- ===== src/Config/Validator/Transport.antt =====
-- config.rs, `ConfigValidator`: where an accepted configuration may send keys and screenshots.
use ale_my_eyes_desktop.Prelude.{
  ◌≤◌, ◌≡◌, inl, inr, ◌⊎◌, true, Option, none, some, [], not, arith, ◌||◌, Option-cases,
}
use ale_my_eyes_desktop.Prelude.Text.{Text, codes, text_eq_iff}
use ale_my_eyes_desktop.Prelude.Result.{ok, >>=-eq-ok}
use ale_my_eyes_desktop.Config.{CloudApiConfig, AppConfig}
use ale_my_eyes_desktop.Config.Validator.{
  Url, is_loopback, check_url, validate_cloud_api_transport, check_endpoint, check_backup,
  validate_model_endpoints,
}

-- A base address without credentials in it, over HTTPS, or over HTTP to this machine.
abbrev pub IsPrivate : Url → Type 0
IsPrivate u =
    (u.username ≡ [])
    × (u.password ≡ none)
    × (u.query ≡ none)
    × ((u.scheme ≡ codes "https") ⊎ ((u.scheme ≡ codes "http") × (is_loopback u.host ≡ true)))

check_url-IsPrivate : (u : Url) → check_url u ≡ ok tt → IsPrivate u
unfolding check_url
check_url-IsPrivate u h =
    ground (arith, text_eq_iff u.scheme (codes "https"), text_eq_iff u.scheme (codes "http"))

module _ (parse : Text → Option Url) where
  -- An endpoint whose address is private, and whose limits the program can keep.
  abbrev pub IsSafe : CloudApiConfig → Type 0
  IsSafe c =
      ((u : Url) × (parse c.api_url ≡ some u) × IsPrivate u)
      × (1 ≤ c.timeout)
      × (c.timeout ≤ 80)
      × (1 ≤ c.max_tokens)

  abbrev pub IsSafeOr : Option CloudApiConfig → Type 0
  IsSafeOr none = Unit
  IsSafeOr (some c) = IsSafe c

  transport-IsPrivate :
      (api_url : Text)
      → validate_cloud_api_transport parse api_url ≡ ok tt
      → (u : Url) × (parse api_url ≡ some u) × IsPrivate u
  unfolding validate_cloud_api_transport
  transport-IsPrivate api_url h = elim (Option-cases (parse api_url)) [
    | inl e ↦ absurd (ground arith)
    | inr (u, e) ↦ (u, e, check_url-IsPrivate u (ground arith))
  ]

  check_endpoint-IsSafe : (c : CloudApiConfig) → check_endpoint parse c ≡ ok tt → IsSafe c
  unfolding check_endpoint
  check_endpoint-IsSafe c h =
      let (u, first, rest) = >>=-eq-ok (validate_cloud_api_transport parse c.api_url) _ h in
      (transport-IsPrivate c.api_url first, ground arith, ground arith, ground arith)

  check_backup-IsSafe :
      (backup : Option CloudApiConfig) → check_backup parse backup ≡ ok tt → IsSafeOr backup
  unfolding check_backup
  check_backup-IsSafe none h = tt
  check_backup-IsSafe (some c) h = check_endpoint-IsSafe c h

  -- Every endpoint of an accepted configuration, the backup and the transcription endpoint included,
  -- has an address without credentials in it, over HTTPS or on this machine, a timeout of 1 to 80
  -- seconds and a positive limit of tokens; and the backup is not enabled without its authorization.
  pub validate_model_endpoints-IsSafe :
      (config : AppConfig)
      → validate_model_endpoints parse config ≡ ok tt
      → IsSafe config.cloud_api
        × IsSafeOr config.remote_routing.backup
        × IsSafe config.transcription.endpoint
        × ((not config.remote_routing.backup_enabled || config.remote_routing.backup_pre_authorized)
            ≡ true)
  unfolding validate_model_endpoints
  validate_model_endpoints-IsSafe config h =
      let (u, first, h1) = >>=-eq-ok (check_endpoint parse config.cloud_api) _ h in
      let (v, second, h2) = >>=-eq-ok (check_backup parse config.remote_routing.backup) _ h1 in
      let (w, third, h3) = >>=-eq-ok (check_endpoint parse config.transcription.endpoint) _ h2 in
      (
        check_endpoint-IsSafe config.cloud_api first,
        check_backup-IsSafe config.remote_routing.backup second,
        check_endpoint-IsSafe config.transcription.endpoint third,
        ground arith,
      )
