-- ===== src/Config/Validator.antt =====
-- ale-core/src/config.rs, `ConfigValidator`. The URL parser (the crate url) is a parameter.
pub mod Transport
use ale_my_eyes_desktop.Prelude.{
  ℕ, ◌/◌, ◌^◌, ◌≡◌, refl, Bool, true, false, not, ◌&&◌, ◌||◌, Option, none, some, is_some, List, [],
  ◌∷◌, ltb, leb, ◌==◌, if◌then◌else◌, is_empty, any, arith,
}
use ale_my_eyes_desktop.Prelude.Text.{Text, codes, text_eq, to_ascii_lowercase, trim_is_empty}
use ale_my_eyes_desktop.Prelude.Float.{F32, f32_lt, f32_is_nan, f32_magnitude}
use ale_my_eyes_desktop.Prelude.Result.{Result, ok, err, ◌>>=◌, ◌>>◌, fail_if}
use ale_my_eyes_desktop.Config.{
  WireApi, openai_chat_completions, openai_responses, anthropic_messages, google_generate_content,
  CloudApiConfig, ModelsConfig, InferenceConfig, AsrConfig, AppConfig,
}

-- `url::Host`, an address by its number.
pub data Host : Type 0 where
  domain : Text → Host
  ipv4 ipv6 : ℕ → Host

-- What the program reads off a `url::Url`.
pub record Url : Type 0 where
  pub scheme : Text
  pub username : Text
  pub password : Option Text
  pub host : Option Host
  pub query : Option Text
  pub fragment : Option Text

pub data ConfigError : Type 0 where
  invalid_api_url not_a_base_url http_not_loopback not_https : ConfigError
  bad_limits api_key_required api_url_required model_name_required bad_timeout : ConfigError
  backup_not_authorized backup_required transcription_not_openai : ConfigError
  bad_download_size bad_quality bad_mode bad_strategy bad_beam_size bad_temperature : ConfigError
  bad_idle_ttl bad_font_size : ConfigError

-- `Ipv4Addr::is_loopback` is 127.0.0.0/8, `Ipv6Addr::is_loopback` is ::1.
unfoldable pub is_loopback : Option Host → Bool
is_loopback none = false
is_loopback (some (domain host)) = text_eq (to_ascii_lowercase host) (codes "localhost")
is_loopback (some (ipv4 address)) = address / 2 ^ 24 == 127
is_loopback (some (ipv6 address)) = address == 1

abbrev pub is_one_of : List Text → Text → Bool
is_one_of texts s = any (λ t. text_eq s t) texts

unfoldable pub is_openai : WireApi → Bool
is_openai openai_chat_completions = true
is_openai openai_responses = true
is_openai anthropic_messages = false
is_openai google_generate_content = false

unfoldable pub validate_models : ModelsConfig → Result ConfigError (Unit {0})
validate_models config = do
  fail_if (config.max_download_size == 0) bad_download_size
  fail_if
      (not
        (is_one_of (codes "low" ∷ codes "balanced" ∷ codes "high" ∷ []) config.preferred_quality))
      bad_quality

unfoldable pub validate_inference : InferenceConfig → Result ConfigError (Unit {0})
validate_inference config =
    fail_if (not (is_one_of (codes "local" ∷ codes "cloud" ∷ codes "adaptive" ∷ []) config.mode))
      bad_mode

-- A temperature is finite, and not below 0.0 nor above 2.0.
unfoldable pub validate_asr : AsrConfig → Result ConfigError (Unit {0})
validate_asr config = do
  fail_if (not (is_one_of (codes "greedy" ∷ codes "beam" ∷ []) config.sampling_strategy))
      bad_strategy
  fail_if (config.beam_size == 0) bad_beam_size
  fail_if (ltb 10 config.beam_size) bad_beam_size
  fail_if
      (leb 0x7f800000 (f32_magnitude config.temperature)
        || f32_lt config.temperature 0
        || f32_lt 0x40000000 config.temperature)
      bad_temperature

unfoldable pub check_url : Url → Result ConfigError (Unit {0})
check_url parsed =
    if not (is_some parsed.host)
      || not (is_empty parsed.username)
      || is_some parsed.password
      || is_some parsed.query
      || is_some parsed.fragment
    then err not_a_base_url
    else if text_eq parsed.scheme (codes "https")
    then ok tt
    else if text_eq parsed.scheme (codes "http")
    then fail_if (not (is_loopback parsed.host)) http_not_loopback
    else err not_https

module _ (parse : Text → Option Url) where
  unfoldable pub validate_cloud_api_transport : Text → Result ConfigError (Unit {0})
  validate_cloud_api_transport api_url = elim (parse api_url) [
    | none ↦ err invalid_api_url
    | some parsed ↦ check_url parsed
  ]

  unfoldable pub validate_cloud_api : CloudApiConfig → Result ConfigError (Unit {0})
  validate_cloud_api config = do
    fail_if (is_empty config.api_key) api_key_required
    fail_if (is_empty config.api_url) api_url_required
    validate_cloud_api_transport config.api_url
    fail_if (is_empty config.model) model_name_required
    fail_if (config.timeout == 0 || ltb 80 config.timeout) bad_timeout

  -- The body of the loop over the endpoints.
  unfoldable pub check_endpoint : CloudApiConfig → Result ConfigError (Unit {0})
  check_endpoint endpoint = do
    validate_cloud_api_transport endpoint.api_url
    fail_if (endpoint.timeout == 0 || ltb 80 endpoint.timeout || endpoint.max_tokens == 0)
        bad_limits

  unfoldable pub check_backup : Option CloudApiConfig → Result ConfigError (Unit {0})
  check_backup none = ok tt
  check_backup (some backup) = check_endpoint backup

  unfoldable pub validate_backup : Option CloudApiConfig → Result ConfigError (Unit {0})
  validate_backup none = err backup_required
  validate_backup (some backup) = validate_cloud_api backup

  unfoldable pub validate_model_endpoints : AppConfig → Result ConfigError (Unit {0})
  validate_model_endpoints config = do
    check_endpoint config.cloud_api
    check_backup config.remote_routing.backup
    check_endpoint config.transcription.endpoint
    if trim_is_empty config.cloud_api.api_key then ok tt else validate_cloud_api config.cloud_api
    if config.remote_routing.backup_enabled
        then fail_if (not config.remote_routing.backup_pre_authorized) backup_not_authorized
          >> validate_backup config.remote_routing.backup
        else ok tt
    if config.transcription.enabled
        then validate_cloud_api config.transcription.endpoint
          >> fail_if (not (is_openai config.transcription.endpoint.wire_api))
              transcription_not_openai
        else ok tt

  unfoldable pub validate_all : AppConfig → Result ConfigError (Unit {0})
  validate_all config = do
    validate_cloud_api config.cloud_api
    validate_models config.models
    validate_inference config.inference
    validate_asr config.asr
    if config.remote_routing.backup_enabled
        then validate_backup config.remote_routing.backup
          >> fail_if (not config.remote_routing.backup_pre_authorized) backup_not_authorized
        else ok tt
    fail_if (config.model_scheduler.idle_ttl_seconds == 0) bad_idle_ttl
    fail_if (config.ui.font_size == 0) bad_font_size
