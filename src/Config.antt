-- ===== src/Config.antt =====
-- ale-core/src/config.rs: the configuration and its defaults.
pub mod Validator
pub mod Manager
use ale_my_eyes_desktop.Prelude.{ℕ, ◌*◌, Bool, true, false, Option, none, []}
use ale_my_eyes_desktop.Prelude.Text.{Text, codes}
use ale_my_eyes_desktop.Prelude.Float.{F32}

-- ale-core/src/model_api.rs
pub data WireApi : Type 0 where
  openai_chat_completions openai_responses anthropic_messages google_generate_content : WireApi

pub record CloudApiConfig : Type 0 where
  pub wire_api : WireApi
  pub provider : Text
  pub api_key : Text
  pub api_url : Text
  pub model : Text
  pub max_tokens : ℕ
  pub timeout : ℕ

abbrev pub default_cloud_api : CloudApiConfig
default_cloud_api = record {
  wire_api = openai_chat_completions;
  provider = codes "openai";
  api_key = [];
  api_url = codes "https://api.openai.com/v1";
  model = codes "gpt-4o";
  max_tokens = 1024;
  timeout = 30;
}

pub record RemoteRoutingConfig : Type 0 where
  pub backup : Option CloudApiConfig
  pub backup_enabled : Bool
  pub backup_pre_authorized : Bool
  pub circuit_failure_threshold : ℕ
  pub circuit_open_seconds : ℕ

abbrev pub default_remote_routing : RemoteRoutingConfig
default_remote_routing = record {
  backup = none;
  backup_enabled = false;
  backup_pre_authorized = false;
  circuit_failure_threshold = 3;
  circuit_open_seconds = 60;
}

pub record ModelSchedulerConfig : Type 0 where
  pub enabled : Bool
  pub require_download_consent : Bool
  pub local_vlm_gpu_only : Bool
  pub idle_ttl_seconds : ℕ
  pub minimum_default_vram_bytes : ℕ
  pub minimum_large_vram_bytes : ℕ
  pub qwen_model : Text
  pub qwen_large_model : Text
  pub grounding_model : Text
  pub full_screenshot_requires_confirmation : Bool

abbrev pub default_model_scheduler : ModelSchedulerConfig
default_model_scheduler = record {
  enabled = true;
  require_download_consent = true;
  local_vlm_gpu_only = true;
  idle_ttl_seconds = 120;
  minimum_default_vram_bytes = 8 * 1024 * 1024 * 1024;
  minimum_large_vram_bytes = 16 * 1024 * 1024 * 1024;
  qwen_model = codes "Qwen2.5-VL-3B-Instruct";
  qwen_large_model = codes "Qwen2.5-VL-7B-Instruct";
  grounding_model = codes "ShowUI-2B";
  full_screenshot_requires_confirmation = true;
}

pub record ModelsConfig : Type 0 where
  pub auto_download : Bool
  pub max_download_size : ℕ
  pub preferred_quality : Text
  pub offline_mode : Bool
  pub models_dir : Text

abbrev pub default_models : ModelsConfig
default_models = record {
  auto_download = false;
  max_download_size = 500 * 1024 * 1024;
  preferred_quality = codes "balanced";
  offline_mode = false;
  models_dir = codes "models";
}

pub record InferenceConfig : Type 0 where
  pub mode : Text
  pub prefer_cloud : Bool
  pub timeout : ℕ
  pub fallback_to_local : Bool

abbrev pub default_inference : InferenceConfig
default_inference = record {
  mode = codes "adaptive";
  prefer_cloud = false;
  timeout = 30;
  fallback_to_local = false;
}

pub record AudioConfig : Type 0 where
  pub sample_rate : ℕ
  pub channels : ℕ
  pub buffer_size : ℕ
  pub voice : Text
  pub speed : F32

-- The speed is 1.0.
abbrev pub default_audio : AudioConfig
default_audio = record {
  sample_rate = 16000;
  channels = 1;
  buffer_size = 4096;
  voice = codes "default";
  speed = 0x3f800000;
}

pub record AsrConfig : Type 0 where
  pub sampling_strategy : Text
  pub beam_size : ℕ
  pub initial_prompt : Text
  pub temperature : F32
  pub language : Text
  pub weak_voice_mode : Bool

abbrev pub default_asr : AsrConfig
default_asr = record {
  sampling_strategy = codes "greedy";
  beam_size = 3;
  initial_prompt = [];
  temperature = 0;
  language = [];
  weak_voice_mode = false;
}

pub record UiConfig : Type 0 where
  pub language : Text
  pub theme : Text
  pub font_size : ℕ
  pub high_contrast : Bool
  pub screen_reader : Bool
  pub auto_speak : Bool

abbrev pub default_ui : UiConfig
default_ui = record {
  language = codes "zh-CN";
  theme = codes "system";
  font_size = 16;
  high_contrast = false;
  screen_reader = true;
  auto_speak = true;
}

pub record TranscriptionConfig : Type 0 where
  pub enabled : Bool
  pub endpoint : CloudApiConfig

abbrev pub default_transcription : TranscriptionConfig
default_transcription = record {
  enabled = false;
  endpoint = record default_cloud_api { model = codes "whisper-1" };
}

pub record AppConfig : Type 0 where
  pub transcription : TranscriptionConfig
  pub cloud_api : CloudApiConfig
  pub remote_routing : RemoteRoutingConfig
  pub model_scheduler : ModelSchedulerConfig
  pub models : ModelsConfig
  pub inference : InferenceConfig
  pub audio : AudioConfig
  pub asr : AsrConfig
  pub ui : UiConfig

abbrev pub default : AppConfig
default = record {
  transcription = default_transcription;
  cloud_api = default_cloud_api;
  remote_routing = default_remote_routing;
  model_scheduler = default_model_scheduler;
  models = default_models;
  inference = default_inference;
  audio = default_audio;
  asr = default_asr;
  ui = default_ui;
}
