-- ===== src/Voice.antt =====
-- ale-core/src/vad.rs: `VoiceActivityDetector`, the detector that finds where speech begins and ends.
-- A frame counts by whether its energy is above the threshold; the root mean square of the samples is
-- a parameter. The history of energies, which only `adapt_threshold` reads, is left out.
pub mod Runs
use ale_my_eyes_desktop.Prelude.{
  ℕ, zero, suc, ◌+◌, ◌*◌, Bool, true, false, List, [], ◌∷◌, leb, ◌==◌, if◌then◌else◌, length, take,
  drop,
}
use ale_my_eyes_desktop.Prelude.Float.{F32, f32_lt}

pub data VadState : Type 0 where
  silent speaking speech_ended : VadState

pub record VadConfig : Type 0 where
  pub energy_threshold : F32
  pub speech_start_frames : ℕ
  pub silence_end_frames : ℕ
  pub sample_rate : ℕ
  pub frame_size : ℕ

-- The thresholds of the defaults are 0.015 and 0.008.
abbrev pub default : VadConfig
default = record {
  energy_threshold = 0x3c75c28f;
  speech_start_frames = 3;
  silence_end_frames = 25;
  sample_rate = 16000;
  frame_size = 320;
}

abbrev pub weak_voice : VadConfig
weak_voice = record {
  energy_threshold = 0x3c03126f;
  speech_start_frames = 2;
  silence_end_frames = 35;
  sample_rate = 16000;
  frame_size = 320;
}

pub record VoiceActivityDetector : Type 0 where
  pub config : VadConfig
  pub state : VadState
  pub speech_frame_count : ℕ
  pub silence_frame_count : ℕ

unfoldable pub new : VadConfig → VoiceActivityDetector
new config = record {
  config = config;
  state = silent;
  speech_frame_count = 0;
  silence_frame_count = 0;
}

unfoldable pub reset : VoiceActivityDetector → VoiceActivityDetector
reset v = record v { state = silent; speech_frame_count = 0; silence_frame_count = 0 }

-- The match of `process_frame`, by the state.
unfoldable pub advance :
    VadState → VoiceActivityDetector → (is_speech : Bool) → VoiceActivityDetector
advance silent v true = record v {
  speech_frame_count = suc v.speech_frame_count;
  silence_frame_count = 0;
  state = if leb v.config.speech_start_frames (suc v.speech_frame_count) then speaking else v.state;
}
advance silent v false = record v { speech_frame_count = 0 }
advance speaking v true = record v { silence_frame_count = 0 }
advance speaking v false = record v {
  silence_frame_count = suc v.silence_frame_count;
  state =
      if leb v.config.silence_end_frames (suc v.silence_frame_count) then speech_ended else v.state;
}
advance speech_ended v is_speech = record v {
  state = silent;
  speech_frame_count = 0;
  silence_frame_count = 0;
}

module _ (compute_rms_energy : List F32 → F32) where
  unfoldable pub process_frame : VoiceActivityDetector → List F32 → VoiceActivityDetector × VadState
  process_frame v samples =
      let next =
        advance v.state v (f32_lt v.config.energy_threshold (compute_rms_energy samples)) in
      (next, next.state)

  -- The loop of `process_audio_chunks`, over the chunks of `chunks(frame_size)` from the one of an
  -- index on.
  unfoldable pub process_chunks :
      (frame_size index : ℕ)
      → VoiceActivityDetector
      → List (List F32)
      → VoiceActivityDetector × List (ℕ × VadState)
  process_chunks frame_size index v [] = (v, [])
  process_chunks frame_size index v (chunk ∷ chunks) =
      let (v', state) = process_frame v chunk in
      let (v1, results) = process_chunks frame_size (suc index) v' chunks in
      let (v2, passed) = process_chunks frame_size (suc index) v chunks in
      if length chunk == frame_size
      then (v1, (index * frame_size, state) ∷ results)
      else (v2, passed)
