-- ===== src/Voice/Runs.antt =====
-- vad.rs: what the detector has heard when it says that speech begins or ends.
use ale_my_eyes_desktop.Prelude.{
  ℕ, suc, ◌≤◌, ◌≡◌, refl, ◌&&◌, Bool, true, false, List, [], ◌∷◌, leb, if◌then◌else◌, arith,
}
use ale_my_eyes_desktop.Voice.{
  VadState, silent, speaking, speech_ended, VadConfig, VoiceActivityDetector, new, advance,
}

-- The detector after frames of speech and of silence, the last one first.
unfoldable pub heard : VadConfig → List Bool → VoiceActivityDetector
heard config [] = new config
heard config (is_speech ∷ earlier) = let v = heard config earlier in advance v.state v is_speech

-- How many frames of speech, or of silence, came last.
abbrev pub speech_streak : List Bool → ℕ
speech_streak [] = 0
speech_streak (true ∷ earlier) = suc (speech_streak earlier)
speech_streak (false ∷ earlier) = 0

abbrev pub silence_streak : List Bool → ℕ
silence_streak [] = 0
silence_streak (true ∷ earlier) = 0
silence_streak (false ∷ earlier) = suc (silence_streak earlier)

-- The counts never say more than was heard.
abbrev Fits : VadState → VoiceActivityDetector → List Bool → Type 0
Fits silent v fs = v.speech_frame_count ≤ speech_streak fs
Fits speaking v fs = v.silence_frame_count ≤ silence_streak fs
Fits speech_ended v fs = v.config.silence_end_frames ≤ silence_streak fs

heard-config : (config : VadConfig) (fs : List Bool) → (heard config fs).config ≡ config
unfolding heard new advance
heard-config config [] = refl
heard-config config (f ∷ earlier) = ground (arith, heard-config config earlier)

advance-Fits :
    (state : VadState) (v : VoiceActivityDetector) (f : Bool) (earlier : List Bool)
    → v.state ≡ state
    → Fits state v earlier
    → Fits (advance state v f).state (advance state v f) (f ∷ earlier)
unfolding advance
advance-Fits silent v true earlier e h = ground arith
advance-Fits silent v false earlier e h = ground arith
advance-Fits speaking v true earlier e h = ground arith
advance-Fits speaking v false earlier e h = ground arith
advance-Fits speech_ended v f earlier e h = ground arith

heard-Fits :
    (config : VadConfig) (fs : List Bool) → Fits (heard config fs).state (heard config fs) fs
unfolding heard new
heard-Fits config [] = ground arith
heard-Fits config (f ∷ earlier) =
    let v = heard config earlier in
    advance-Fits v.state v f earlier refl (heard-Fits config earlier)

begins-streak :
    (state : VadState) (v : VoiceActivityDetector) (f : Bool) (earlier : List Bool)
    → state ≡ silent
    → v.speech_frame_count ≤ speech_streak earlier
    → (advance state v f).state ≡ speaking
    → v.state ≡ silent
    → v.config.speech_start_frames ≤ speech_streak (f ∷ earlier)
unfolding advance
begins-streak state v true earlier e h s t = ground arith
begins-streak state v false earlier e h s t = absurd (ground arith)

abbrev pub is_silent : VadState → Bool
is_silent silent = true
is_silent speaking = false
is_silent speech_ended = false

abbrev pub is_speaking : VadState → Bool
is_speaking silent = false
is_speaking speaking = true
is_speaking speech_ended = false

abbrev pub has_ended : VadState → Bool
has_ended silent = false
has_ended speaking = false
has_ended speech_ended = true

ends-streak :
    (state : VadState) (v : VoiceActivityDetector) (fs : List Bool)
    → Fits state v fs
    → (if has_ended state then leb v.config.silence_end_frames (silence_streak fs) else true) ≡ true
ends-streak silent v fs h = refl
ends-streak speaking v fs h = refl
ends-streak speech_ended v fs h = ground arith

starts-streak :
    (state : VadState) (v : VoiceActivityDetector) (f : Bool) (earlier : List Bool)
    → v.state ≡ state
    → Fits state v earlier
    → (if is_silent state && is_speaking (advance state v f).state
        then leb v.config.speech_start_frames (speech_streak (f ∷ earlier))
        else true)
      ≡ true
starts-streak silent v f earlier e h = ground (arith, begins-streak silent v f earlier)
starts-streak speaking v f earlier e h = refl
starts-streak speech_ended v f earlier e h = refl

-- When the detector finds that speech begins, the frames heard last were speech, at least as many as
-- its configuration asks for; and when it finds that speech has ended, they were silence, at least as
-- many as its configuration asks for.
pub heard-streaks :
    (config : VadConfig) (f : Bool) (earlier : List Bool)
    → ((if is_silent (heard config earlier).state && is_speaking (heard config (f ∷ earlier)).state
          then leb config.speech_start_frames (speech_streak (f ∷ earlier))
          else true)
        ≡ true)
      × ((if has_ended (heard config (f ∷ earlier)).state
            then leb config.silence_end_frames (silence_streak (f ∷ earlier))
            else true)
          ≡ true)
unfolding heard
heard-streaks config f earlier =
    let v = heard config earlier in
    ground (
      arith,
      starts-streak v.state v f earlier refl (heard-Fits config earlier),
      ends-streak (heard config (f ∷ earlier)).state (heard config (f ∷ earlier)) (f ∷ earlier)
          (heard-Fits config (f ∷ earlier)),
      heard-config config earlier,
      heard-config config (f ∷ earlier),
    )
