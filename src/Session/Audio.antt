-- ===== src/Session/Audio.antt =====
-- ale-gui/src/remote_server.rs: `AudioAssembler`, which puts a recording together from its chunks;
-- its messages and limits are of ale-core/src/remote.rs.
-- Base64, SHA-256 (as hexadecimal digits) and the WAV writer are parameters. A number keeps to its
-- width by the checks; the chunk's sequence number does by `checked_add`.
pub mod Upload
pub mod Whole
use ale_my_eyes_desktop.Prelude.{
  ℕ, zero, suc, ◌+◌, ◌*◌, ◌/◌, ◌%◌, ◌^◌, ◌≤◌, Bool, true, false, not, ◌&&◌, ◌||◌, Option, none,
  some, List, [], ◌∷◌, ◌++◌, ltb, leb, ◌==◌, if◌then◌else◌, length, is_empty,
}
use ale_my_eyes_desktop.Prelude.Text.{Text, text_eq, len_utf8}
use ale_my_eyes_desktop.Prelude.Bytes.{Bytes}
use ale_my_eyes_desktop.Prelude.Result.{Result, ok, err}

abbrev pub max_audio_chunk_bytes : ℕ
max_audio_chunk_bytes = 24576

abbrev pub max_recording_seconds : ℕ
max_recording_seconds = 60

abbrev pub min_sample_rate_hz : ℕ
min_sample_rate_hz = 8000

abbrev pub max_sample_rate_hz : ℕ
max_sample_rate_hz = 96000

pub data AudioFormat : Type 0 where
  pcm_s16_le : AudioFormat

pub record AudioStart : Type 0 where
  pub request_id : Text
  pub format : AudioFormat
  pub sample_rate_hz : ℕ
  pub channels : ℕ

pub record AudioChunk : Type 0 where
  pub request_id : Text
  pub sequence : ℕ
  pub pcm_base64 : Text

pub record AudioEnd : Type 0 where
  pub request_id : Text
  pub chunk_count : ℕ
  pub total_frames : ℕ
  pub sha256 : Text

pub data AudioError : Type 0 where
  invalid_request_id unsupported_audio_format invalid_audio_sequence : AudioError
  invalid_audio_chunk audio_too_large empty_audio invalid_audio_length : AudioError
  audio_hash_mismatch wav_encoding_failed : AudioError

pub record AudioAssembler : Type 0 where
  pub request_id : Text
  pub sample_rate_hz : ℕ
  pub channels : ℕ
  pub next_sequence : ℕ
  pub pcm : Bytes

unfoldable pub new : AudioStart → Result AudioError AudioAssembler
new start =
    if is_empty start.request_id || ltb 64 (len_utf8 start.request_id)
    then err invalid_request_id
    else if not (
          leb min_sample_rate_hz start.sample_rate_hz
          && leb start.sample_rate_hz max_sample_rate_hz)
        || not (start.channels == 1)
    then err unsupported_audio_format
    else ok (record {
      request_id = start.request_id;
      sample_rate_hz = start.sample_rate_hz;
      channels = start.channels;
      next_sequence = 0;
      pcm = [];
    })

abbrev pub max_bytes : AudioAssembler → ℕ
max_bytes a = a.sample_rate_hz * a.channels * 2 * max_recording_seconds

-- The bytes are taken in before the sequence number is counted on.
unfoldable pub append_chunk : AudioAssembler → Bytes → AudioAssembler × Result AudioError (Unit {0})
append_chunk a bytes =
    let grown : AudioAssembler = record {
      request_id = a.request_id;
      sample_rate_hz = a.sample_rate_hz;
      channels = a.channels;
      next_sequence = a.next_sequence;
      pcm = a.pcm ++ bytes;
    } in
    if ltb (suc a.next_sequence) (2 ^ 32)
    then (
      record {
        request_id = a.request_id;
        sample_rate_hz = a.sample_rate_hz;
        channels = a.channels;
        next_sequence = suc a.next_sequence;
        pcm = a.pcm ++ bytes;
      },
      ok tt,
    )
    else (grown, err audio_too_large)

-- The checks of `push` on the bytes that it has read.
unfoldable pub push_bytes : AudioAssembler → Bytes → AudioAssembler × Result AudioError (Unit {0})
push_bytes a bytes =
    if is_empty bytes
      || (ltb max_audio_chunk_bytes (length bytes) || not (length bytes % (a.channels * 2) == 0))
    then (a, err invalid_audio_chunk)
    else if ltb (max_bytes a) (length a.pcm + length bytes)
    then (a, err audio_too_large)
    else append_chunk a bytes

unfoldable pub push :
    (decode : Text → Option Bytes)
    → AudioAssembler
    → AudioChunk
    → AudioAssembler × Result AudioError (Unit {0})
push decode a chunk =
    if not (text_eq chunk.request_id a.request_id) || not (chunk.sequence == a.next_sequence)
    then (a, err invalid_audio_sequence)
    else elim (decode chunk.pcm_base64) [
      | none ↦ (a, err invalid_audio_chunk)
      | some bytes ↦ push_bytes a bytes
    ]

-- The 16-bit samples, little-endian; a last byte without its pair is left out (`chunks_exact`).
-- A sample is the number that its 16 bits spell.
abbrev pub samples : Bytes → List ℕ
samples [] = []
samples (low ∷ []) = []
samples (low ∷ high ∷ rest) = (low + 256 * high) ∷ samples rest

unfoldable pub finish :
    (sha256 : Bytes → Text)
    → (write_wav : (channels sample_rate : ℕ) → List ℕ → Option Bytes) → AudioAssembler
    → AudioEnd
    → Result AudioError Bytes
finish sha256 write_wav a end =
    if not (text_eq end.request_id a.request_id) || not (end.chunk_count == a.next_sequence)
    then err invalid_audio_sequence
    else if is_empty a.pcm
    then err empty_audio
    else if not (end.total_frames == length a.pcm / (a.channels * 2))
    then err invalid_audio_length
    else if not (text_eq end.sha256 (sha256 a.pcm))
    then err audio_hash_mismatch
    else elim (write_wav a.channels a.sample_rate_hz (samples a.pcm)) [
      | none ↦ err wav_encoding_failed
      | some wav ↦ ok wav
    ]
