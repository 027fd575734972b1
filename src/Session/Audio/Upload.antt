-- ===== src/Session/Audio/Upload.antt =====
-- remote_server.rs, `AudioAssembler`: what a refused chunk leaves, and a whole recording.
use ale_my_eyes_desktop.Prelude.{
  ℕ, suc, ◌+◌, ◌*◌, ◌%◌, ◌≤◌, ◌≡◌, refl, ap, ◌⊎◌, inl, inr, Bool, true, false, not, ◌||◌, Option,
  some, [], ◌∷◌, ◌++◌, ltb, ◌==◌, length, is_empty, arith, Option-cases, Bool-cases, length-append,
}
use ale_my_eyes_desktop.Prelude.Text.{Text, text_eq}
use ale_my_eyes_desktop.Prelude.Bytes.{Bytes}
use ale_my_eyes_desktop.Prelude.Result.{Result, ok, err}
use ale_my_eyes_desktop.Session.Audio.{
  AudioStart, AudioChunk, AudioAssembler, new, max_bytes, append_chunk, push_bytes, push,
  max_audio_chunk_bytes, max_recording_seconds, max_sample_rate_hz,
}

-- A recording in progress: one channel, within the limits, of whole frames, and of at least one
-- frame for each chunk.
pub record IsSound (a : AudioAssembler) : Type 0 where
  pub mono : a.channels ≡ 1
  pub slow : a.sample_rate_hz ≤ max_sample_rate_hz
  pub within : length a.pcm ≤ a.sample_rate_hz * 2 * max_recording_seconds
  pub whole : length a.pcm % 2 ≡ 0
  pub counted : 2 * a.next_sequence ≤ length a.pcm

abbrev pub taken : AudioAssembler → Bytes → AudioAssembler
taken a bytes = record {
  request_id = a.request_id;
  sample_rate_hz = a.sample_rate_hz;
  channels = a.channels;
  next_sequence = suc a.next_sequence;
  pcm = a.pcm ++ bytes;
}

max_bytes_mono :
    (a : AudioAssembler)
    → a.channels ≡ 1
    → max_bytes a ≡ a.sample_rate_hz * 2 * max_recording_seconds
max_bytes_mono a mono =
    omega (arith, ap (λ c. a.sample_rate_hz * c * 2 * max_recording_seconds) mono)

pub mod_frame : (a : AudioAssembler) (n : ℕ) → a.channels ≡ 1 → n % (a.channels * 2) ≡ n % 2
mod_frame a n mono = ap (λ c. n % (c * 2)) mono

-- A chunk's bytes that the recording has room for.
abbrev pub Suits : AudioAssembler → Bytes → Type 0
Suits a bytes =
    (1 ≤ length bytes)
    × (length bytes ≤ max_audio_chunk_bytes)
    × (length bytes % 2 ≡ 0)
    × (length a.pcm + length bytes ≤ a.sample_rate_hz * 2 * max_recording_seconds)

pub taken-IsSound :
    (a : AudioAssembler) (bytes : Bytes) → IsSound a → Suits a bytes → IsSound (taken a bytes)
taken-IsSound a bytes sound suits =
    let grows = length-append a.pcm bytes in
    record {
      mono = sound.mono;
      slow = sound.slow;
      within = omega arith;
      whole = omega arith;
      counted = omega arith;
    }

pub is_empty-length : (bytes : Bytes) → is_empty bytes ≡ (length bytes == 0)
is_empty-length [] = refl
is_empty-length (b ∷ bytes) = ground arith

pub push_bytes-taken :
    (a : AudioAssembler) (bytes : Bytes)
    → IsSound a
    → Suits a bytes
    → push_bytes a bytes ≡ (taken a bytes, ok tt)
unfolding push_bytes append_chunk
push_bytes-taken a bytes sound suits = ground (
  arith,
  max_bytes_mono a sound.mono,
  mod_frame a (length bytes) sound.mono,
  is_empty-length bytes,
)

abbrev pub succeeded : {E A : Type 0} → Result E A → Bool
succeeded (ok a) = true
succeeded (err e) = false

push_bytes-cases :
    (a : AudioAssembler) (bytes : Bytes)
    → IsSound a
    → (((push_bytes a bytes).0 ≡ a) × (succeeded (push_bytes a bytes).1 ≡ false))
      ⊎ (Suits a bytes × (push_bytes a bytes ≡ (taken a bytes, ok tt)))
unfolding push_bytes
push_bytes-cases a bytes sound =
    let room = max_bytes_mono a sound.mono in
    let frames = mod_frame a (length bytes) sound.mono in
    let empty = is_empty-length bytes in
    elim (Bool-cases (
      is_empty bytes
      || (ltb max_audio_chunk_bytes (length bytes)
          || not (length bytes % (a.channels * 2) == 0)))) [
            | inl bad ↦ inl (ground (arith, bad))
            | inr good ↦ elim (Bool-cases (ltb (max_bytes a) (length a.pcm + length bytes))) [
              | inl over ↦ inl (ground (arith, over))
              | inr within ↦
                  let suits : Suits a bytes = ground (arith, good, within, room, frames, empty) in
                  inr (suits, push_bytes-taken a bytes sound suits)
            ]
          ]

pub new-IsSound : (start : AudioStart) (a : AudioAssembler) → new start ≡ ok a → IsSound a
unfolding new
new-IsSound start a e = record {
  mono = ground arith;
  slow = ground arith;
  within = ground arith;
  whole = ground arith;
  counted = ground arith;
}

-- From a recording in progress that keeps to the limits (as one just started does), a chunk is
-- either refused, and leaves the recording as it was, or it names the recording and the next
-- sequence number, its bytes are appended, it is counted, and the recording keeps to the limits:
-- the sequence number never overflows.
pub push-IsSound :
    (decode : Text → Option Bytes) (a : AudioAssembler) (chunk : AudioChunk)
    → IsSound a
    → (((push decode a chunk).0 ≡ a) × (succeeded (push decode a chunk).1 ≡ false))
      ⊎ ((bytes : Bytes) × (decode chunk.pcm_base64 ≡ some bytes)
          × (text_eq chunk.request_id a.request_id ≡ true)
          × (chunk.sequence ≡ a.next_sequence)
          × (push decode a chunk ≡ (taken a bytes, ok tt))
          × IsSound (taken a bytes))
unfolding push
push-IsSound decode a chunk sound =
    elim (Bool-cases
      (not (text_eq chunk.request_id a.request_id) || not (chunk.sequence == a.next_sequence))) [
        | inl bad ↦ inl (ground (arith, bad))
        | inr good ↦ elim (Option-cases (decode chunk.pcm_base64)) [
          | inl e ↦ inl (ground (arith, good, e))
          | inr (bytes, e) ↦ elim (push_bytes-cases a bytes sound) [
            | inl kept ↦ inl (ground (arith, good, e, kept))
            | inr (suits, done) ↦ inr (
              bytes,
              e,
              ground (arith, good),
              ground (arith, good),
              ground (arith, good, e, done),
              taken-IsSound a bytes sound suits,
            )
          ]
        ]
      ]
