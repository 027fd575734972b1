-- ===== src/Session/Audio/Whole.antt =====
-- remote_server.rs, `AudioAssembler`: a recording sent in chunks and finished.
use mathlib.Core.List.{append_assoc, append-nil}
use ale_my_eyes_desktop.Prelude.{
  ℕ, suc, ◌+◌, ◌*◌, ◌/◌, ◌%◌, ◌≤◌, ◌≡◌, ap, false, Option, some, List, [], ◌∷◌, ◌++◌, length,
  is_empty, arith, All, length-append,
}
use ale_my_eyes_desktop.Prelude.Text.{Text, len_utf8, text_eq_refl}
use ale_my_eyes_desktop.Prelude.Bytes.{Bytes}
use ale_my_eyes_desktop.Prelude.Result.{Result, ok, err, ◌>>=◌}
use ale_my_eyes_desktop.Session.Audio.{
  AudioStart, AudioChunk, AudioEnd, AudioError, AudioAssembler, new, push, samples, finish,
  max_audio_chunk_bytes, max_recording_seconds, min_sample_rate_hz, max_sample_rate_hz,
}
use ale_my_eyes_desktop.Session.Audio.Upload.{
  IsSound, taken, Suits, push_bytes-taken, taken-IsSound, new-IsSound, is_empty-length, mod_frame,
}

abbrev pub concat : List Bytes → Bytes
concat [] = []
concat (b ∷ bs) = b ++ concat bs

module _ (decode : Text → Option Bytes) where
  -- The chunks one after the other, up to the first that is refused.
  unfoldable pub push_all : AudioAssembler → List AudioChunk → Result AudioError AudioAssembler
  push_all a [] = ok a
  push_all a (c ∷ cs) =
      let (next, answer) = push decode a c in
      elim answer [ ok done ↦ push_all next cs | err e ↦ err e ]

  module _ (sha256 : Bytes → Text) (write_wav : ℕ → ℕ → List ℕ → Option Bytes) where
    unfoldable pub receive : AudioStart → List AudioChunk → AudioEnd → Result AudioError Bytes
    receive start chunks end = do
      a ← new start
      b ← push_all a chunks
      finish sha256 write_wav b end

-- The chunks of the sender, numbered from `n` on.
abbrev pub chunks_of : (Bytes → Text) → Text → ℕ → List Bytes → List AudioChunk
chunks_of encode id n [] = []
chunks_of encode id n (b ∷ bs) =
    record { request_id = id; sequence = n; pcm_base64 = encode b } ∷ chunks_of encode id (suc n) bs

-- A chunk of a size that may be sent.
abbrev pub IsChunk : Bytes → Type 0
IsChunk b = (1 ≤ length b) × (length b ≤ max_audio_chunk_bytes) × (length b % 2 ≡ 0)

abbrev pub taken_all : AudioAssembler → List Bytes → AudioAssembler
taken_all a bs = record {
  request_id = a.request_id;
  sample_rate_hz = a.sample_rate_hz;
  channels = a.channels;
  next_sequence = a.next_sequence + length bs;
  pcm = a.pcm ++ concat bs;
}

taken_all-taken :
    (a : AudioAssembler) (b : Bytes) (bs : List Bytes)
    → taken_all (taken a b) bs ≡ taken_all a (b ∷ bs)
taken_all-taken a b bs =
    let count : suc a.next_sequence + length bs ≡ a.next_sequence + suc (length bs) = omega arith in
    ground (arith, append_assoc a.pcm b (concat bs), count)

abbrev fresh : AudioStart → AudioAssembler
fresh start = record {
  request_id = start.request_id;
  sample_rate_hz = start.sample_rate_hz;
  channels = start.channels;
  next_sequence = 0;
  pcm = [];
}

module _ (decode : Text → Option Bytes) (encode : Bytes → Text)
    (decode-encode : (b : Bytes) → decode (encode b) ≡ some b) where
  push-taken :
      (a : AudioAssembler) (b : Bytes)
      → IsSound a
      → Suits a b
      → push decode a
          (record { request_id = a.request_id; sequence = a.next_sequence; pcm_base64 = encode b })
        ≡ (taken a b, ok tt)
  unfolding push
  push-taken a b sound suits =
      ground (arith, text_eq_refl a.request_id, decode-encode b, push_bytes-taken a b sound suits)

  push_all-chunks_of :
      (a : AudioAssembler) (bs : List Bytes)
      → IsSound a
      → All IsChunk bs
      → length a.pcm + length (concat bs) ≤ a.sample_rate_hz * 2 * max_recording_seconds
      → push_all decode a (chunks_of encode a.request_id a.next_sequence bs) ≡ ok (taken_all a bs)
  unfolding push_all
  push_all-chunks_of a [] sound chunks room =
      let count : a.next_sequence + 0 ≡ a.next_sequence = omega arith in
      ground (arith, append-nil a.pcm, count)
  push_all-chunks_of a (b ∷ bs) sound (chunk, chunks) room =
      let grows = length-append b (concat bs) in
      let more = length-append a.pcm b in
      let suits : Suits a b = (chunk.0, chunk.1, chunk.2, omega arith) in
      let rest =
        push_all-chunks_of (taken a b) bs (taken-IsSound a b sound suits) chunks (omega arith) in
      ground (arith, push-taken a b sound suits, rest, taken_all-taken a b bs)

  finish-written :
      (sha256 : Bytes → Text) (write_wav : ℕ → ℕ → List ℕ → Option Bytes) (a : AudioAssembler)
      (wav : Bytes) (count : ℕ)
      → count ≡ a.next_sequence
      → a.channels ≡ 1
      → 1 ≤ length a.pcm
      → write_wav 1 a.sample_rate_hz (samples a.pcm) ≡ some wav
      → finish sha256 write_wav a (record {
        request_id = a.request_id;
        chunk_count = count;
        total_frames = length a.pcm / 2;
        sha256 = sha256 a.pcm;
      })
        ≡ ok wav
  unfolding finish
  finish-written sha256 write_wav a wav count counted mono some_bytes written = ground (
    arith,
    is_empty-length a.pcm,
    mod_frame a (length a.pcm) mono,
    text_eq_refl a.request_id,
    text_eq_refl (sha256 a.pcm),
    ap (λ c. length a.pcm / (c * 2)) mono,
    ap (λ c. write_wav c a.sample_rate_hz (samples a.pcm)) mono,
    written,
  )

  new-fresh :
      (start : AudioStart)
      → is_empty start.request_id ≡ false
      → len_utf8 start.request_id ≤ 64
      → min_sample_rate_hz ≤ start.sample_rate_hz
      → start.sample_rate_hz ≤ max_sample_rate_hz
      → start.channels ≡ 1
      → new start ≡ ok (fresh start)
  unfolding new
  new-fresh start named short fast slow mono = ground arith

  -- A recording is received as the WAV writer writes its samples, if it is started with an
  -- identifier of 1 to 64 bytes, one channel and a sample rate of 8 to 96 kHz; sent in one or more
  -- chunks of an even, positive number of bytes, at most 24,576 each and 60 seconds in all; and
  -- ended with their count, the frames and the hash of the bytes sent, and the writer writes those
  -- samples.
  pub receive-chunks_of :
      (sha256 : Bytes → Text) (write_wav : ℕ → ℕ → List ℕ → Option Bytes) (start : AudioStart)
      (b : Bytes) (bs : List Bytes) (wav : Bytes)
      → is_empty start.request_id ≡ false
      → len_utf8 start.request_id ≤ 64
      → min_sample_rate_hz ≤ start.sample_rate_hz
      → start.sample_rate_hz ≤ max_sample_rate_hz
      → start.channels ≡ 1
      → All IsChunk (b ∷ bs)
      → length (concat (b ∷ bs)) ≤ start.sample_rate_hz * 2 * max_recording_seconds
      → write_wav 1 start.sample_rate_hz (samples (concat (b ∷ bs))) ≡ some wav
      → receive decode sha256 write_wav start
          (chunks_of encode start.request_id 0 (b ∷ bs))
          (record {
            request_id = start.request_id;
            chunk_count = suc (length bs);
            total_frames = length (concat (b ∷ bs)) / 2;
            sha256 = sha256 (concat (b ∷ bs));
          })
        ≡ ok wav
  unfolding receive
  receive-chunks_of sha256 write_wav start b bs wav named short fast slow mono chunks room written =
      let started = new-fresh start named short fast slow mono in
      let long = length-append b (concat bs) in
      let all =
        push_all-chunks_of (fresh start) (b ∷ bs) (new-IsSound start (fresh start) started) chunks
          (omega arith) in
      rw (started, all)
        (finish-written sha256 write_wav (taken_all (fresh start) (b ∷ bs)) wav (suc (length bs))
          (omega arith) mono (omega arith) written)
