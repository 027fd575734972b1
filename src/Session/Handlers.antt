-- ===== src/Session/Handlers.antt =====
-- ale-gui/src/remote_server.rs, `handle_connection`: what it does on each message of an authenticated
-- phone.
-- Base64, SHA-256 and the WAV writer are parameters, as in Session/Audio.
use ale_my_eyes_desktop.Prelude.{
  ℕ, Bool, true, false, not, ◌||◌, Option, none, some, List, [], ◌∷◌, leb, ◌==◌, if◌then◌else◌,
  is_some,
}
use ale_my_eyes_desktop.Prelude.Text.{Text, codes, text_eq}
use ale_my_eyes_desktop.Prelude.Bytes.{Bytes}
use ale_my_eyes_desktop.Prelude.Result.{Result, ok, err}
use ale_my_eyes_desktop.Prelude.Assoc.{text_key}
use ale_my_eyes_desktop.Session.Audio as Audio
use ale_my_eyes_desktop.Session.Audio.{
  AudioAssembler, AudioError, AudioStart, AudioChunk, AudioEnd, invalid_request_id,
  unsupported_audio_format, invalid_audio_sequence, invalid_audio_chunk, audio_too_large,
  empty_audio, invalid_audio_length, audio_hash_mismatch, wav_encoding_failed,
}
use ale_my_eyes_desktop.Session.PendingPlans as PendingPlans
use ale_my_eyes_desktop.Session.PendingPlans.{
  PendingPlans, ExecutionStatus, ConfirmExecution, ConfirmAction, immediate, execute,
  prepare_confirm,
}
use ale_my_eyes_desktop.Session.RateLimit.{allow_client}
use ale_my_eyes_desktop.Session.Speech.{sanitize_speech_text}
use ale_my_eyes_desktop.Session.Messages.{
  CommandRequest, executing, DecisionResponse, result, progress_update, assistant_output,
  execution_status, remote_protocol_version,
}
use ale_my_eyes_desktop.Session.Decisions.{answers, respond}
use ale_my_eyes_desktop.Session.Requests.{
  Connection, ConnectionContext, Moment, Effect, sends, limits, starts_execution, text, audio_wav,
  send_remote_error, validate_command_request, dispatch,
}

-- How the loop goes on after a message: `handled` or not, or the error that it returns.
pub data Flow : Type 0 where
  handled unhandled : Flow
  fails : (code : Text) → Flow

abbrev pub Reaction : Type 0
Reaction = Connection × (List Effect × Flow)

abbrev pub done : Connection × List Effect → Reaction
done (c, effects) = (c, (effects, handled))

abbrev pub answer : Connection → Effect → Reaction
answer c effect = (c, (effect ∷ [], handled))

unfoldable pub audio_code : AudioError → Text
audio_code invalid_request_id = codes "INVALID_REQUEST_ID"
audio_code unsupported_audio_format = codes "UNSUPPORTED_AUDIO_FORMAT"
audio_code invalid_audio_sequence = codes "INVALID_AUDIO_SEQUENCE"
audio_code invalid_audio_chunk = codes "INVALID_AUDIO_CHUNK"
audio_code audio_too_large = codes "AUDIO_TOO_LARGE"
audio_code empty_audio = codes "EMPTY_AUDIO"
audio_code invalid_audio_length = codes "INVALID_AUDIO_LENGTH"
audio_code audio_hash_mismatch = codes "AUDIO_HASH_MISMATCH"
audio_code wav_encoding_failed = codes "WAV_ENCODING_FAILED"

unfoldable pub is_busy : Connection → Bool
is_busy c = is_some c.deferred || is_some c.processing || is_some c.execution

unfoldable pub on_client_hello : ConnectionContext → Moment → Connection → ℕ → Reaction
on_client_hello x m c protocol_version =
    if not (protocol_version == remote_protocol_version)
    then (
      c,
      (
        send_remote_error none (codes "PROTOCOL_INCOMPATIBLE") ∷ [],
        fails (codes "PROTOCOL_INCOMPATIBLE"),
      ),
    )
    else if c.authenticated
    then (c, ([], handled))
    else if leb m.credentials_expire m.now || not (text_eq m.current_code x.credential_code)
    then (c, ([], fails (codes "PAIRING_EXPIRED")))
    else (record c { authenticated = true }, ([], handled))

unfoldable pub accept_command :
    ConnectionContext → Moment → Connection → CommandRequest → Connection × List Effect
accept_command x m c request = elim (validate_command_request request) [
  | err code ↦ (c, send_remote_error (some request.request_id) code ∷ [])
  | ok u ↦
      if is_busy c
      then (c, send_remote_error (some request.request_id) (codes "SERVER_BUSY") ∷ [])
      else dispatch x m c request.request_id (text request.input)
]

-- `allow_request` before a command or a recording; the limiter keeps what it counted.
unfoldable pub limited :
    ConnectionContext → Moment → Connection → Text → Connection × List Effect → Reaction
limited x m c id (c', effects) =
    let (limiter, allowed) = allow_client m.request_limiter x.address m.now in
    if allowed
    then (c', (limits limiter ∷ effects, handled))
    else (c, (limits limiter ∷ send_remote_error (some id) (codes "RATE_LIMITED") ∷ [], handled))

unfoldable pub on_command_request :
    ConnectionContext → Moment → Connection → CommandRequest → Reaction
on_command_request x m c request = limited x m c request.request_id (accept_command x m c request)

unfoldable pub accept_audio : Connection → AudioStart → Connection × List Effect
accept_audio c start =
    if is_some c.active_audio || is_busy c
    then (c, send_remote_error (some start.request_id) (codes "AUDIO_BUSY") ∷ [])
    else elim (Audio.new start) [
      | ok upload ↦ (record c { active_audio = some upload }, [])
      | err e ↦ (c, send_remote_error (some start.request_id) (audio_code e) ∷ [])
    ]

unfoldable pub on_audio_start : ConnectionContext → Moment → Connection → AudioStart → Reaction
on_audio_start x m c start = limited x m c start.request_id (accept_audio c start)

unfoldable pub on_audio_chunk : (decode : Text → Option Bytes) → Connection → AudioChunk → Reaction
on_audio_chunk decode c chunk = elim c.active_audio [
  | none ↦ answer c (send_remote_error (some chunk.request_id) (codes "UNKNOWN_AUDIO_REQUEST"))
  | some upload ↦
      let (upload', pushed) = Audio.push decode upload chunk in
      elim pushed [
        | ok u ↦ (record c { active_audio = some upload' }, ([], handled))
        | err e ↦
            answer (record c { active_audio = none })
              (send_remote_error (some chunk.request_id) (audio_code e))
      ]
]

unfoldable pub finish_recording :
    ConnectionContext → Moment → Connection → Text → Result AudioError Bytes → Reaction
finish_recording x m c id (ok wav) = done (dispatch x m c id (audio_wav wav))
finish_recording x m c id (err e) = answer c (send_remote_error (some id) (audio_code e))

unfoldable pub on_audio_end :
    (sha256 : Bytes → Text)
    → (write_wav : (channels sample_rate : ℕ) → List ℕ → Option Bytes) → ConnectionContext
    → Moment
    → Connection
    → AudioEnd
    → Reaction
on_audio_end sha256 write_wav x m c end = elim c.active_audio [
  | none ↦ answer c (send_remote_error (some end.request_id) (codes "UNKNOWN_AUDIO_REQUEST"))
  | some upload ↦
      finish_recording x m (record c { active_audio = none }) end.request_id
        (Audio.finish sha256 write_wav upload end)
]

-- `if x.as_ref().is_some_and(|r| r.request_id == request_id) { x = None }`
unfoldable pub drop_if : {A : Type 0} → (A → Text) → Text → Option A → Option A
drop_if id_of id none = none
drop_if id_of id (some a) = if text_eq (id_of a) id then none else some a

unfoldable pub on_cancel_request : Moment → Connection → Text → Connection
on_cancel_request m c id = record c {
  active_audio = drop_if (λ a. a.request_id) id c.active_audio;
  processing = drop_if (λ r. r) id c.processing;
  execution = drop_if (λ r. r) id c.execution;
  deferred = drop_if (λ d. d.request_id) id c.deferred;
  pending = (PendingPlans.take c.pending id m.now).0;
}

unfoldable pub publish_execution_status : Text → ExecutionStatus → List Effect
publish_execution_status id status =
    let speech_text = sanitize_speech_text status.message in
    sends (execution_status (record status { message = speech_text }))
    ∷ sends (
        assistant_output (record {
          request_id = some id;
          kind = result;
          display_text = speech_text;
          speech_text = speech_text;
          interrupt = false;
          sensitive = not (text_eq speech_text status.message);
        }))
    ∷ []

unfoldable pub on_confirm_execution : Moment → Connection → ConfirmExecution → Reaction
on_confirm_execution m c confirm =
    if is_some c.execution
    then answer c (send_remote_error (some confirm.request_id) (codes "SERVER_BUSY"))
    else let (pending', action) = prepare_confirm confirm c.pending m.now in
      elim action [
        | immediate status ↦ (
          record c { pending = pending' },
          (publish_execution_status status.request_id status, handled),
        )
        | execute id plan ↦ (
          record c { pending = pending'; execution = some id },
          (sends (progress_update id executing) ∷ starts_execution id plan ∷ [], handled),
        )
      ]

-- `handle_decision_response`
unfoldable pub on_decision_response :
    ConnectionContext → Moment → Connection → DecisionResponse → Reaction
on_decision_response x m c response = elim c.deferred [
  | none ↦ (c, ([], unhandled))
  | some waiting ↦
      if answers response waiting
      then done (respond x m (record c { deferred = none }) waiting response)
      else (c, ([], unhandled))
]
