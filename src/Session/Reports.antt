-- ===== src/Session/Reports.antt =====
-- ale-gui/src/remote_server.rs: what the tasks of a connection report, and what the phone is told of it.
use ale_my_eyes_desktop.Prelude.{
  Bool, true, false, not, ◌||◌, Option, none, some, List, [], ◌∷◌, ◌++◌, map, any, if◌then◌else◌,
  is_empty,
}
use ale_my_eyes_desktop.Prelude.Text.{Text, codes, text_eq}
use ale_my_eyes_desktop.Prelude.Assoc.{text_key}
use ale_my_eyes_desktop.Actions.{ActionPlan}
use ale_my_eyes_desktop.Session.PendingPlans as PendingPlans
use ale_my_eyes_desktop.Session.PendingPlans.{PendingPlans, ExecutionStatus}
use ale_my_eyes_desktop.Session.Speech.{sanitize_speech_text}
use ale_my_eyes_desktop.Session.Messages.{
  CommandPreview, ProgressStage, information, confirmation, error, command_preview, progress_update,
  assistant_output,
}
use ale_my_eyes_desktop.Session.Requests.{
  Connection, Moment, Effect, sends, send_remote_error, send_assistant_output,
}
use ale_my_eyes_desktop.Session.Handlers.{publish_execution_status}

-- What a task reports of a request.
pub data ProcessingOutcome : Type 0 where
  progress : ProgressStage → ProcessingOutcome
  complete : CommandPreview → Option ActionPlan → ProcessingOutcome
  failed_with : (code message : Text) → ProcessingOutcome

pub data RemoteExecutionOutcome : Type 0 where
  status : ExecutionStatus → RemoteExecutionOutcome
  broken : (code message : Text) → RemoteExecutionOutcome

pub data RemoteExecutionEventKind : Type 0 where
  finished : RemoteExecutionOutcome → RemoteExecutionEventKind
  timed_out finished_after_timeout : RemoteExecutionEventKind

-- The preview that the phone gets, with its texts sanitized.
unfoldable pub sanitize_preview : CommandPreview → CommandPreview
sanitize_preview preview = record preview {
  response_text = sanitize_speech_text preview.response_text;
  confirmation_text = sanitize_speech_text preview.confirmation_text;
  action_steps = map sanitize_speech_text preview.action_steps;
}

abbrev pub changed : Text → Bool
changed s = not (text_eq (sanitize_speech_text s) s)

unfoldable pub speech_source : CommandPreview → Text
speech_source preview =
    if is_empty preview.confirmation_text
    then preview.response_text
    else preview.response_text ++ (codes "。" ++ preview.confirmation_text)

unfoldable pub publish_preview : Text → CommandPreview → List Effect
publish_preview id preview =
    let shown = sanitize_preview preview in
    sends (command_preview shown)
    ∷ sends (
        assistant_output (record {
          request_id = some id;
          kind = if preview.has_plan then confirmation else information;
          display_text = shown.response_text;
          speech_text = sanitize_speech_text (speech_source shown);
          interrupt = preview.has_plan;
          sensitive =
              changed preview.response_text
              || changed preview.confirmation_text
              || any changed preview.action_steps
              || changed (speech_source shown);
        }))
    ∷ []

unfoldable pub publish_processing_result :
    Moment → Connection → Text → ProcessingOutcome → Connection × List Effect
publish_processing_result m c id (progress stage) = (c, sends (progress_update id stage) ∷ [])
publish_processing_result m c id (complete preview none) = (c, publish_preview id preview)
publish_processing_result m c id (complete preview (some plan)) =
    let (pending', inserted) = PendingPlans.insert c.pending id plan m.now in
    (
      record c { pending = pending' },
      if inserted
          then publish_preview id preview
          else send_remote_error (some id) (codes "PENDING_LIMIT") ∷ [],
    )
publish_processing_result m c id (failed_with code message) =
    (c, send_assistant_output (some id) error message true ∷ send_remote_error (some id) code ∷ [])

abbrev pub is_progress : ProcessingOutcome → Bool
is_progress (progress stage) = true
is_progress (complete preview plan) = false
is_progress (failed_with code message) = false

-- `request.is_some_and(|request| request.request_id == id)`
abbrev pub holds : Option Text → Text → Bool
holds none id = false
holds (some r) id = text_eq r id

-- A result is read only while a request is processed; one of another request is dropped.
unfoldable pub on_processing_result :
    Moment → Connection → Text → ProcessingOutcome → Connection × List Effect
on_processing_result m c id outcome =
    if holds c.processing id
    then publish_processing_result m
        (record c { processing = if is_progress outcome then c.processing else none }) id outcome
    else (c, [])

unfoldable pub publish_execution_outcome : Text → RemoteExecutionOutcome → List Effect
publish_execution_outcome id (status s) = publish_execution_status id s
publish_execution_outcome id (broken code message) =
    send_assistant_output (some id) error message true ∷ send_remote_error (some id) code ∷ []

unfoldable pub on_execution_event :
    Connection → Text → RemoteExecutionEventKind → Connection × List Effect
on_execution_event c id (finished outcome) =
    if holds c.execution id
    then (record c { execution = none }, publish_execution_outcome id outcome)
    else (c, [])
on_execution_event c id timed_out =
    if holds c.execution id
    then (c, send_remote_error (some id) (codes "CONFIRM_TIMEOUT") ∷ [])
    else (c, [])
on_execution_event c id finished_after_timeout =
    if holds c.execution id then (record c { execution = none }, []) else (c, [])
