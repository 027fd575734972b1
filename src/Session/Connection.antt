-- ===== src/Session/Connection.antt =====
-- ale-gui/src/remote_server.rs, `handle_connection`: the loop of a connection, one input at a time,
-- from the end of the Noise handshake on. That a send fails, which ends the connection, is left out,
-- and so are the audit log and what the desktop's window shows.
pub mod Keeping
pub mod Idle
pub mod Plans
pub mod Executing
pub mod Confirmed
pub mod Counting
pub mod Requesting
pub mod Screenshots
pub mod Cancelling
pub mod Runs
use ale_my_eyes_desktop.Prelude.{
  ℕ, suc, ◌-◌, Bool, true, false, not, ◌&&◌, ◌||◌, Option, none, some, List, [], ◌∷◌, ◌++◌, map,
  ltb, leb, ◌==◌, min, if◌then◌else◌, is_some,
}
use ale_my_eyes_desktop.Prelude.Text.{Text, codes, text_eq}
use ale_my_eyes_desktop.Prelude.Bytes.{Bytes}
use ale_my_eyes_desktop.Prelude.Assoc.{text_key}
use ale_my_eyes_desktop.Prelude.Assoc
use ale_my_eyes_desktop.Session.PendingPlans as PendingPlans
use ale_my_eyes_desktop.Session.Messages.{
  error, RemoteMessage, client_hello, command_request, audio_start, audio_chunk, audio_end,
  cancel_request, decision_response, confirm_execution, ping, pong,
}
use ale_my_eyes_desktop.Session.Requests.{
  Connection, ConnectionContext, Moment, Effect, sends, pings, new_pending, send_remote_error,
  send_assistant_output, connection_idle_timeout,
}
use ale_my_eyes_desktop.Session.Handlers.{
  Reaction, handled, unhandled, fails, answer, on_client_hello, on_command_request, on_audio_start,
  on_audio_chunk, on_audio_end, on_cancel_request, on_confirm_execution, on_decision_response,
}
use ale_my_eyes_desktop.Session.Reports.{
  ProcessingOutcome, RemoteExecutionEventKind, on_processing_result, on_execution_event,
}

-- What the loop waits for. A frame of the phone counts by what `decrypt_frame` makes of it.
pub data Input : Type 0 where
  controls_closed ping_due decision_tick : Input
  processing_result : (request_id : Text) → ProcessingOutcome → Input
  execution_event : (request_id : Text) → RemoteExecutionEventKind → Input
  disconnect : Input
  pause : Bool → Input
  reply : RemoteMessage → Input
  wire_close wire_other wire_part : Input
  wire_undecipherable wire_error : (what : Text) → Input
  wire_ended wire_idle : Input
  wire_message : RemoteMessage → Input

-- Whether the connection goes on after an input.
pub data Next : Type 0 where
  goes_on ends : Next
  ends_with : (code : Text) → Next

abbrev pub Stepped : Type 0
Stepped = Connection × (List Effect × Next)

abbrev pub stays : Connection × List Effect → Stepped
stays (c, effects) = (c, (effects, goes_on))

unfoldable pub on_decision_tick : Moment → Connection → Connection × List Effect
on_decision_tick m c = elim c.deferred [
  | none ↦ (c, [])
  | some waiting ↦
      if leb waiting.expires_at m.now
      then (
        record c { deferred = none },
        send_assistant_output (some waiting.request_id) error (codes "等待决定超时，当前请求已取消") true
            ∷ send_remote_error (some waiting.request_id) (codes "DECISION_TIMEOUT")
            ∷ [],
      )
      else (c, [])
]

-- The order of strings, which is that of their code points.
unfoldable pub text_lt : Text → Text → Bool
text_lt s [] = false
text_lt [] (d ∷ t) = true
text_lt (c ∷ s) (d ∷ t) = let rest = text_lt s t in ltb c d || (c == d && rest)

-- `sort` and `dedup`, as insertion into an ascending list.
unfoldable pub insert_once : Text → List Text → List Text
insert_once s [] = s ∷ []
insert_once s (t ∷ ts) =
    let rest = insert_once s ts in
    if text_eq s t then t ∷ ts else if text_lt s t then s ∷ t ∷ ts else t ∷ rest

unfoldable pub sort_dedup : List Text → List Text
sort_dedup [] = []
sort_dedup (s ∷ ts) = insert_once s (sort_dedup ts)

abbrev pub to_list {ℓ} : {A : Type ℓ} → Option A → List A
to_list none = []
to_list (some a) = a ∷ []

unfoldable pub keys {ℓ} : {V : Type ℓ} → List (Text × V) → List Text
keys [] = []
keys ((k, v) ∷ m) = k ∷ keys m

-- The requests that are under way, each once.
unfoldable pub under_way : Connection → List Text
under_way c = sort_dedup (
    keys c.pending.plans
    ++ (to_list c.processing
        ++ (to_list c.execution
            ++ (map (λ d. d.request_id) (to_list c.deferred)
                ++ map (λ a. a.request_id) (to_list c.active_audio)))))

unfoldable pub on_pause : Connection → Bool → Connection × List Effect
on_pause c value = (
  record c {
    paused = value;
    active_audio = none;
    processing = none;
    execution = none;
    deferred = none;
    pending = new_pending;
  },
  map (λ id. send_remote_error (some id) (codes "CANCELLED")) (under_way c),
)

-- The request of a message that is refused while the desktop is paused.
unfoldable pub refused_in_pause : RemoteMessage → Option Text
refused_in_pause (command_request r) = some r.request_id
refused_in_pause (audio_start r) = some r.request_id
refused_in_pause (audio_chunk r) = some r.request_id
refused_in_pause (audio_end r) = some r.request_id
refused_in_pause (confirm_execution r) = some r.request_id
refused_in_pause (decision_response r) = some r.request_id
refused_in_pause other = none

abbrev pub is_client_hello : RemoteMessage → Bool
is_client_hello (client_hello version name) = true
is_client_hello other = false

-- The end of the loop's body: the count of unexpected messages is a `u8` that stops at its greatest.
unfoldable pub count_unexpected : Reaction → Stepped
count_unexpected (c, (effects, handled)) =
    (record c { unexpected_messages = 0 }, (effects, goes_on))
count_unexpected (c, (effects, unhandled)) =
    let n = min (suc c.unexpected_messages) 255 in
    (
      record c { unexpected_messages = n },
      (effects, if leb 3 n then ends_with (codes "PROTOCOL_VIOLATION") else goes_on),
    )
count_unexpected (c, (effects, fails code)) = (c, (effects, ends_with code))

module _ (decode : Text → Option Bytes) (sha256 : Bytes → Text)
    (write_wav : (channels sample_rate : ℕ) → List ℕ → Option Bytes) where
  unfoldable pub handle : ConnectionContext → Moment → Connection → RemoteMessage → Reaction
  handle x m c (client_hello version name) = on_client_hello x m c version
  handle x m c (command_request r) = on_command_request x m c r
  handle x m c (audio_start r) = on_audio_start x m c r
  handle x m c (audio_chunk r) = on_audio_chunk decode c r
  handle x m c (audio_end r) = on_audio_end sha256 write_wav x m c r
  handle x m c (cancel_request id) = (on_cancel_request m c id, ([], handled))
  handle x m c (confirm_execution r) = on_confirm_execution m c r
  handle x m c (decision_response r) = on_decision_response x m c r
  handle x m c (ping nonce) = answer c (sends (pong nonce))
  handle x m c (pong nonce) = (c, ([], handled))
  handle x m c other = (c, ([], unhandled))

  unfoldable pub on_message : ConnectionContext → Moment → Connection → RemoteMessage → Stepped
  on_message x m c message =
      if not c.authenticated && not (is_client_hello message)
      then (c, ([], ends_with (codes "CLIENT_HELLO_REQUIRED")))
      else if c.paused && is_some (refused_in_pause message)
      then stays (c, send_remote_error (refused_in_pause message) (codes "CANCELLED") ∷ [])
      else count_unexpected (handle x m c message)

  unfoldable pub step : ConnectionContext → Moment → Connection → Input → Stepped
  step x m c controls_closed = (c, ([], ends))
  step x m c ping_due =
      if ltb connection_idle_timeout (m.now - c.last_received)
      then (c, ([], ends_with (codes "CONNECTION_IDLE_TIMEOUT")))
      else stays (c, pings ∷ [])
  step x m c decision_tick = stays (on_decision_tick m c)
  step x m c (processing_result id outcome) = stays (on_processing_result m c id outcome)
  step x m c (execution_event id kind) = stays (on_execution_event c id kind)
  step x m c disconnect = (c, ([], ends))
  step x m c (pause value) = stays (on_pause c value)
  step x m c (reply message) = on_message x m c message
  step x m c wire_close = (record c { last_received = m.now }, ([], ends))
  step x m c wire_other = stays (record c { last_received = m.now }, [])
  step x m c wire_part = stays (record c { last_received = m.now }, [])
  step x m c (wire_undecipherable what) = (record c { last_received = m.now }, ([], ends_with what))
  step x m c (wire_error what) = (c, ([], ends_with what))
  step x m c wire_ended = (c, ([], ends))
  step x m c wire_idle = (c, ([], ends_with (codes "CONNECTION_IDLE_TIMEOUT")))
  step x m c (wire_message message) = on_message x m (record c { last_received = m.now }) message
