-- ===== src/Tests/Connections.antt =====
-- remote_server.rs, `handle_connection` at work: a phone that sends a command and confirms its plan.
use ale_my_eyes_desktop.Prelude.{
  ℕ, ◌≤◌, ◌≡◌, refl, true, false, not, ◌&&◌, ◌||◌, Option, none, some, List, [], ◌∷◌, map, any, All,
  length, arith, if◌then◌else◌, ltb,
}
use ale_my_eyes_desktop.Prelude.Text.{Text, codes, text_eq, len_utf8, is_whitespace, trim_is_empty}
use ale_my_eyes_desktop.Prelude.Bytes.{Bytes}
use ale_my_eyes_desktop.Prelude.Assoc.{text_key, Distinct, only_if}
use ale_my_eyes_desktop.Prelude.Assoc
use ale_my_eyes_desktop.Actions.{ActionPlan, wait, low}
use ale_my_eyes_desktop.Session.RateLimit as RateLimit
use ale_my_eyes_desktop.Session.RateLimit.{
  v4, new_limiter, allow_client, drop_idle, allow, purge, purge_front,
}
use ale_my_eyes_desktop.Session.PendingPlans as PendingPlans
use ale_my_eyes_desktop.Session.PendingPlans.{
  ConfirmExecution, prepare_confirm, take, insert, purge_expired,
}
use ale_my_eyes_desktop.Session.PendingPlans.Laws.{Inv}
use ale_my_eyes_desktop.Session.Speech.{split_whitespace, sanitize_speech_text}
use ale_my_eyes_desktop.Session.Speech.Clean.{IsClean, sanitize_speech_text-IsClean}
use ale_my_eyes_desktop.Session.Messages.{
  CommandPreview, server_hello, client_hello, command_request, confirm_execution, decision_response,
  DecisionResponse, upload_full_screenshot,
}
use ale_my_eyes_desktop.Session.Requests.{
  ConnectionContext, Moment, Connection, DeferredRequest, fresh, new_pending, text,
  validate_command_request, dispatch, hold_started, start_remote_request, send_remote_error,
}
use ale_my_eyes_desktop.Session.Decisions.{answers, respond, decide, start_decided}
use ale_my_eyes_desktop.Session.Handlers.{
  on_client_hello, on_command_request, limited, accept_command, is_busy, on_confirm_execution,
  on_decision_response, on_cancel_request,
}
use ale_my_eyes_desktop.Session.Reports.{complete, on_processing_result, publish_processing_result}
use ale_my_eyes_desktop.Session.Connection.Counting.{
  is_for_phone, receive_until_end, receive_until_end-ends,
}
use ale_my_eyes_desktop.Session.Connection.{
  ends_with, Input, wire_message, processing_result, step, on_message, refused_in_pause, handle,
  count_unexpected, on_pause, under_way,
}
use ale_my_eyes_desktop.Session.Connection.Idle.{is_active, is_idle}
use ale_my_eyes_desktop.Session.Connection.Executing.{executions}
use ale_my_eyes_desktop.Session.Connection.Confirmed.{message_of}
use ale_my_eyes_desktop.Session.Connection.Requesting.{requests}
use ale_my_eyes_desktop.Session.Connection.Screenshots.{DecidedBy, step-requests}
use ale_my_eyes_desktop.Session.Connection.Cancelling.{
  has_task, is_ascending, on_cancel_request-stops, on_pause-cancels,
}
use ale_my_eyes_desktop.Session.Connection.Runs.{
  Trace, Planned, Reaches, begins, goes, Reaches-executions, Reaches-IsQuiet, Reaches-bounded,
}

abbrev plan : ActionPlan
plan = record {
  actions = wait 5 ∷ [];
  risk_level = low;
  explanation = [];
  requires_confirmation = false;
}

abbrev decode : Text → Option Bytes
decode t = some t

abbrev sha256 : Bytes → Text
sha256 b = b

abbrev write_wav : ℕ → ℕ → List ℕ → Option Bytes
write_wav channels rate samples = some samples

abbrev context : ConnectionContext
context = record {
  address = v4 1;
  modeld = true;
  scheduler_enabled = true;
  explicit_cloud_mode = false;
  local_planning_available = true;
  credential_code = codes "123456";
}

abbrev at : ℕ → Moment
at now = record {
  now = now;
  request_limiter = new_limiter 30 60000 256;
  has_slot = true;
  current_code = codes "123456";
  credentials_expire = 120000;
  fresh_id = codes "d";
}

abbrev preview : CommandPreview
preview = record {
  request_id = codes "a";
  response_text = [];
  action_steps = [];
  confirmation_text = [];
  requires_confirmation = true;
  has_plan = true;
}

abbrev hello : Input
hello = wire_message (client_hello 3 (codes "phone"))

abbrev command : Input
command = wire_message (command_request (record { request_id = codes "a"; input = codes "x" }))

abbrev completed : Input
completed = processing_result (codes "a") (complete preview (some plan))

abbrev confirmed : Input
confirmed = wire_message (confirm_execution (record { request_id = codes "a"; approved = true }))

abbrev then_state : Connection → Moment → Input → Connection
then_state c m input = (step decode sha256 write_wav context m c input).0

abbrev greeted : Connection
greeted = then_state (fresh 0) (at 1) hello

abbrev asked : Connection
asked = then_state greeted (at 2) command

abbrev planned : Connection
planned = then_state asked (at 3) completed

abbrev trace : Trace
trace = (at 3, completed) ∷ (at 2, command) ∷ (at 1, hello) ∷ []

reached : Reaches decode sha256 write_wav context planned trace
unfolding step on_message handle count_unexpected fresh new_pending PendingPlans.new on_client_hello
    on_command_request limited accept_command validate_command_request is_busy dispatch hold_started
    start_remote_request on_processing_result publish_processing_result refused_in_pause len_utf8
    trim_is_empty is_whitespace allow_client drop_idle allow purge purge_front Assoc.contains_key
    Assoc.retain Assoc.map_values new_limiter RateLimit.new
reached = goes (goes (goes (begins 0) (at 1) hello refl) (at 2) command refl) (at 3) completed refl

executed :
    executions (step decode sha256 write_wav context (at 4) planned confirmed).1.0
    ≡ (codes "a", plan) ∷ []
unfolding step on_message handle count_unexpected fresh new_pending PendingPlans.new on_client_hello
    on_command_request limited accept_command validate_command_request is_busy dispatch hold_started
    start_remote_request on_processing_result publish_processing_result refused_in_pause len_utf8
    trim_is_empty is_whitespace allow_client drop_idle allow purge purge_front Assoc.contains_key
    Assoc.retain Assoc.map_values new_limiter RateLimit.new on_confirm_execution prepare_confirm
    take insert purge_expired Assoc.insert Assoc.lookup
executed = refl

-- The rest of the plans that are executed.
abbrev no_other : List (Text × ActionPlan)
no_other = []

Reaches-executions_example :
    Planned trace (codes "a") plan
    × (planned.authenticated ≡ true)
    × (planned.paused ≡ false)
    × (planned.execution ≡ none)
    × ((r : ConfirmExecution) × (message_of confirmed ≡ some (confirm_execution r))
        × (r.approved ≡ true)
        × (r.request_id ≡ codes "a"))
    × (no_other ≡ [])
Reaches-executions_example =
    Reaches-executions decode sha256 write_wav context (at 4) planned trace confirmed (codes "a")
      plan no_other reached executed

Reaches-IsQuiet_example : (is_active planned || is_idle planned) ≡ true
Reaches-IsQuiet_example = Reaches-IsQuiet decode sha256 write_wav context planned trace reached

Reaches-bounded_example :
    (length planned.pending.plans ≤ 16)
    × Distinct planned.pending.plans
    × (planned.unexpected_messages ≤ 2)
Reaches-bounded_example = Reaches-bounded decode sha256 write_wav context planned trace reached

-- A request that waits for a decision on the screenshot.
abbrev waiting : DeferredRequest
waiting = record {
  request_id = codes "b";
  decision_id = codes "d";
  kind = upload_full_screenshot;
  payload = text (codes "x");
  expires_at = 30000;
}

abbrev undecided : Connection
undecided = record {
  pending = record { plans = []; max_entries = 16; ttl = 120000 };
  active_audio = none;
  processing = none;
  deferred = some waiting;
  execution = none;
  unexpected_messages = 0;
  authenticated = true;
  paused = false;
  last_received = 0;
}

abbrev approval : DecisionResponse
approval = record { request_id = codes "b"; decision_id = codes "d"; approved = true }

abbrev approved : Input
approved = wire_message (decision_response approval)

uploaded :
    requests (step decode sha256 write_wav context (at 5) undecided approved).1.0
    ≡ (codes "b", true, false) ∷ []
unfolding step on_message handle count_unexpected on_decision_response answers respond decide
    start_decided hold_started start_remote_request
uploaded = refl

step-requests_example :
    (false ≡ false)
    × ((response : DecisionResponse) × (message_of approved ≡ some (decision_response response))
        × DecidedBy (at 5) undecided response (codes "b") true false [])
step-requests_example =
    step-requests decode sha256 write_wav context (at 5) undecided approved (codes "b") true false
      [] uploaded refl

undecided-Inv : Inv undecided.pending
undecided-Inv = record { distinct = tt; bounded = omega arith }

on_cancel_request-stops_example :
    (has_task (on_cancel_request (at 5) undecided (codes "b")) (codes "b")
      ≡ (not (text_eq (codes "b") (codes "b")) && has_task undecided (codes "b")))
    × (Assoc.lookup (codes "b") (on_cancel_request (at 5) undecided (codes "b")).pending.plans ≡ (
        if text_eq (codes "b") (codes "b")
        then none
        else only_if (λ p. ltb 5 p.expires_at) (Assoc.lookup (codes "b") undecided.pending.plans)))
on_cancel_request-stops_example =
    on_cancel_request-stops (at 5) undecided (codes "b") (codes "b") undecided-Inv

on_pause-cancels_example :
    (is_idle (on_pause undecided true).0 ≡ true)
    × ((on_pause undecided true).1
        ≡ map (λ i. send_remote_error (some i) (codes "CANCELLED")) (under_way undecided))
    × (is_ascending (under_way undecided) ≡ true)
    × (any (λ t. text_eq t (codes "b")) (under_way undecided) ≡ (
        Assoc.contains_key (codes "b") undecided.pending.plans || has_task undecided (codes "b")))
on_pause-cancels_example = on_pause-cancels undecided true (codes "b")

sanitize_speech_text-IsClean_example :
    All IsClean (split_whitespace (sanitize_speech_text (codes "key sk-1 /etc")))
    × (length (split_whitespace (sanitize_speech_text (codes "key sk-1 /etc"))) ≤ 300)
sanitize_speech_text-IsClean_example = sanitize_speech_text-IsClean (codes "key sk-1 /etc")

receive_until_end-ends_example :
    receive_until_end decode sha256 write_wav context
      (at 5)
      undecided
      (server_hello 2 [] [] ∷ server_hello 2 [] [] ∷ server_hello 2 [] [] ∷ [])
    ≡ ends_with (codes "PROTOCOL_VIOLATION")
unfolding is_for_phone
receive_until_end-ends_example =
    receive_until_end-ends decode sha256 write_wav context (at 5) undecided
      (server_hello 2 [] [] ∷ server_hello 2 [] [] ∷ server_hello 2 [] [] ∷ []) refl (omega arith)
      (refl, (refl, (refl, tt))) (omega arith)
