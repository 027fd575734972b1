-- ===== src/Modeld/Admission.antt =====
-- ale-modeld/src/main.rs: the loop of `serve_connection` that admits jobs, cancels them and answers.
-- A job in flight is its request ID; when it ends, and with which reply, is an event. Its
-- cancellation sender is live until it was used; the receiver lives in the job.
-- Not modelled: the tasks that read and write the pipe, and the maintenance tick.
pub mod Accounts
pub mod Cancelling
pub mod Recovering
use ale_my_eyes_desktop.Prelude.{
  ℕ, ◌+◌, ◌-◌, ◌≤◌, ◌≡◌, Bool, true, false, not, ◌&&◌, ◌||◌, Option, none, some, List, [], ◌∷◌, ltb,
  leb, if◌then◌else◌, length, any,
}
use ale_my_eyes_desktop.Prelude.Text.{Text, text_eq, trim_is_empty}
use ale_my_eyes_desktop.Prelude.Assoc.{text_key}
use ale_my_eyes_desktop.Prelude.Assoc

abbrev pub max_jobs : ℕ
max_jobs = 32

abbrev pub max_admitted_bytes : ℕ
max_admitted_bytes = 134217728

pub record Reservation : Type 0 where
  pub live : Bool
  pub bytes : ℕ

pub record Loop : Type 0 where
  pub cancellations : List (Text × Reservation)
  pub admitted_bytes : ℕ
  pub jobs : List Text
  pub running : Bool

unfoldable pub start : Loop
start = record { cancellations = []; admitted_bytes = 0; jobs = []; running = true }

-- What the loop reacts to. `cancels` carries the target if the payload could be read, `other` a
-- request of another kind, `ends` a job that has ended.
pub data Event : Type 0 where
  schedules : (request_id : Text) (bytes : ℕ) → Event
  cancels : (target : Option Text) → Event
  shuts_down : Event
  other : Event
  ends : (job_id : Text) → Event

pub data Answer : Type 0 where
  admitted : Answer
  duplicate_request_id scheduler_busy invalid_cancel : Answer
  accepted : Bool → Answer
  handled : Answer
  job_reply : Text → Answer
  ignored : Answer

abbrev pub holds_job : Text → List Text → Bool
holds_job id jobs = any (text_eq id) jobs

abbrev pub without_job : Text → List Text → List Text
without_job id [] = []
without_job id (j ∷ jobs) = if text_eq id j then jobs else j ∷ without_job id jobs

-- The end of the connection: everything in flight is dropped.
unfoldable pub stop : Loop → Loop
stop s = record s { cancellations = []; jobs = []; running = false }

unfoldable pub on_schedule : Loop → Text → ℕ → Loop × Answer
on_schedule s id bytes =
    if Assoc.contains_key id s.cancellations
    then (s, duplicate_request_id)
    else if leb max_jobs (length s.cancellations)
        || ltb max_admitted_bytes (s.admitted_bytes + bytes)
    then (s, scheduler_busy)
    else (
      record s {
        cancellations = Assoc.insert id (record { live = true; bytes = bytes }) s.cancellations;
        admitted_bytes = s.admitted_bytes + bytes;
        jobs = id ∷ s.jobs;
      },
      admitted,
    )

-- The sender is taken out, used, and a dead one put in its place with the same bytes.
abbrev pub cancel_entry : Loop → Text → Option Reservation → Loop × Answer
cancel_entry s target none = (s, accepted false)
cancel_entry s target (some r) = (
  record s {
    cancellations =
        Assoc.insert target (record r { live = false }) (Assoc.remove target s.cancellations);
  },
  accepted (r.live && holds_job target s.jobs),
)

unfoldable pub on_cancel : Loop → Option Text → Loop × Answer
on_cancel s none = (s, invalid_cancel)
on_cancel s (some target) =
    if not (trim_is_empty target)
    then cancel_entry s target (Assoc.lookup target s.cancellations)
    else (s, invalid_cancel)

abbrev pub release : ℕ → Option Reservation → ℕ
release total none = total
release total (some r) = total - r.bytes

unfoldable pub on_end : Loop → Text → Loop × Answer
on_end s id = (
  record s {
    cancellations = Assoc.remove id s.cancellations;
    admitted_bytes = release s.admitted_bytes (Assoc.lookup id s.cancellations);
    jobs = without_job id s.jobs;
  },
  job_reply id,
)

unfoldable pub react : Loop → Event → Loop × Answer
react s (schedules id bytes) = on_schedule s id bytes
react s (cancels target) = on_cancel s target
react s shuts_down = (stop s, accepted true)
react s other = (s, handled)
react s (ends id) = if holds_job id s.jobs then on_end s id else (s, ignored)

-- An admitted job is answered when it ends; all else is answered at once, and the connection ends
-- when the queue of replies has no room.
abbrev pub answer_now : Answer → Bool
answer_now admitted = false
answer_now ignored = false
answer_now _ = true

unfoldable pub step : Loop → (room : Bool) → Event → Loop × Answer
step s room event =
    let (t, answer) = react s event in
    if not s.running
    then (s, ignored)
    else (if answer_now answer && not room then (stop t, answer) else (t, answer))

unfoldable pub run : Loop → List (Bool × Event) → Loop
run s [] = s
run s ((room, event) ∷ events) = run (step s room event).0 events
