-- ===== src/Modeld/Admission/Cancelling.antt =====
-- main.rs: what a cancellation does, and what stays reserved until the job has ended.
use ale_my_eyes_desktop.Prelude.{
  ℕ, ◌≡◌, refl, ◌∙◌, Bool, true, false, Option, none, some, List, [], ◌∷◌, arith, Option-cases, inl,
  inr,
}
use ale_my_eyes_desktop.Prelude.Text.{Text, text_eq_iff, trim_is_empty}
use ale_my_eyes_desktop.Prelude.Assoc.{text_key, lookup-insert_self}
use ale_my_eyes_desktop.Prelude.Assoc
use ale_my_eyes_desktop.Modeld.Admission.{
  Reservation, Loop, accepted, duplicate_request_id, holds_job, on_schedule, on_cancel,
}
use ale_my_eyes_desktop.Modeld.Admission.Accounts.{Inv, on_cancel-Inv}

-- Whether the sender of a request was not used yet.
abbrev pub is_live : Option Reservation → Bool
is_live none = false
is_live (some r) = r.live

reserved_live :
    (s : Loop) (target : Text)
    → Inv s
    → Assoc.contains_key target s.cancellations ≡ holds_job target s.jobs
reserved_live s target v = v.reserved target

-- In a loop whose accounts are in order, a cancellation of an identifier that is not blank is
-- accepted exactly when a job with that identifier has a reservation and was not cancelled before;
-- it changes neither the jobs in flight nor the bytes reserved.
pub on_cancel-answer :
    (s : Loop) (target : Text)
    → Inv s
    → trim_is_empty target ≡ false
    → ((on_cancel s (some target)).1 ≡ accepted (is_live (Assoc.lookup target s.cancellations)))
      × ((on_cancel s (some target)).0.jobs ≡ s.jobs)
      × ((on_cancel s (some target)).0.admitted_bytes ≡ s.admitted_bytes)
unfolding on_cancel Assoc.contains_key
on_cancel-answer s target v named = ground (arith, reserved_live s target v)

cancelled_entry :
    (s : Loop) (target : Text)
    → trim_is_empty target ≡ false
    → is_live (Assoc.lookup target (on_cancel s (some target)).0.cancellations) ≡ false
unfolding on_cancel
cancelled_entry s target named = elim (Option-cases (Assoc.lookup target s.cancellations)) [
  | inl e ↦ ground arith
  | inr (r, e) ↦ ground (
    arith,
    lookup-insert_self target (record r { live = false }) (Assoc.remove target s.cancellations),
  )
]

duplicate_while_held :
    (s : Loop) (id : Text) (bytes : ℕ)
    → Inv s
    → holds_job id s.jobs ≡ true
    → on_schedule s id bytes ≡ (s, duplicate_request_id)
unfolding on_schedule
duplicate_while_held s id bytes v h = rw (v.reserved id, h, on_schedule)

-- In a loop whose accounts are in order, after a job in flight was cancelled under an identifier
-- that is not blank, a second cancellation of it is not accepted, a new job under its request ID
-- is refused, and nothing of its reservation is given back.
pub on_cancel-twice :
    (s : Loop) (target : Text) (bytes : ℕ)
    → Inv s
    → trim_is_empty target ≡ false
    → holds_job target s.jobs ≡ true
    → let t = (on_cancel s (some target)).0 in
      ((on_cancel t (some target)).1 ≡ accepted false)
      × (on_schedule t target bytes ≡ (t, duplicate_request_id))
      × (t.admitted_bytes ≡ s.admitted_bytes)
on_cancel-twice s target bytes v named held =
    let t = (on_cancel s (some target)).0 in
    let w = on_cancel-Inv s (some target) v in
    let (answer, jobs, admitted) = on_cancel-answer s target v named in
    (
      (on_cancel-answer t target w named).0 ∙ rw (cancelled_entry s target named),
      duplicate_while_held t target bytes w (rw jobs held),
      admitted,
    )

no_keys : (m : List (Text × Reservation)) → ((j : Text) → Assoc.contains_key j m ≡ false) → m ≡ []
unfolding Assoc.contains_key Assoc.lookup
no_keys [] h = refl
no_keys ((k, r) ∷ m) h = ground (arith, h k, text_eq_iff k k)

pub drained :
    (s : Loop)
    → Inv s
    → s.running ≡ true
    → s.jobs ≡ []
    → (s.cancellations ≡ []) × (s.admitted_bytes ≡ 0)
drained s v going idle =
    let empty = no_keys s.cancellations (λ j. v.reserved j ∙ ground arith) in
    (empty, ground (arith, v.accounted going, empty))
