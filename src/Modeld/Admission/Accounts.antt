-- ===== src/Modeld/Admission/Accounts.antt =====
-- main.rs: what the loop has admitted is what it has reserved, and is within its limits.
use ale_my_eyes_desktop.Prelude.{
  ℕ, ◌+◌, ◌≤◌, ◌<◌, ◌≡◌, refl, sym, ◌∙◌, Bool, true, false, ◌||◌, Option, none, some, List, [], ◌∷◌,
  ltb, leb, if◌then◌else◌, length, arith, Bool-cases, inl, inr,
}
use ale_my_eyes_desktop.Prelude.Text.{Text, text_eq, text_eq_iff}
use ale_my_eyes_desktop.Prelude.Assoc.{
  text_key, Distinct, insert-Distinct, remove-Distinct, lookup-insert, lookup-remove, length-insert,
  length-remove,
}
use ale_my_eyes_desktop.Prelude.Assoc
use ale_my_eyes_desktop.Modeld.Admission.{
  Reservation, Loop, start, Event, schedules, cancels, shuts_down, other, ends, holds_job,
  without_job, stop, on_schedule, on_cancel, cancel_entry, on_end, react, step, run,
}

abbrev pub total : List (Text × Reservation) → ℕ
total [] = 0
total ((k, r) ∷ m) = r.bytes + total m

abbrev pub bytes_of : Option Reservation → ℕ
bytes_of none = 0
bytes_of (some r) = r.bytes

abbrev pub DistinctJobs : List Text → Type 0
DistinctJobs [] = Unit
DistinctJobs (j ∷ jobs) = (holds_job j jobs ≡ false) × DistinctJobs jobs

pub record Inv (s : Loop) : Type 0 where
  pub distinct : Distinct s.cancellations
  pub distinct_jobs : DistinctJobs s.jobs
  pub reserved : (j : Text) → Assoc.contains_key j s.cancellations ≡ holds_job j s.jobs
  pub at_most_32 : length s.cancellations ≤ 32
  pub accounted : s.running ≡ true → s.admitted_bytes ≡ total s.cancellations
  pub within_limit : s.admitted_bytes ≤ 134217728

total-insert :
    (k : Text) (r : Reservation) (m : List (Text × Reservation))
    → total (Assoc.insert k r m) + bytes_of (Assoc.lookup k m) ≡ r.bytes + total m
unfolding Assoc.insert Assoc.lookup
total-insert k r [] = omega arith
total-insert k r ((j, w) ∷ m) = ground (arith, total-insert k r m)

total-remove :
    (k : Text) (m : List (Text × Reservation))
    → total (Assoc.remove k m) + bytes_of (Assoc.lookup k m) ≡ total m
unfolding Assoc.remove Assoc.lookup
total-remove k [] = refl
total-remove k ((j, w) ∷ m) = ground (arith, total-remove k m)

pub holds_job-without_job :
    (k j : Text) (jobs : List Text)
    → DistinctJobs jobs
    → holds_job j (without_job k jobs) ≡ (if text_eq k j then false else holds_job j jobs)
holds_job-without_job k j [] d = ground arith
holds_job-without_job k j (i ∷ jobs) d =
    ground
      (arith, text_eq_iff k i, text_eq_iff j i, text_eq_iff k j, holds_job-without_job k j jobs d.1)

without_job-Distinct :
    (k : Text) (jobs : List Text) → DistinctJobs jobs → DistinctJobs (without_job k jobs)
without_job-Distinct k [] d = tt
without_job-Distinct k (i ∷ jobs) d =
    ground
      (arith, text_eq_iff k i, holds_job-without_job k i jobs d.1, without_job-Distinct k jobs d.1)

pub text_eq-sym : (s t : Text) → text_eq s t ≡ text_eq t s
text_eq-sym s t = ground (arith, text_eq_iff s t, text_eq_iff t s)

contains_key-insert :
    (k j : Text) (r : Reservation) (m : List (Text × Reservation))
    → Assoc.contains_key j (Assoc.insert k r m) ≡ (text_eq k j || Assoc.contains_key j m)
unfolding Assoc.contains_key
contains_key-insert k j r m = ground (arith, lookup-insert k j r m)

contains_key-remove :
    (k j : Text) (m : List (Text × Reservation))
    → Distinct m
    → Assoc.contains_key j (Assoc.remove k m)
      ≡ (if text_eq k j then false else Assoc.contains_key j m)
unfolding Assoc.contains_key
contains_key-remove k j m d = ground (arith, lookup-remove k j m d)

none_of_contains :
    (k : Text) (m : List (Text × Reservation))
    → Assoc.contains_key k m ≡ false
    → Assoc.lookup k m ≡ none
unfolding Assoc.contains_key
none_of_contains k m e = ground arith

admit-Inv :
    (s : Loop) (id : Text) (bytes : ℕ)
    → Inv s
    → Assoc.contains_key id s.cancellations ≡ false
    → length s.cancellations < 32
    → s.admitted_bytes + bytes ≤ 134217728
    → Inv (record s {
      cancellations = Assoc.insert id (record { live = true; bytes = bytes }) s.cancellations;
      admitted_bytes = s.admitted_bytes + bytes;
      jobs = id ∷ s.jobs;
    })
admit-Inv s id bytes v new few fits =
    let r : Reservation = record { live = true; bytes = bytes } in
    let absent = none_of_contains id s.cancellations new in
    record {
      distinct = insert-Distinct id r s.cancellations v.distinct;
      distinct_jobs = (sym (v.reserved id) ∙ new, v.distinct_jobs);
      reserved = λ j.
          ground
            (arith, contains_key-insert id j r s.cancellations, text_eq-sym id j, v.reserved j);
      at_most_32 = ground (arith, length-insert id r s.cancellations);
      accounted =
          λ going. ground (arith, total-insert id r s.cancellations, absent, v.accounted going);
      within_limit = fits;
    }

on_schedule-Inv : (s : Loop) (id : Text) (bytes : ℕ) → Inv s → Inv (on_schedule s id bytes).0
unfolding on_schedule
on_schedule-Inv s id bytes v = elim (Bool-cases (Assoc.contains_key id s.cancellations)) [
  | inl e ↦ rw (e, on_schedule) v
  | inr e ↦
      elim (Bool-cases
        (leb 32 (length s.cancellations) || ltb 134217728 (s.admitted_bytes + bytes))) [
          | inl f ↦ rw (e, f, on_schedule) v
          | inr f ↦ rw (e, f, on_schedule) (admit-Inv s id bytes v e (ground arith) (ground arith))
        ]
]

contains_of_some :
    (k : Text) (m : List (Text × Reservation)) {r : Reservation}
    → Assoc.lookup k m ≡ some r
    → Assoc.contains_key k m ≡ true
unfolding Assoc.contains_key
contains_of_some k m e = rw e

contains_of_none :
    (k : Text) (m : List (Text × Reservation))
    → Assoc.lookup k m ≡ none
    → Assoc.contains_key k m ≡ false
unfolding Assoc.contains_key
contains_of_none k m e = rw e

cancel_entry-Inv :
    (s : Loop) (target : Text) (o : Option Reservation)
    → Assoc.lookup target s.cancellations ≡ o
    → Inv s
    → Inv (cancel_entry s target o).0
cancel_entry-Inv s target none e v = v
cancel_entry-Inv s target (some r) e v =
    let dead : Reservation = record r { live = false } in
    let rest = Assoc.remove target s.cancellations in
    let gone : Assoc.lookup target rest ≡ none =
      ground (
        arith,
        lookup-remove target target s.cancellations v.distinct,
        text_eq_iff target target,
      ) in
    record {
      distinct =
          insert-Distinct target dead rest (remove-Distinct target s.cancellations v.distinct);
      distinct_jobs = v.distinct_jobs;
      reserved = λ j. ground (
        arith,
        contains_key-insert target j dead rest,
        contains_key-remove target j s.cancellations v.distinct,
        text_eq_iff target j,
        contains_of_some target s.cancellations e,
        v.reserved j,
      );
      at_most_32 = ground (
        arith,
        length-insert target dead rest,
        contains_of_none target rest gone,
        contains_of_some target s.cancellations e,
        length-remove target s.cancellations,
      );
      accounted = λ going. ground (
        arith,
        total-insert target dead rest,
        total-remove target s.cancellations,
        gone,
        v.accounted going,
      );
      within_limit = v.within_limit;
    }

pub on_cancel-Inv : (s : Loop) (target : Option Text) → Inv s → Inv (on_cancel s target).0
unfolding on_cancel
on_cancel-Inv s none v = v
on_cancel-Inv s (some target) v =
    ground (arith, cancel_entry-Inv s target (Assoc.lookup target s.cancellations) refl v)

on_end-Inv : (s : Loop) (id : Text) → Inv s → Inv (on_end s id).0
unfolding on_end
on_end-Inv s id v = record {
  distinct = remove-Distinct id s.cancellations v.distinct;
  distinct_jobs = without_job-Distinct id s.jobs v.distinct_jobs;
  reserved = λ j. ground (
    arith,
    contains_key-remove id j s.cancellations v.distinct,
    holds_job-without_job id j s.jobs v.distinct_jobs,
    v.reserved j,
  );
  at_most_32 = ground (arith, length-remove id s.cancellations);
  accounted = λ going. ground (arith, total-remove id s.cancellations, v.accounted going);
  within_limit = ground arith;
}

stop-Inv : (s : Loop) → Inv s → Inv (stop s)
unfolding stop Assoc.contains_key Assoc.lookup
stop-Inv s v = record {
  distinct = tt;
  distinct_jobs = tt;
  reserved = λ j. refl;
  at_most_32 = omega arith;
  accounted = λ going. cc;
  within_limit = v.within_limit;
}

react-Inv : (s : Loop) (e : Event) → Inv s → Inv (react s e).0
unfolding react
react-Inv s (schedules id bytes) v = on_schedule-Inv s id bytes v
react-Inv s (cancels target) v = on_cancel-Inv s target v
react-Inv s shuts_down v = stop-Inv s v
react-Inv s other v = v
react-Inv s (ends id) v = ground (arith, on_end-Inv s id v)

pub step-Inv : (s : Loop) (room : Bool) (e : Event) → Inv s → Inv (step s room e).0
unfolding step
step-Inv s room e v = ground (arith, react-Inv s e v, stop-Inv (react s e).0 (react-Inv s e v))

pub run-Inv_from : (s : Loop) (events : List (Bool × Event)) → Inv s → Inv (run s events)
unfolding run
run-Inv_from s [] v = v
run-Inv_from s ((room, e) ∷ events) v = run-Inv_from (step s room e).0 events (step-Inv s room e v)

start-Inv : Inv start
unfolding start Assoc.contains_key Assoc.lookup
start-Inv = record {
  distinct = tt;
  distinct_jobs = tt;
  reserved = λ j. refl;
  at_most_32 = omega arith;
  accounted = λ going. refl;
  within_limit = omega arith;
}

-- After any events, whether or not the replies found room: the request IDs with a reservation are
-- distinct and are exactly those of the jobs in flight, there are at most 32, the bytes reserved
-- are at most 128 MiB, and while the loop runs they are the sum over the reservations.
pub run-Inv : (events : List (Bool × Event)) → Inv (run start events)
run-Inv events = run-Inv_from start events start-Inv
