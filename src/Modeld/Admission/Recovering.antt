-- ===== src/Modeld/Admission/Recovering.antt =====
-- main.rs: what is left of the jobs of `serve_connection` when they have ended.
use ale_my_eyes_desktop.Prelude.{
  ℕ, ◌≤◌, ◌≡◌, refl, inl, inr, Bool, true, false, List, [], ◌∷◌, map, arith, Bool-cases,
  if◌then◌else◌,
}
use ale_my_eyes_desktop.Prelude.Text.{Text, text_eq, text_eq_iff}
use ale_my_eyes_desktop.Prelude.Assoc.{text_key}
use ale_my_eyes_desktop.Prelude.Assoc
use ale_my_eyes_desktop.Modeld.Admission.{
  Loop, Event, ends, schedules, admitted, max_admitted_bytes, on_schedule, holds_job, on_end, react,
  step, start, run,
}
use ale_my_eyes_desktop.Modeld.Admission.Accounts.{
  Inv, step-Inv, run-Inv_from, run-Inv, holds_job-without_job, text_eq-sym,
}
use ale_my_eyes_desktop.Modeld.Admission.Cancelling.{drained}

-- Jobs that end one after the other, each with room for its reply.
abbrev pub end_all : List Text → List (Bool × Event)
end_all ids = map (λ id. (true, ends id)) ids

no_jobs : (jobs : List Text) → ((j : Text) → holds_job j jobs ≡ false) → jobs ≡ []
no_jobs [] h = refl
no_jobs (j ∷ jobs) h = ground (arith, h j, text_eq_iff j j)

step-ends :
    (s : Loop) (k j : Text)
    → Inv s
    → s.running ≡ true
    → ((step s true (ends k)).0.running ≡ true)
      × (holds_job j (step s true (ends k)).0.jobs
          ≡ (if text_eq k j then false else holds_job j s.jobs))
unfolding step react on_end
step-ends s k j v going = elim (Bool-cases (holds_job k s.jobs)) [
  | inl held ↦ ground (arith, holds_job-without_job k j s.jobs v.distinct_jobs)
  | inr free ↦ ground (arith, text_eq_iff k j)
]

end_all-idle :
    (ids : List Text) (s : Loop)
    → Inv s
    → s.running ≡ true
    → ((j : Text) → holds_job j s.jobs ≡ true → holds_job j ids ≡ true)
    → ((run s (end_all ids)).running ≡ true) × ((run s (end_all ids)).jobs ≡ [])
unfolding run
end_all-idle [] s v going all_ended = (going, no_jobs s.jobs (λ j. ground (arith, all_ended j)))
end_all-idle (k ∷ ids) s v going all_ended =
    end_all-idle ids (step s true (ends k)).0 (step-Inv s true (ends k) v)
      (step-ends s k [] v going).0
      (λ j h. ground (arith, step-ends s k j v going, all_ended j, text_eq-sym k j))

idle-admits :
    (s : Loop) (id : Text) (bytes : ℕ)
    → s.running ≡ true
    → s.cancellations ≡ []
    → s.admitted_bytes ≡ 0
    → bytes ≤ max_admitted_bytes
    → (step s true (schedules id bytes)).1 ≡ admitted
unfolding step react on_schedule Assoc.contains_key Assoc.lookup
idle-admits s id bytes going empty free fits = rw empty (ground arith)

-- The loop never gets stuck: whatever was scheduled, cancelled, refused or ended, if the loop runs,
-- then once every job in flight has ended, in whatever order and with room for the replies, the loop
-- still runs, with no job, no reservation and no byte admitted, and the next request of at most 128 MiB
-- is admitted, whatever its request ID.
pub run-recovers :
    (events : List (Bool × Event)) (ids : List Text) (id : Text) (bytes : ℕ)
    → (run start events).running ≡ true
    → ((j : Text) → holds_job j (run start events).jobs ≡ true → holds_job j ids ≡ true)
    → bytes ≤ max_admitted_bytes
    → let s = run (run start events) (end_all ids) in
      (s.running ≡ true)
      × (s.jobs ≡ [])
      × (s.cancellations ≡ [])
      × (s.admitted_bytes ≡ 0)
      × ((step s true (schedules id bytes)).1 ≡ admitted)
run-recovers events ids id bytes going all_ended fits =
    let s = run (run start events) (end_all ids) in
    let v = run-Inv events in
    let (runs, idle) = end_all-idle ids (run start events) v going all_ended in
    let (empty, free) = drained s (run-Inv_from (run start events) (end_all ids) v) runs idle in
    (runs, idle, empty, free, idle-admits s id bytes runs empty free fits)
