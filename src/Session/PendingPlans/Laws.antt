-- ===== src/Session/PendingPlans/Laws.antt =====
-- remote_server.rs: a plan is executed at most once, only in time, and only under its own request.
use ale_my_eyes_desktop.Prelude.{
  subst, ap, ℕ, ◌+◌, ◌≤◌, ◌≡◌, refl, ◌≢◌, ◌∙◌, true, none, some, List, [], ◌∷◌, ltb, if◌then◌else◌,
  length, arith,
}
use ale_my_eyes_desktop.Prelude.Text.{Text, text_eq, text_eq_iff}
use ale_my_eyes_desktop.Prelude.Assoc.{
  text_key, Distinct, lookup-retain, retain-Distinct, insert-Distinct, remove-Distinct,
  lookup-remove, lookup-insert, length-insert, length-retain-le, length-remove-le, only_if,
}
use ale_my_eyes_desktop.Prelude.Assoc
use ale_my_eyes_desktop.Actions.{ActionPlan}
use ale_my_eyes_desktop.Session.PendingPlans.{
  PendingPlans, new, purge_expired, insert, take, plan_of, ConfirmExecution, execute,
  prepare_confirm,
}

pub record Inv (s : PendingPlans) : Type 0 where
  pub distinct : Distinct s.plans
  pub bounded : length s.plans ≤ s.max_entries

-- The calls that a connection makes on its pending plans.
pub data Call : Type 0 where
  inserts : Text → ActionPlan → ℕ → Call
  takes : Text → ℕ → Call

unfoldable pub step : PendingPlans → Call → PendingPlans
step s (inserts id plan now) = (insert s id plan now).0
step s (takes id now) = (take s id now).0

unfoldable pub run : PendingPlans → List Call → PendingPlans
run s [] = s
run s (c ∷ cs) = run (step s c) cs

pub insert-Inv :
    (s : PendingPlans) (id : Text) (plan : ActionPlan) (now : ℕ)
    → Inv s
    → Inv (insert s id plan now).0
unfolding insert purge_expired
insert-Inv s id plan now v =
    let kept = Assoc.retain (λ p. ltb now p.expires_at) s.plans in
    ground (
      arith,
      retain-Distinct (λ p. ltb now p.expires_at) s.plans v.distinct,
      insert-Distinct id (record { plan = plan; expires_at = now + s.ttl }) kept,
      length-insert id (record { plan = plan; expires_at = now + s.ttl }) kept,
      length-retain-le (λ p. ltb now p.expires_at) s.plans,
    )

pub take-Inv : (s : PendingPlans) (id : Text) (now : ℕ) → Inv s → Inv (take s id now).0
unfolding take purge_expired
take-Inv s id now v =
    let kept = Assoc.retain (λ p. ltb now p.expires_at) s.plans in
    ground (
      arith,
      retain-Distinct (λ p. ltb now p.expires_at) s.plans v.distinct,
      remove-Distinct id kept,
      length-remove-le id kept,
      length-retain-le (λ p. ltb now p.expires_at) s.plans,
    )

step-Inv : (s : PendingPlans) (c : Call) → Inv s → Inv (step s c)
unfolding step
step-Inv s (inserts id plan now) v = insert-Inv s id plan now v
step-Inv s (takes id now) v = take-Inv s id now v

run-Inv : (s : PendingPlans) (cs : List Call) → Inv s → Inv (run s cs)
unfolding run
run-Inv s [] v = v
run-Inv s (c ∷ cs) v = run-Inv (step s c) cs (step-Inv s c v)

pub new-Inv : (max_entries ttl : ℕ) → Inv (new max_entries ttl)
unfolding new
new-Inv max_entries ttl = record { distinct = tt; bounded = omega arith }

max_entries-run : (s : PendingPlans) (cs : List Call) → (run s cs).max_entries ≡ s.max_entries
unfolding run step insert take purge_expired
max_entries-run s [] = refl
max_entries-run s (inserts id plan now ∷ cs) =
    max_entries-run (insert s id plan now).0 cs ∙ ground arith
max_entries-run s (takes id now ∷ cs) = max_entries-run (take s id now).0 cs

-- After any calls on a fresh table, no request has two plans, and at most `max_entries` wait.
pub run-new-bounded :
    (max_entries ttl : ℕ) (cs : List Call)
    → Distinct (run (new max_entries ttl) cs).plans
      × (length (run (new max_entries ttl) cs).plans ≤ max_entries)
unfolding new
run-new-bounded max_entries ttl cs =
    let v = run-Inv (new max_entries ttl) cs (new-Inv max_entries ttl) in
    (v.distinct, omega (arith, v.bounded, max_entries-run (new max_entries ttl) cs))

-- What a `take` returns, read off the table.
pub take-lookup :
    (s : PendingPlans) (id : Text) (now : ℕ)
    → Inv s
    → (take s id now).1 ≡ plan_of (only_if (λ p. ltb now p.expires_at) (Assoc.lookup id s.plans))
unfolding take purge_expired
take-lookup s id now v = rw (lookup-retain (λ p. ltb now p.expires_at) id s.plans v.distinct)

-- The table after an accepted insertion.
pub insert-lookup :
    (s s' : PendingPlans) (id j : Text) (plan : ActionPlan) (now : ℕ)
    → Inv s
    → insert s id plan now ≡ (s', true)
    → Assoc.lookup j s'.plans ≡ (
        if text_eq id j
        then some (record { plan = plan; expires_at = now + s.ttl })
        else only_if (λ p. ltb now p.expires_at) (Assoc.lookup j s.plans))
unfolding insert purge_expired
insert-lookup s s' id j plan now v e =
    let kept = Assoc.retain (λ p. ltb now p.expires_at) s.plans in
    ground (
      arith,
      lookup-insert id j (record { plan = plan; expires_at = now + s.ttl }) kept,
      lookup-retain (λ p. ltb now p.expires_at) j s.plans v.distinct,
    )

pub take-lookup_after :
    (s : PendingPlans) (id j : Text) (now : ℕ)
    → Inv s
    → Assoc.lookup j (take s id now).0.plans ≡ (
        if text_eq id j then none else only_if (λ p. ltb now p.expires_at) (Assoc.lookup j s.plans))
unfolding take purge_expired
take-lookup_after s id j now v =
    let kept = Assoc.retain (λ p. ltb now p.expires_at) s.plans in
    ground (
      arith,
      retain-Distinct (λ p. ltb now p.expires_at) s.plans v.distinct,
      lookup-remove id j kept,
      lookup-retain (λ p. ltb now p.expires_at) j s.plans v.distinct,
    )

-- In a table within its bounds and with distinct requests, a plan that was accepted is returned to
-- its own request until its time to live has passed, and then no more; every other request gets,
-- from the time of the insertion on, what it would have got.
pub take-insert :
    (s s' : PendingPlans) (id j : Text) (plan : ActionPlan) (now later : ℕ)
    → Inv s
    → insert s id plan now ≡ (s', true)
    → now ≤ later
    → (take s' j later).1 ≡ (
        if text_eq id j
        then if ltb later (now + s.ttl) then some plan else none
        else (take s j later).1)
take-insert s s' id j plan now later v e h =
    let w : Inv s' = subst Inv (ap (λ r. r.0) e) (insert-Inv s id plan now v) in
    ground (
      arith,
      take-lookup s' j later w,
      take-lookup s j later v,
      insert-lookup s s' id j plan now v e,
    )

-- In a table within its bounds and with distinct requests, a plan can be taken once: after a
-- `take` its request gets nothing, and every other request gets, from then on, what it would have
-- got.
pub take-take :
    (s : PendingPlans) (id j : Text) (now later : ℕ)
    → Inv s
    → now ≤ later
    → (take (take s id now).0 j later).1 ≡ (if text_eq id j then none else (take s j later).1)
take-take s id j now later v h = ground (
  arith,
  take-lookup (take s id now).0 j later (take-Inv s id now v),
  take-lookup s j later v,
  take-lookup_after s id j now v,
)

-- Only an approved confirmation executes a plan: the one that waits under its own request and is
-- still in time.
pub prepare_confirm-execute :
    (c : ConfirmExecution) (s : PendingPlans) (now : ℕ) (id : Text) (plan : ActionPlan)
    → (prepare_confirm c s now).1 ≡ execute id plan
    → (c.approved ≡ true) × (id ≡ c.request_id) × ((take s c.request_id now).1 ≡ some plan)
unfolding prepare_confirm
prepare_confirm-execute c s now id plan e = ground arith

pub prepare_confirm-after :
    (c : ConfirmExecution) (s : PendingPlans) (now : ℕ)
    → (prepare_confirm c s now).0 ≡ (take s c.request_id now).0
unfolding prepare_confirm
prepare_confirm-after c s now = ground arith

-- In a table within its bounds and with distinct requests, after any confirmation, approved or
-- not, no confirmation of the same request at the same time or later executes a plan.
pub prepare_confirm-once :
    (c d : ConfirmExecution) (s : PendingPlans) (now later : ℕ) (id : Text) (plan : ActionPlan)
    → Inv s
    → now ≤ later
    → d.request_id ≡ c.request_id
    → (prepare_confirm d (prepare_confirm c s now).0 later).1 ≢ execute id plan
prepare_confirm-once c d s now later id plan v h e = λ x.
    let found = (prepare_confirm-execute d (prepare_confirm c s now).0 later id plan x).2 in
    let taken : (take (take s c.request_id now).0 c.request_id later).1 ≡ some plan =
      subst (λ t. (take t c.request_id later).1 ≡ some plan) (prepare_confirm-after c s now)
        (subst (λ k. (take (prepare_confirm c s now).0 k later).1 ≡ some plan) e found) in
    ground (
      arith,
      take-take s c.request_id c.request_id now later v h,
      text_eq_iff c.request_id c.request_id,
    )
