-- ===== src/Session/Connection/Runs.antt =====
-- remote_server.rs, `handle_connection`: the states that its loop reaches, and what holds in them.
use ale_my_eyes_desktop.Prelude.{
  ℕ, ◌≤◌, ◌≡◌, ◌≢◌, refl, sym, subst, ◌∙◌, ◌⊎◌, inl, inr, true, false, Option, none, some, List, [],
  ◌∷◌, ◌||◌, arith, length,
}
use ale_my_eyes_desktop.Prelude.Text.{Text}
use ale_my_eyes_desktop.Prelude.Bytes.{Bytes}
use ale_my_eyes_desktop.Prelude.Assoc.{Distinct, text_key}
use ale_my_eyes_desktop.Prelude.Assoc
use ale_my_eyes_desktop.Actions.{ActionPlan}
use ale_my_eyes_desktop.Session.PendingPlans as PendingPlans
use ale_my_eyes_desktop.Session.PendingPlans.{PendingPlans, ConfirmExecution}
use ale_my_eyes_desktop.Session.PendingPlans.Laws.{Inv, insert-Inv, take-Inv, new-Inv}
use ale_my_eyes_desktop.Session.PendingPlans.Sources.{Waits, take-source, take-Waits, insert-source}
use ale_my_eyes_desktop.Session.Messages.{CommandPreview, confirm_execution}
use ale_my_eyes_desktop.Session.Requests.{
  ConnectionContext, Moment, Connection, fresh, new_pending, max_pending_plans,
}
use ale_my_eyes_desktop.Session.Reports.{complete}
use ale_my_eyes_desktop.Session.Connection.{Input, processing_result, step, goes_on}
use ale_my_eyes_desktop.Session.Connection.Idle.{is_active, is_idle, step-IsQuiet}
use ale_my_eyes_desktop.Session.Connection.Counting.{step-unexpected}
use ale_my_eyes_desktop.Session.Connection.Plans.{
  PendingStep, keeps, takes, inserts, empties, step-PendingStep,
}
use ale_my_eyes_desktop.Session.Connection.Executing.{executions}
use ale_my_eyes_desktop.Session.Connection.Confirmed.{message_of, step-executions}

-- The inputs of a connection so far, the last one first.
abbrev pub Trace : Type 0
Trace = List (Moment × Input)

-- A request of the trace was completed with this plan.
pub data Planned : Trace → Text → ActionPlan → Type 0 where
  here :
      {m : Moment} {input : Input} {trace : Trace} {id : Text} {plan : ActionPlan}
      (preview : CommandPreview)
      → input ≡ processing_result id (complete preview (some plan))
      → Planned ((m, input) ∷ trace) id plan
  earlier :
      {at : Moment × Input} {trace : Trace} {id : Text} {plan : ActionPlan}
      → Planned trace id plan
      → Planned (at ∷ trace) id plan

-- The table of plans is in order, and it has the server's limit.
abbrev pub Holds : PendingPlans → Type 0
Holds s = Inv s × (s.max_entries ≡ max_pending_plans)

step-Holds :
    (m : Moment) (s : PendingPlans) (input : Input) (s' : PendingPlans)
    → PendingStep m s input s'
    → Holds s
    → Holds s'
unfolding new_pending PendingPlans.take PendingPlans.insert PendingPlans.purge_expired
    PendingPlans.new
step-Holds m s input s' (keeps e) (v, n) = subst Holds (sym e) (v, n)
step-Holds m s input s' (takes id e) (v, n) = subst Holds (sym e) (take-Inv s id m.now v, n)
step-Holds m s input s' (inserts id preview plan i e) (v, n) =
    subst Holds (sym e) (insert-Inv s id plan m.now v, ground (arith, n))
step-Holds m s input s' (empties e) (v, n) =
    subst Holds (sym e) (new-Inv max_pending_plans 120000, refl)

none_is_not_some : {A : Type 0} {a : A} → none ≢ some a
none_is_not_some h = cc

step-Waits :
    (m : Moment) (s : PendingPlans) (input : Input) (s' : PendingPlans) (trace : Trace) (id : Text)
    (plan : ActionPlan)
    → PendingStep m s input s'
    → Holds s
    → Waits s' id plan
    → Planned ((m, input) ∷ trace) id plan ⊎ Waits s id plan
unfolding new_pending PendingPlans.new Assoc.lookup
step-Waits m s input s' trace id plan (keeps e) (v, n) w = inr (subst (λ t. Waits t id plan) e w)
step-Waits m s input s' trace id plan (takes j e) (v, n) w =
    inr (take-source s j id m.now plan v (subst (λ t. Waits t id plan) e w))
step-Waits m s input s' trace id plan (inserts j preview p i e) (v, n) w =
    elim (insert-source s j id p plan m.now v (subst (λ t. Waits t id plan) e w)) [
      | inl (a, b) ↦ inl (here preview (i ∙ cc))
      | inr found ↦ inr found
    ]
step-Waits m s input s' trace id plan (empties e) (v, n) w =
    absurd (none_is_not_some (subst (λ t. Waits t id plan) e w))

module _ (decode : Text → Option Bytes) (sha256 : Bytes → Text)
    (write_wav : (channels sample_rate : ℕ) → List ℕ → Option Bytes) where
  -- The states that a connection reaches while it goes on, with its inputs.
  pub data Reaches (x : ConnectionContext) : Connection → Trace → Type 0 where
    begins : (now : ℕ) → Reaches x (fresh now) []
    goes :
        {c : Connection} {trace : Trace}
        → Reaches x c trace
        → (m : Moment) (input : Input) → (step decode sha256 write_wav x m c input).1.1 ≡ goes_on
        → Reaches x (step decode sha256 write_wav x m c input).0 ((m, input) ∷ trace)

  -- In every state that a connection reaches, no plan waits and no recording, request, decision or
  -- execution is under way, unless the phone has said hello and the desktop is not paused.
  pub Reaches-IsQuiet :
      (x : ConnectionContext) (c : Connection) (trace : Trace)
      → Reaches x c trace
      → (is_active c || is_idle c) ≡ true
  unfolding fresh new_pending PendingPlans.new
  Reaches-IsQuiet x c trace (begins now) = refl
  Reaches-IsQuiet x c trace (goes {c = b} r m input e) =
      step-IsQuiet decode sha256 write_wav x m b input (Reaches-IsQuiet x b _ r)

  Reaches-Holds :
      (x : ConnectionContext) (c : Connection) (trace : Trace) → Reaches x c trace → Holds c.pending
  unfolding fresh new_pending PendingPlans.new
  Reaches-Holds x c trace (begins now) = (new-Inv max_pending_plans 120000, refl)
  Reaches-Holds x c trace (goes {c = b} r m input e) =
      step-Holds m b.pending input (step decode sha256 write_wav x m b input).0.pending
        (step-PendingStep decode sha256 write_wav x m b input) (Reaches-Holds x b _ r)

  Reaches-Waits :
      (x : ConnectionContext) (c : Connection) (trace : Trace) (id : Text) (plan : ActionPlan)
      → Reaches x c trace
      → Waits c.pending id plan
      → Planned trace id plan
  unfolding fresh new_pending PendingPlans.new Assoc.lookup
  Reaches-Waits x c trace id plan (begins now) w = absurd (none_is_not_some w)
  Reaches-Waits x c trace id plan (goes {c = b} {trace = past} r m input e) w =
      elim (step-Waits m b.pending input (step decode sha256 write_wav x m b input).0.pending past
        id plan (step-PendingStep decode sha256 write_wav x m b input) (Reaches-Holds x b past r)
        w) [ inl planned ↦ planned | inr waits ↦ earlier (Reaches-Waits x b past id plan r waits) ]

  -- In every state that a connection reaches, a next input makes the desktop execute at most one plan,
  -- and only if an earlier input has completed a request with this plan, and if the input brings an
  -- approved confirmation of that request, from a phone that has said hello, while the desktop is not
  -- paused and no other plan is being executed.
  pub Reaches-executions :
      (x : ConnectionContext) (m : Moment) (c : Connection) (trace : Trace) (input : Input)
      (id : Text) (plan : ActionPlan) (rest : List (Text × ActionPlan))
      → Reaches x c trace
      → executions (step decode sha256 write_wav x m c input).1.0 ≡ (id, plan) ∷ rest
      → Planned trace id plan
        × (c.authenticated ≡ true)
        × (c.paused ≡ false)
        × (c.execution ≡ none)
        × ((r : ConfirmExecution) × (message_of input ≡ some (confirm_execution r))
            × (r.approved ≡ true)
            × (r.request_id ≡ id))
        × (rest ≡ [])
  Reaches-executions x m c trace input id plan rest reached h =
      let (hello, going, (r, e, (approved, same, free, taken, only))) =
        step-executions decode sha256 write_wav x m c input id plan rest h in
      let waits = take-Waits c.pending id m.now plan (Reaches-Holds x c trace reached).0 taken in
      (
        Reaches-Waits x c trace id plan reached waits,
        hello,
        going,
        free,
        (r, e, approved, sym same),
        only,
      )

  Reaches-unexpected :
      (x : ConnectionContext) (c : Connection) (trace : Trace)
      → Reaches x c trace
      → c.unexpected_messages ≤ 2
  unfolding fresh
  Reaches-unexpected x c trace (begins now) = omega arith
  Reaches-unexpected x c trace (goes {c = b} {trace = past} r m input e) =
      step-unexpected decode sha256 write_wav x m b input (Reaches-unexpected x b past r) e

  -- In every state that a connection reaches, at most 16 plans wait, each request has at most one of
  -- them, and fewer than three messages in a row were out of place.
  pub Reaches-bounded :
      (x : ConnectionContext) (c : Connection) (trace : Trace)
      → Reaches x c trace
      → (length c.pending.plans ≤ 16) × Distinct c.pending.plans × (c.unexpected_messages ≤ 2)
  Reaches-bounded x c trace r =
      let (v, n) = Reaches-Holds x c trace r in
      (omega (arith, v.bounded, n), v.distinct, Reaches-unexpected x c trace r)
