-- ===== src/Session/PendingPlans/Sources.antt =====
-- remote_server.rs, `PendingPlans`: where a plan that waits has come from.
use ale_my_eyes_desktop.Prelude.{ℕ, ◌≡◌, ◌⊎◌, inl, inr, some, ltb, arith, Bool-cases}
use ale_my_eyes_desktop.Prelude.Text.{Text, text_eq_iff}
use ale_my_eyes_desktop.Prelude.Assoc.{text_key, only_if, lookup-retain}
use ale_my_eyes_desktop.Prelude.Assoc
use ale_my_eyes_desktop.Actions.{ActionPlan}
use ale_my_eyes_desktop.Session.PendingPlans.{PendingPlans, purge_expired, insert, take, plan_of}
use ale_my_eyes_desktop.Session.PendingPlans.Laws.{
  Inv, take-lookup, insert-lookup, take-lookup_after,
}

-- The plan that waits under a request, if one does.
abbrev pub Waits : PendingPlans → Text → ActionPlan → Type 0
Waits s id plan = plan_of (Assoc.lookup id s.plans) ≡ some plan

pub take-source :
    (s : PendingPlans) (id j : Text) (now : ℕ) (plan : ActionPlan)
    → Inv s
    → Waits (take s id now).0 j plan
    → Waits s j plan
take-source s id j now plan v w = ground (arith, take-lookup_after s id j now v)

pub take-Waits :
    (s : PendingPlans) (id : Text) (now : ℕ) (plan : ActionPlan)
    → Inv s
    → (take s id now).1 ≡ some plan
    → Waits s id plan
take-Waits s id now plan v w = ground (arith, take-lookup s id now v)

pub insert-source :
    (s : PendingPlans) (id j : Text) (p plan : ActionPlan) (now : ℕ)
    → Inv s
    → Waits (insert s id p now).0 j plan
    → ((j ≡ id) × (p ≡ plan)) ⊎ Waits s j plan
unfolding insert purge_expired
insert-source s id j p plan now v w = elim (Bool-cases (insert s id p now).1) [
  | inl e ↦ ground (arith, text_eq_iff id j, insert-lookup s (insert s id p now).0 id j p now v)
  | inr e ↦ ground (arith, lookup-retain (λ q. ltb now q.expires_at) j s.plans v.distinct)
]
