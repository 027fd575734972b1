-- ===== src/Actions/Parsing.antt =====
-- actions.rs: what the two parsers of model output promise, whatever text they are given.
use ale_my_eyes_desktop.Prelude.{
  subst, sym, ◌≡◌, refl, ◌⊎◌, inl, inr, Bool, Option, none, some, arith,
}
use ale_my_eyes_desktop.Prelude.Text.{Text}
use ale_my_eyes_desktop.Prelude.Result.{ok}
use ale_my_eyes_desktop.Actions.{
  RiskLevel, ActionPlan, recompute_risk, validate, accept_plan, read_plan, parse_action_plan,
  parse_action_plan_arguments,
}
use ale_my_eyes_desktop.Actions.Risk.{IsAssessed, recompute_risk-IsAssessed}
use ale_my_eyes_desktop.Actions.Limits.{IsWellFormed, validate_iff}

accept_plan-ok :
    (p : ActionPlan) {q : ActionPlan}
    → accept_plan p ≡ ok q
    → (validate q ≡ ok tt) × (q ≡ recompute_risk p)
unfolding accept_plan
accept_plan-ok p h = ground arith

accept_plan-IsAssessed :
    (p : ActionPlan) {q : ActionPlan} → accept_plan p ≡ ok q → IsAssessed q × IsWellFormed q
accept_plan-IsAssessed p {q} h = (
  subst IsAssessed (sym (accept_plan-ok p h).1) (recompute_risk-IsAssessed p).0,
  (validate_iff q).0 (accept_plan-ok p h).0,
)

read_plan-IsAssessed :
    (o : Option ActionPlan) {q : ActionPlan} → read_plan o ≡ ok q → IsAssessed q × IsWellFormed q
read_plan-IsAssessed none h = cc
read_plan-IsAssessed (some p) h = accept_plan-IsAssessed p h

arguments-cases :
    (from_str plan_field : Text → Option ActionPlan) (text : Text) {q : ActionPlan}
    → parse_action_plan_arguments from_str plan_field text ≡ ok q
    → (read_plan (from_str text) ≡ ok q) ⊎ (read_plan (plan_field text) ≡ ok q)
unfolding parse_action_plan_arguments parse_action_plan
arguments-cases from_str plan_field text h = ground arith

-- Every plan that comes out of the parser of tool arguments, in either of the two shapes, has a
-- risk and a confirmation flag computed from its actions, and meets all the limits of `validate`,
-- whatever the text is and however JSON is read.
pub parse_action_plan_arguments-IsAssessed :
    (from_str plan_field : Text → Option ActionPlan) (text : Text) {q : ActionPlan}
    → parse_action_plan_arguments from_str plan_field text ≡ ok q
    → IsAssessed q × IsWellFormed q
parse_action_plan_arguments-IsAssessed from_str plan_field text h =
    elim (arguments-cases from_str plan_field text h) [
      | inl e ↦ read_plan-IsAssessed (from_str text) e
      | inr e ↦ read_plan-IsAssessed (plan_field text) e
    ]

-- What a model claims about the risk of its plan.
abbrev pub claim : RiskLevel → Bool → Option ActionPlan → Option ActionPlan
claim r c none = none
claim r c (some p) = some (record p { risk_level = r; requires_confirmation = c })

read_plan-claim :
    (r : RiskLevel) (c : Bool) (o : Option ActionPlan) → read_plan (claim r c o) ≡ read_plan o
unfolding accept_plan recompute_risk
read_plan-claim r c none = refl
read_plan-claim r c (some p) = refl

-- The risk and the confirmation flag that the text claims have no influence: with any other claim
-- in their place both parsers return the same plan or the same error.
pub parse_action_plan_arguments-claim :
    (from_str plan_field : Text → Option ActionPlan) (text : Text) (r : RiskLevel) (c : Bool)
    → (parse_action_plan (λ t. claim r c (from_str t)) text ≡ parse_action_plan from_str text)
      × (parse_action_plan_arguments
            (λ t. claim r c (from_str t))
            (λ t. claim r c (plan_field t))
            text
          ≡ parse_action_plan_arguments from_str plan_field text)
unfolding parse_action_plan_arguments parse_action_plan
parse_action_plan_arguments-claim from_str plan_field text r c = (
  read_plan-claim r c (from_str text),
  ground (arith, read_plan-claim r c (from_str text), read_plan-claim r c (plan_field text)),
)
