-- ===== src/Tests/Plans.antt =====
-- actions.rs and model_scheduler.rs at work: plans, semantic plans and routes.
use ale_my_eyes_desktop.Prelude.{◌≡◌, ◌↔◌, refl, ◌≤◌, ◌<◌, true, false, none, some, [], ◌∷◌, length}
use ale_my_eyes_desktop.Prelude.Text.{
  codes, trim_is_empty, to_ascii_lowercase, to_ascii_lowercase_char, is_whitespace,
}
use ale_my_eyes_desktop.Prelude.Result.{ok}
use ale_my_eyes_desktop.Actions.{
  wait, close_app, low, high, ActionPlan, action_risk, recompute_risk, maximum_or_low, validate,
  check_action, check_actions, accept_plan, parse_action_plan, parse_action_plan_arguments,
}
use ale_my_eyes_desktop.Actions.Risk.{IsAssessed}
use ale_my_eyes_desktop.Actions.Limits.{IsWellFormed, validate_iff}
use ale_my_eyes_desktop.Actions.Parsing.{parse_action_plan_arguments-IsAssessed}
use ale_my_eyes_desktop.Routing.{
  SemanticStep, SemanticPlan, semantic_operation_risk, high_risk_terms, medium_risk_terms,
  assess_steps, validate_semantic_plan, has_observable_postconditions, ConfidenceEvidence,
  PlanningEvidence, route_planning, local_qwen,
}
use ale_my_eyes_desktop.Routing.Decision.{IsLocal, route_planning-local_qwen}
use ale_my_eyes_desktop.Routing.Semantic.{AssessesAll, validate_semantic_plan-Assesses}

-- A model claims that closing an application is of low risk.
abbrev understated : ActionPlan
understated = record {
  actions = wait 5 ∷ close_app (codes "mail") ∷ [];
  risk_level = low;
  explanation = codes "bye";
  requires_confirmation = false;
}

abbrev assessed : ActionPlan
assessed = record {
  actions = wait 5 ∷ close_app (codes "mail") ∷ [];
  risk_level = high;
  explanation = codes "bye";
  requires_confirmation = true;
}

assessed_reply :
    parse_action_plan_arguments (λ t. some understated) (λ t. none) (codes "{}") ≡ ok assessed
unfolding parse_action_plan_arguments parse_action_plan accept_plan recompute_risk maximum_or_low
    action_risk validate check_actions check_action
assessed_reply = refl

parse_action_plan_arguments-IsAssessed_example : IsAssessed assessed × IsWellFormed assessed
parse_action_plan_arguments-IsAssessed_example =
    parse_action_plan_arguments-IsAssessed (λ t. some understated) (λ t. none) (codes "{}")
      assessed_reply

validate_iff_example : (validate assessed ≡ ok tt) ↔ IsWellFormed assessed
validate_iff_example = validate_iff assessed

-- 0.95 for each signal: enough for a plan of low risk, not for one of medium risk.
abbrev confidence : ConfidenceEvidence
confidence = record {
  target_uniqueness = 0x3f733333;
  grounding_confidence = 0x3f733333;
  evidence_match = 0x3f733333;
  postcondition_coverage = 0x3f733333;
}

abbrev evidence : PlanningEvidence
evidence = record {
  maximum_risk = low;
  step_count = 2;
  single_application = true;
  sensitive_operation = false;
  observable_postconditions = true;
  snapshot_fresh = true;
  local_model_available = true;
  gpu_available = true;
  confidence = confidence;
}

route_planning-local_qwen_example :
    ((route_planning evidence).target ≡ local_qwen) ↔ IsLocal evidence
route_planning-local_qwen_example = route_planning-local_qwen evidence

abbrev remove_step : SemanticStep
remove_step = record {
  operation = codes "Delete";
  target = none;
  input_summary = none;
  expected_state = codes "gone";
  risk = low;
}

abbrev semantic : SemanticPlan
semantic = record { goal = codes "tidy"; application_id = none; steps = remove_step ∷ [] }

abbrev semantic_assessed : SemanticPlan
semantic_assessed = record {
  goal = codes "tidy";
  application_id = none;
  steps = record remove_step { risk = high } ∷ [];
}

validate_semantic : validate_semantic_plan semantic ≡ ok semantic_assessed
unfolding validate_semantic_plan assess_steps semantic_operation_risk high_risk_terms
    medium_risk_terms to_ascii_lowercase to_ascii_lowercase_char trim_is_empty is_whitespace
validate_semantic = refl

validate_semantic_plan-Assesses_example :
    (trim_is_empty semantic_assessed.goal ≡ false)
    × (0 < length semantic_assessed.steps)
    × (length semantic_assessed.steps ≤ 20)
    × AssessesAll semantic.steps semantic_assessed.steps
    × (has_observable_postconditions semantic_assessed ≡ true)
    × (semantic_assessed.goal ≡ semantic.goal)
    × (semantic_assessed.application_id ≡ semantic.application_id)
validate_semantic_plan-Assesses_example =
    validate_semantic_plan-Assesses semantic semantic_assessed validate_semantic
