-- ===== src/Routing/Decision.antt =====
-- model_scheduler.rs: when a plan stays on the local model, and what the decision says otherwise.
use ale_my_eyes_desktop.Prelude.{
  ◌≤◌, ◌<◌, ◌≡◌, ◌↔◌, ◌⊎◌, ◌≢◌, true, false, not, ◌||◌, [], any, arith,
}
use ale_my_eyes_desktop.Prelude.Float.{F32, f32_lt, f32_clamp, f32_min, f32_is_nan}
use ale_my_eyes_desktop.Actions.{low, high}
use ale_my_eyes_desktop.Routing.{
  ConfidenceEvidence, PlanningEvidence, local_qwen, reject, user_decision_required,
  conservative_score, threshold, escalation_reasons, is_stale, decide_route, route_planning,
  f32_one, f32_zero,
}

-- What a plan must show to stay on the local model.
pub record IsLocal (e : PlanningEvidence) : Type 0 where
  pub not_high : e.maximum_risk ≢ high
  pub one_application : e.single_application ≡ true
  pub few_steps : e.step_count ≤ 5
  pub not_sensitive : e.sensitive_operation ≡ false
  pub observable : e.observable_postconditions ≡ true
  pub fresh : e.snapshot_fresh ≡ true
  pub model_ready : e.local_model_available ≡ true
  pub gpu_ready : e.gpu_available ≡ true
  pub confident : f32_lt (conservative_score e.confidence) (threshold e.maximum_risk) ≡ false

no_reason : (e : PlanningEvidence) → escalation_reasons e ≡ [] → IsLocal e
unfolding escalation_reasons
no_reason e h = ground arith

no_reason_of : (e : PlanningEvidence) → IsLocal e → escalation_reasons e ≡ []
unfolding escalation_reasons
no_reason_of e v = ground arith

any_stale : (e : PlanningEvidence) → any is_stale (escalation_reasons e) ≡ not e.snapshot_fresh
unfolding escalation_reasons
any_stale e = ground arith

-- A plan goes to the local model exactly when it is not of high risk, stays in one application, has
-- at most 5 steps, no sensitive operation, observable postconditions and a fresh snapshot, when model
-- and GPU are there, and when its confidence is not below the threshold of its risk.
pub route_planning-local_qwen :
    (e : PlanningEvidence) → ((route_planning e).target ≡ local_qwen) ↔ IsLocal e
unfolding route_planning decide_route
route_planning-local_qwen e =
    (λ h. no_reason e (ground arith), λ v. ground (arith, no_reason_of e v))

-- A plan on a stale snapshot is rejected, whatever else holds, and no other plan is; a plan that is
-- neither rejected nor local waits for the user. Only a local plan of low risk needs no confirmation.
pub route_planning-otherwise :
    (e : PlanningEvidence)
    → (((route_planning e).target ≡ reject) ↔ (e.snapshot_fresh ≡ false))
      × (((route_planning e).target ≡ local_qwen)
          ⊎ ((route_planning e).target ≡ reject)
          ⊎ ((route_planning e).target ≡ user_decision_required))
      × (((route_planning e).requires_confirmation ≡ false)
          ↔ (((route_planning e).target ≡ local_qwen) × (e.maximum_risk ≡ low)))
unfolding route_planning decide_route
route_planning-otherwise e = ground (arith, any_stale e, no_reason e, no_reason_of e)

module _ (t : F32) (real : f32_is_nan t ≡ false) where
  f32_lt-min : (a b : F32) → f32_lt (f32_min a b) t ≡ (f32_lt a t || f32_lt b t)
  unfolding f32_min f32_lt
  f32_lt-min a b = ground arith

-- A threshold above zero and at most one.
module _ (t : F32) (above : 0 < t) (below : t ≤ 0x3f800000) where
  f32_lt-clamp : (x : F32) → f32_lt (f32_clamp x f32_zero f32_one) t ≡ f32_lt x t
  unfolding f32_clamp f32_lt
  f32_lt-clamp x = ground arith

  real : f32_is_nan t ≡ false
  real = ground arith

  one_not_below : f32_lt f32_one t ≡ false
  unfolding f32_lt
  one_not_below = ground arith

  -- The score is below the threshold exactly when one of the four signals is: a signal that is not
  -- a number never is.
  pub conservative_score-lt :
      (c : ConfidenceEvidence)
      → f32_lt (conservative_score c) t ≡ (
          f32_lt c.target_uniqueness t
          || f32_lt c.grounding_confidence t
          || f32_lt c.evidence_match t
          || f32_lt c.postcondition_coverage t)
  unfolding conservative_score
  conservative_score-lt c =
      let u = f32_clamp c.target_uniqueness f32_zero f32_one in
      let g = f32_clamp c.grounding_confidence f32_zero f32_one in
      let m = f32_clamp c.evidence_match f32_zero f32_one in
      let p = f32_clamp c.postcondition_coverage f32_zero f32_one in
      ground (
        arith,
        f32_lt-min t real (f32_min (f32_min (f32_min f32_one u) g) m) p,
        f32_lt-min t real (f32_min (f32_min f32_one u) g) m,
        f32_lt-min t real (f32_min f32_one u) g,
        f32_lt-min t real f32_one u,
        one_not_below,
        f32_lt-clamp c.target_uniqueness,
        f32_lt-clamp c.grounding_confidence,
        f32_lt-clamp c.evidence_match,
        f32_lt-clamp c.postcondition_coverage,
      )
