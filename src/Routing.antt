-- ===== src/Routing.antt =====
-- ale-core/src/model_scheduler.rs: semantic plans, the risk of their operations, and whether a plan
-- is carried out by the local model. Floats are their bit patterns.
-- Not modelled: `describe_steps` (display text) and the JSON forms of the types.
pub mod Semantic
pub mod Decision
use ale_my_eyes_desktop.Prelude.{
  ℕ, ◌+◌, ◌≤◌, Bool, true, false, not, ◌&&◌, ◌||◌, Option, none, some, List, [], ◌∷◌, ◌++◌, map,
  ltb, leb, if◌then◌else◌, length, is_empty, any, all,
}
use ale_my_eyes_desktop.Prelude.Text.{Text, codes, trim_is_empty, to_ascii_lowercase, contains}
use ale_my_eyes_desktop.Prelude.Float.{F32, f32_lt, f32_clamp, f32_min}
use ale_my_eyes_desktop.Prelude.Result.{Result, ok, err, ◌>>=◌, ◌>>◌, fail_if}
use ale_my_eyes_desktop.Actions.{RiskLevel, low, medium, high, rank, maximum_or_low}

-- The bit patterns of 0.90, 0.97, 1.0 and 0.0.
abbrev pub local_low_risk_threshold : F32
local_low_risk_threshold = 0x3f666666

abbrev pub local_medium_risk_threshold : F32
local_medium_risk_threshold = 0x3f7851ec

abbrev pub f32_one : F32
f32_one = 0x3f800000

abbrev pub f32_zero : F32
f32_zero = 0

abbrev pub max_local_plan_steps : ℕ
max_local_plan_steps = 5

pub record TargetRef : Type 0 where
  pub node_id : Option Text
  pub role : Option Text
  pub label : Option Text
  pub visual_description : Option Text

pub record SemanticStep : Type 0 where
  pub operation : Text
  pub target : Option TargetRef
  pub input_summary : Option Text
  pub expected_state : Text
  pub risk : RiskLevel

pub record SemanticPlan : Type 0 where
  pub goal : Text
  pub application_id : Option Text
  pub steps : List SemanticStep

unfoldable pub maximum_risk : SemanticPlan → RiskLevel
maximum_risk p = maximum_or_low (map (λ s. s.risk) p.steps)

unfoldable pub has_observable_postconditions : SemanticPlan → Bool
has_observable_postconditions p =
    not (is_empty p.steps) && all (λ s. not (trim_is_empty s.expected_state)) p.steps

unfoldable pub high_risk_terms : List Text
high_risk_terms =
    codes "delete"
    ∷ codes "remove"
    ∷ codes "close"
    ∷ codes "payment"
    ∷ codes "purchase"
    ∷ codes "send"
    ∷ codes "publish"
    ∷ codes "install"
    ∷ codes "permission"
    ∷ codes "security"
    ∷ codes "account"
    ∷ codes "credential"
    ∷ codes "password"
    ∷ codes "system_setting"
    ∷ codes "file_operation"
    ∷ codes "删除"
    ∷ codes "付款"
    ∷ codes "购买"
    ∷ codes "发送"
    ∷ codes "发布"
    ∷ codes "安装"
    ∷ codes "权限"
    ∷ codes "密码"
    ∷ []

unfoldable pub medium_risk_terms : List Text
medium_risk_terms =
    codes "click"
    ∷ codes "type"
    ∷ codes "key"
    ∷ codes "open"
    ∷ codes "select"
    ∷ codes "toggle"
    ∷ codes "submit"
    ∷ codes "点击"
    ∷ codes "输入"
    ∷ codes "打开"
    ∷ codes "选择"
    ∷ codes "切换"
    ∷ []

-- `unwrap_or_default` of a text.
abbrev pub text_or_empty : Option Text → Text
text_or_empty none = []
text_or_empty (some s) = s

unfoldable pub semantic_operation_risk : Text → Option Text → RiskLevel
semantic_operation_risk operation input =
    let op = to_ascii_lowercase operation in
    let given = to_ascii_lowercase (text_or_empty input) in
    if any (λ term. contains op term || contains given term) high_risk_terms
    then high
    else (if any (λ term. contains op term) medium_risk_terms then medium else low)

pub data SemanticError : Type 0 where
  no_goal_or_steps too_many_steps incomplete_step : SemanticError

-- The loop of `validate_semantic_plan` over the steps, which writes their risk.
unfoldable pub assess_steps : List SemanticStep → Result SemanticError (List SemanticStep)
assess_steps [] = ok []
assess_steps (s ∷ rest) = do
  fail_if (trim_is_empty s.operation || trim_is_empty s.expected_state) incomplete_step
  assessed ← assess_steps rest
  ok (record s { risk = semantic_operation_risk s.operation s.input_summary } ∷ assessed)

unfoldable pub validate_semantic_plan : SemanticPlan → Result SemanticError SemanticPlan
validate_semantic_plan p = do
  fail_if (trim_is_empty p.goal || is_empty p.steps) no_goal_or_steps
  fail_if (ltb 20 (length p.steps)) too_many_steps
  steps ← assess_steps p.steps
  ok (record p { steps = steps })

pub record ConfidenceEvidence : Type 0 where
  pub target_uniqueness : F32
  pub grounding_confidence : F32
  pub evidence_match : F32
  pub postcondition_coverage : F32

-- The fold over the four signals.
unfoldable pub conservative_score : ConfidenceEvidence → F32
conservative_score e =
    f32_min
      (f32_min
        (f32_min (f32_min f32_one (f32_clamp e.target_uniqueness f32_zero f32_one))
          (f32_clamp e.grounding_confidence f32_zero f32_one))
        (f32_clamp e.evidence_match f32_zero f32_one))
      (f32_clamp e.postcondition_coverage f32_zero f32_one)

pub data EscalationReason : Type 0 where
  high_risk cross_application too_many_plan_steps sensitive_operation : EscalationReason
  missing_postcondition stale_snapshot insufficient_evidence : EscalationReason
  local_model_unavailable gpu_unavailable : EscalationReason

pub data RouteTarget : Type 0 where
  local_qwen remote_primary remote_backup user_decision_required reject : RouteTarget

pub record RouteDecision : Type 0 where
  pub target : RouteTarget
  pub reasons : List EscalationReason
  pub requires_confirmation : Bool

pub record PlanningEvidence : Type 0 where
  pub maximum_risk : RiskLevel
  pub step_count : ℕ
  pub single_application : Bool
  pub sensitive_operation : Bool
  pub observable_postconditions : Bool
  pub snapshot_fresh : Bool
  pub local_model_available : Bool
  pub gpu_available : Bool
  pub confidence : ConfidenceEvidence

abbrev pub is_high : RiskLevel → Bool
is_high high = true
is_high _ = false

-- `if test { reasons.push(reason); }`, with the pushes that follow.
abbrev pub push_if : Bool → EscalationReason → List EscalationReason → List EscalationReason
push_if true reason later = reason ∷ later
push_if false reason later = later

abbrev pub threshold : RiskLevel → F32
threshold low = local_low_risk_threshold
threshold medium = local_medium_risk_threshold
threshold high = f32_one

unfoldable pub escalation_reasons : PlanningEvidence → List EscalationReason
escalation_reasons e = push_if (is_high e.maximum_risk) high_risk (
    push_if (not e.single_application) cross_application (
      push_if (ltb max_local_plan_steps e.step_count) too_many_plan_steps (
        push_if e.sensitive_operation sensitive_operation (
          push_if (not e.observable_postconditions) missing_postcondition (
            push_if (not e.snapshot_fresh) stale_snapshot (
              push_if (not e.local_model_available) local_model_unavailable (
                push_if (not e.gpu_available) gpu_unavailable (
                  push_if (f32_lt (conservative_score e.confidence) (threshold e.maximum_risk))
                    insufficient_evidence []))))))))

abbrev pub is_stale : EscalationReason → Bool
is_stale stale_snapshot = true
is_stale _ = false

unfoldable pub decide_route : PlanningEvidence → List EscalationReason → RouteDecision
decide_route e reasons =
    if is_empty reasons
    then (record {
      target = local_qwen;
      reasons = reasons;
      requires_confirmation = leb (rank medium) (rank e.maximum_risk);
    })
    else (record {
      target = if any is_stale reasons then reject else user_decision_required;
      reasons = reasons;
      requires_confirmation = true;
    })

unfoldable pub route_planning : PlanningEvidence → RouteDecision
route_planning e = decide_route e (escalation_reasons e)
