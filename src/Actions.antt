-- ===== src/Actions.antt =====
-- ale-core/src/actions.rs: automation plans that a model proposes, their risk and their limits.
-- A float is its bit pattern, a text the list of its code points. `serde_json` is a parameter of
-- the two parsers: what it reads from a text, or nothing. Not modelled: `describe` (display text).
pub mod Risk
pub mod Limits
pub mod Parsing
use ale_my_eyes_desktop.Prelude.{
  ℕ, Bool, true, false, not, ◌&&◌, ◌||◌, Option, none, some, List, [], ◌∷◌, ◌++◌, map, ltb, leb,
  if◌then◌else◌, length, is_empty,
}
use ale_my_eyes_desktop.Prelude.Text.{Text, codes, len_utf8}
use ale_my_eyes_desktop.Prelude.Float.{F64, f64_is_finite}
use ale_my_eyes_desktop.Prelude.Result.{Result, ok, err, ◌>>=◌, ◌>>◌, fail_if, map_err}

abbrev pub max_actions : ℕ
max_actions = 20

abbrev pub max_typed_text_chars : ℕ
max_typed_text_chars = 2000

abbrev pub max_wait_ms : ℕ
max_wait_ms = 30000

pub data RiskLevel : Type 0 where
  low medium high : RiskLevel

-- The derived order, by rank.
abbrev pub rank : RiskLevel → ℕ
rank low = 0
rank medium = 1
rank high = 2

-- `Iterator::max`, and the `unwrap_or` that follows it.
abbrev pub max_risk : RiskLevel → RiskLevel → RiskLevel
max_risk r s = if ltb (rank s) (rank r) then r else s

unfoldable pub maximum_or_low : List RiskLevel → RiskLevel
maximum_or_low [] = low
maximum_or_low (r ∷ rs) = max_risk r (maximum_or_low rs)

pub data MouseButton : Type 0 where
  left right middle : MouseButton

pub data FileOp : Type 0 where
  create delete move copy rename : FileOp

pub data Action : Type 0 where
  click : (x y : F64) (button : MouseButton) → Action
  controlled_test_click : (x y : F64) (window_title target_name snapshot_id : Text) → Action
  double_click : (x y : F64) → Action
  mouse_move : (x y : F64) → Action
  scroll : (x y delta_x delta_y : F64) → Action
  type : (text : Text) → Action
  key : (name : Text) (modifiers : List Text) → Action
  wait : (ms : ℕ) → Action
  open_app : (name : Text) → Action
  close_app : (name : Text) → Action
  open_url : (url : Text) → Action
  file_operation : (operation : FileOp) (path : Text) (target : Option Text) → Action

pub record ActionPlan : Type 0 where
  pub actions : List Action
  pub risk_level : RiskLevel
  pub explanation : Text
  pub requires_confirmation : Bool

unfoldable pub action_risk : Action → RiskLevel
action_risk (mouse_move x y) = low
action_risk (scroll x y dx dy) = low
action_risk (wait ms) = low
action_risk (close_app name) = high
action_risk (file_operation op path target) = high
action_risk (click x y button) = medium
action_risk (controlled_test_click x y window target snapshot) = medium
action_risk (double_click x y) = medium
action_risk (type text) = medium
action_risk (key name modifiers) = medium
action_risk (open_app name) = medium
action_risk (open_url url) = medium

unfoldable pub new : Text → ActionPlan
new explanation = record {
  actions = [];
  risk_level = low;
  explanation = explanation;
  requires_confirmation = false;
}

unfoldable pub add_action : ActionPlan → Action → ActionPlan
add_action p a =
    let risk =
      if ltb (rank p.risk_level) (rank (action_risk a)) then action_risk a else p.risk_level in
    record {
      actions = p.actions ++ a ∷ [];
      risk_level = risk;
      explanation = p.explanation;
      requires_confirmation = leb (rank medium) (rank risk);
    }

unfoldable pub recompute_risk : ActionPlan → ActionPlan
recompute_risk p =
    let risk = maximum_or_low (map action_risk p.actions) in
    record p { risk_level = risk; requires_confirmation = leb (rank medium) (rank risk) }

-- The messages of `AleError::ConfigError` that `validate` returns.
pub data PlanError : Type 0 where
  empty_plan too_many_actions coordinate_not_finite scroll_not_finite : PlanError
  text_too_long wait_too_long snapshot_unbound : PlanError

abbrev pub check_point : F64 → F64 → Result PlanError (Unit {0})
check_point x y = fail_if (not (f64_is_finite x) || not (f64_is_finite y)) coordinate_not_finite

-- The `match` of the loop in `validate`, its arms in order.
unfoldable pub check_action : Action → Result PlanError (Unit {0})
check_action (click x y button) = check_point x y
check_action (controlled_test_click x y window target snapshot_id) = do
  check_point x y
  fail_if (is_empty snapshot_id || ltb 128 (len_utf8 snapshot_id)) snapshot_unbound
check_action (double_click x y) = check_point x y
check_action (mouse_move x y) = check_point x y
check_action (scroll x y delta_x delta_y) = do
  check_point x y
  fail_if (not (f64_is_finite delta_x) || not (f64_is_finite delta_y)) scroll_not_finite
check_action (type text) = fail_if (ltb max_typed_text_chars (length text)) text_too_long
check_action (wait ms) = fail_if (ltb max_wait_ms ms) wait_too_long
check_action (key name modifiers) = ok tt
check_action (open_app name) = ok tt
check_action (close_app name) = ok tt
check_action (open_url url) = ok tt
check_action (file_operation op path target) = ok tt

unfoldable pub check_actions : List Action → Result PlanError (Unit {0})
check_actions [] = ok tt
check_actions (a ∷ rest) = check_action a >> check_actions rest

unfoldable pub validate : ActionPlan → Result PlanError (Unit {0})
validate p = do
  fail_if (is_empty p.actions) empty_plan
  fail_if (ltb max_actions (length p.actions)) too_many_actions
  check_actions p.actions

abbrev pub risk_warning : RiskLevel → Text
risk_warning high = codes "风险较高"
risk_warning medium = codes "需要确认"
risk_warning low = []

unfoldable pub speak_text : ActionPlan → Text
speak_text p =
    if p.requires_confirmation
    then p.explanation ++ codes "\n这个操作" ++ risk_warning p.risk_level ++ codes "，请确认是否执行。"
    else p.explanation

pub data ParseError : Type 0 where
  json : ParseError
  invalid : PlanError → ParseError

-- What both parsers do with the plan that was read.
unfoldable pub accept_plan : ActionPlan → Result ParseError ActionPlan
accept_plan p = let q = recompute_risk p in do map_err invalid (validate q); ok q

abbrev pub read_plan : Option ActionPlan → Result ParseError ActionPlan
read_plan none = err json
read_plan (some p) = accept_plan p

-- `from_str` is `serde_json::from_str` at `ActionPlan`.
unfoldable pub parse_action_plan : (Text → Option ActionPlan) → Text → Result ParseError ActionPlan
parse_action_plan from_str text = read_plan (from_str text)

-- `plan_field` reads the text rest a JSON value, and its member `plan` rest an `ActionPlan`.
unfoldable pub parse_action_plan_arguments :
    (Text → Option ActionPlan) → (Text → Option ActionPlan) → Text → Result ParseError ActionPlan
parse_action_plan_arguments from_str plan_field text = elim (parse_action_plan from_str text) [
  | ok p ↦ ok p
  | err e ↦ read_plan (plan_field text)
]
