-- ===== src/Actions/Limits.antt =====
-- actions.rs: what `validate` lets through, and which error it returns.
use ale_my_eyes_desktop.Prelude.{
  ◌≡◌, refl, ◌≤◌, ◌<◌, ◌↔◌, true, List, [], ◌∷◌, ◌++◌, length, arith, All,
}
use ale_my_eyes_desktop.Prelude.Text.{len_utf8}
use ale_my_eyes_desktop.Prelude.Float.{F64, f64_is_finite}
use ale_my_eyes_desktop.Prelude.Result.{ok, err}
use ale_my_eyes_desktop.Actions.{
  Action, ActionPlan, PlanError, click, controlled_test_click, double_click, mouse_move, scroll,
  type, key, wait, open_app, close_app, open_url, file_operation, check_action, check_actions,
  validate,
}

abbrev pub Finite : F64 → F64 → Type 0
Finite x y = (f64_is_finite x ≡ true) × (f64_is_finite y ≡ true)

-- What an action must satisfy to be executed.
abbrev pub IsSafe : Action → Type 0
IsSafe (click x y button) = Finite x y
IsSafe (controlled_test_click x y window target snapshot_id) =
    Finite x y × (0 < length snapshot_id) × (len_utf8 snapshot_id ≤ 128)
IsSafe (double_click x y) = Finite x y
IsSafe (mouse_move x y) = Finite x y
IsSafe (scroll x y delta_x delta_y) = Finite x y × Finite delta_x delta_y
IsSafe (type text) = length text ≤ 2000
IsSafe (key name modifiers) = Unit
IsSafe (wait ms) = ms ≤ 30000
IsSafe (open_app name) = Unit
IsSafe (close_app name) = Unit
IsSafe (open_url url) = Unit
IsSafe (file_operation operation path target) = Unit

pub record IsWellFormed (p : ActionPlan) : Type 0 where
  pub some_action : 0 < length p.actions
  pub at_most_20 : length p.actions ≤ 20
  pub each_safe : All IsSafe p.actions

check_action_sound : (a : Action) → check_action a ≡ ok tt → IsSafe a
unfolding check_action
check_action_sound (click x y button) h = ground arith
check_action_sound (controlled_test_click x y window target []) h = ground arith
check_action_sound (controlled_test_click x y window target (c ∷ s)) h = ground arith
check_action_sound _ h = ground arith

check_action_complete : (a : Action) → IsSafe a → check_action a ≡ ok tt
unfolding check_action
check_action_complete (click x y button) h = ground arith
check_action_complete (controlled_test_click x y window target []) h = ground arith
check_action_complete (controlled_test_click x y window target (c ∷ s)) h = ground arith
check_action_complete _ h = ground arith

check_actions_sound : (xs : List Action) → check_actions xs ≡ ok tt → All IsSafe xs
unfolding check_actions
check_actions_sound [] h = tt
check_actions_sound (x ∷ xs) h = ground (arith, check_action_sound x, check_actions_sound xs)

check_actions_complete : (xs : List Action) → All IsSafe xs → check_actions xs ≡ ok tt
unfolding check_actions
check_actions_complete [] h = refl
check_actions_complete (x ∷ xs) h = rw (check_action_complete x h.0) (check_actions_complete xs h.1)

validate-nonempty : (p : ActionPlan) → validate p ≡ ok tt → 0 < length p.actions
unfolding validate
validate-nonempty p h = ground arith

validate-short :
    (p : ActionPlan)
    → validate p ≡ ok tt
    → (length p.actions ≤ 20) × (check_actions p.actions ≡ ok tt)
unfolding validate
validate-short p h = ground arith

validate_complete : (p : ActionPlan) → IsWellFormed p → validate p ≡ ok tt
unfolding validate
validate_complete p w = ground (arith, check_actions_complete p.actions)

-- `validate` accepts a plan exactly when it has 1 to 20 actions and each of them is safe: finite
-- coordinates and scroll distances, at most 2000 typed characters, a wait of at most 30 s, and a
-- snapshot of 1 to 128 bytes for a controlled test click.
pub validate_iff : (p : ActionPlan) → (validate p ≡ ok tt) ↔ IsWellFormed p
validate_iff p = (
  λ h. record {
    some_action = validate-nonempty p h;
    at_most_20 = (validate-short p h).0;
    each_safe = check_actions_sound p.actions (validate-short p h).1;
  },
  λ w. validate_complete p w,
)

-- The first action that fails decides the error, whatever follows it.
pub check_actions-first :
    (safe rest : List Action) (a : Action) {e : PlanError}
    → All IsSafe safe
    → check_action a ≡ err e
    → check_actions (safe ++ a ∷ rest) ≡ err e
unfolding check_actions
check_actions-first [] rest a h k = rw k
check_actions-first (x ∷ safe) rest a h k =
    rw (check_action_complete x h.0) (check_actions-first safe rest a h.1 k)
