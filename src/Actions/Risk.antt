-- ===== src/Actions/Risk.antt =====
-- actions.rs: the risk of a plan is the largest risk of its actions, however the plan is built.
use mathlib.Core.List.{append-nil, append_assoc}
use ale_my_eyes_desktop.Prelude.{
  sym, ◌≡◌, refl, ◌≤◌, ◌⊎◌, inl, Bool, List, [], ◌∷◌, ◌++◌, map, leb, arith, All, ◌∙◌, ap,
}
use ale_my_eyes_desktop.Prelude.Text.{Text}
use ale_my_eyes_desktop.Actions.{
  RiskLevel, low, medium, rank, max_risk, maximum_or_low, Action, ActionPlan, action_risk, new,
  add_action, recompute_risk,
}

-- Some action of the list carries the risk.
abbrev pub Carries : RiskLevel → List Action → Type 0
Carries r [] = ⊥
Carries r (a ∷ rest) = (action_risk a ≡ r) ⊎ Carries r rest

-- The independent description of a plan whose risk fields tell the truth.
pub record IsAssessed (p : ActionPlan) : Type 0 where
  pub covers : All (λ a. rank (action_risk a) ≤ rank p.risk_level) p.actions
  pub attained : (p.risk_level ≡ low) ⊎ Carries p.risk_level p.actions
  pub confirmed : p.requires_confirmation ≡ leb (rank medium) (rank p.risk_level)

All-le_trans :
    (r s : RiskLevel) (rest : List Action)
    → rank r ≤ rank s
    → All (λ a. rank (action_risk a) ≤ rank r) rest
    → All (λ a. rank (action_risk a) ≤ rank s) rest
All-le_trans r s [] h k = tt
All-le_trans r s (a ∷ rest) h k = (omega arith, All-le_trans r s rest h k.1)

maximum-covers :
    (rest : List Action)
    → All (λ a. rank (action_risk a) ≤ rank (maximum_or_low (map action_risk rest))) rest
unfolding maximum_or_low
maximum-covers [] = tt
maximum-covers (a ∷ rest) = (
  ground arith,
  All-le_trans (maximum_or_low (map action_risk rest))
      (max_risk (action_risk a) (maximum_or_low (map action_risk rest))) rest (ground arith)
      (maximum-covers rest),
)

maximum-attained :
    (rest : List Action)
    → (maximum_or_low (map action_risk rest) ≡ low)
      ⊎ Carries (maximum_or_low (map action_risk rest)) rest
unfolding maximum_or_low
maximum-attained [] = inl refl
maximum-attained (a ∷ rest) = ground (arith, maximum-attained rest)

-- Whatever the risk and confirmation fields of a plan claim, after `recompute_risk` its risk is at
-- least that of every action, is low or that of some action, and confirmation is required exactly
-- from medium risk on; the actions and the explanation are kept.
pub recompute_risk-IsAssessed :
    (p : ActionPlan)
    → IsAssessed (recompute_risk p)
      × ((recompute_risk p).actions ≡ p.actions)
      × ((recompute_risk p).explanation ≡ p.explanation)
unfolding recompute_risk
recompute_risk-IsAssessed p = (
  record {
    covers = maximum-covers p.actions;
    attained = maximum-attained p.actions;
    confirmed = refl;
  },
  refl,
  refl,
)

-- The loop that adds actions one by one.
unfoldable pub add_all : ActionPlan → List Action → ActionPlan
add_all p [] = p
add_all p (a ∷ rest) = add_all (add_action p a) rest

maximum-snoc :
    (rest : List Action) (a : Action)
    → maximum_or_low (map action_risk (rest ++ a ∷ []))
      ≡ max_risk (action_risk a) (maximum_or_low (map action_risk rest))
unfolding maximum_or_low
maximum-snoc [] a = refl
maximum-snoc (b ∷ rest) a = ground (arith, maximum-snoc rest a)

-- Adding an action to a plan whose fields are right gives what `recompute_risk` gives for the list
-- with that action at its end.
pub add_action-recompute_risk :
    (p : ActionPlan) (a : Action)
    → add_action (recompute_risk p) a ≡ recompute_risk (record p { actions = p.actions ++ a ∷ [] })
unfolding add_action recompute_risk
add_action-recompute_risk p a = ground (arith, maximum-snoc p.actions a)

add_all-recompute_risk :
    (p : ActionPlan) (xs : List Action)
    → add_all (recompute_risk p) xs ≡ recompute_risk (record p { actions = p.actions ++ xs })
unfolding add_all
add_all-recompute_risk p [] =
    ap (λ l. recompute_risk (record p { actions = l })) (sym (append-nil p.actions))
add_all-recompute_risk p (x ∷ xs) = rw (add_action-recompute_risk p x) (
    add_all-recompute_risk (record p { actions = p.actions ++ x ∷ [] }) xs
    ∙ ap (λ l. recompute_risk (record p { actions = l })) (append_assoc p.actions (x ∷ []) xs))

-- A plan built from `new` by adding the actions one after another is the plan that `recompute_risk`
-- makes of the whole list, whatever risk and confirmation that one claimed before.
pub add_all-new :
    (explanation : Text) (xs : List Action) (claimed : RiskLevel) (confirmation : Bool)
    → add_all (new explanation) xs
      ≡ recompute_risk (record {
        actions = xs;
        risk_level = claimed;
        explanation = explanation;
        requires_confirmation = confirmation;
      })
unfolding new recompute_risk maximum_or_low
add_all-new explanation xs claimed confirmation = add_all-recompute_risk (new explanation) xs
