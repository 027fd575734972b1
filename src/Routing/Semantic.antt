-- ===== src/Routing/Semantic.antt =====
-- model_scheduler.rs: a validated semantic plan, and the risk that its operations are given.
use mathlib.Core.List.{map-append}
use ale_my_eyes_desktop.Prelude.{
  suc, ◌≤◌, ◌<◌, ◌≡◌, refl, ap, Bool, true, false, not, Option, some, List, [], ◌∷◌, ◌++◌, any, all,
  length, arith, if◌then◌else◌,
}
use ale_my_eyes_desktop.Prelude.Text.{
  Text, trim_is_empty, to_ascii_lowercase, to_ascii_lowercase_idem, contains, contains-around,
}
use ale_my_eyes_desktop.Prelude.Result.{ok}
use ale_my_eyes_desktop.Actions.{low, medium, high, rank}
use ale_my_eyes_desktop.Routing.{
  SemanticStep, SemanticPlan, semantic_operation_risk, high_risk_terms, medium_risk_terms,
  assess_steps, validate_semantic_plan, has_observable_postconditions,
}

-- A step as it must be, beside the step that was proposed: its risk is that of its operation.
abbrev pub Assesses : SemanticStep → SemanticStep → Type 0
Assesses s t =
    (t ≡ record s { risk = semantic_operation_risk s.operation s.input_summary })
    × (trim_is_empty s.operation ≡ false)
    × (trim_is_empty s.expected_state ≡ false)

abbrev pub AssessesAll : List SemanticStep → List SemanticStep → Type 0
AssessesAll [] [] = Unit
AssessesAll [] (t ∷ ts) = ⊥
AssessesAll (s ∷ ss) [] = ⊥
AssessesAll (s ∷ ss) (t ∷ ts) = Assesses s t × AssessesAll ss ts

assess_steps-cons :
    (s : SemanticStep) (ss out : List SemanticStep)
    → assess_steps (s ∷ ss) ≡ ok out
    → (ts : List SemanticStep) × (assess_steps ss ≡ ok ts)
      × (out ≡ record s { risk = semantic_operation_risk s.operation s.input_summary } ∷ ts)
      × (trim_is_empty s.operation ≡ false)
      × (trim_is_empty s.expected_state ≡ false)
unfolding assess_steps
assess_steps-cons s ss out h = ground arith

assess_steps-Assesses : (ss out : List SemanticStep) → assess_steps ss ≡ ok out → AssessesAll ss out
unfolding assess_steps
assess_steps-Assesses [] [] h = tt
assess_steps-Assesses [] (t ∷ ts) h = cc
assess_steps-Assesses (s ∷ ss) out h =
    let (ts, e, o, named, shown) = assess_steps-cons s ss out h in
    rw o ((refl, named, shown), assess_steps-Assesses ss ts e)

AssessesAll-length : (ss ts : List SemanticStep) → AssessesAll ss ts → length ts ≡ length ss
AssessesAll-length [] [] h = refl
AssessesAll-length [] (t ∷ ts) h = absurd h
AssessesAll-length (s ∷ ss) [] h = absurd h
AssessesAll-length (s ∷ ss) (t ∷ ts) h = ap suc (AssessesAll-length ss ts h.1)

AssessesAll-observable :
    (ss ts : List SemanticStep)
    → AssessesAll ss ts
    → all (λ s. not (trim_is_empty s.expected_state)) ts ≡ true
AssessesAll-observable [] [] h = refl
AssessesAll-observable [] (t ∷ ts) h = absurd h
AssessesAll-observable (s ∷ ss) [] h = absurd h
AssessesAll-observable (s ∷ ss) (t ∷ ts) h = ground (arith, AssessesAll-observable ss ts h.1)

validate-parts :
    (p q : SemanticPlan)
    → validate_semantic_plan p ≡ ok q
    → (ts : List SemanticStep) × (assess_steps p.steps ≡ ok ts)
      × (q ≡ record p { steps = ts })
      × (trim_is_empty p.goal ≡ false)
      × (0 < length p.steps)
      × (length p.steps ≤ 20)
unfolding validate_semantic_plan
validate-parts p q h = ground arith

observable_steps :
    (q : SemanticPlan)
    → 0 < length q.steps
    → all (λ s. not (trim_is_empty s.expected_state)) q.steps ≡ true
    → has_observable_postconditions q ≡ true
unfolding has_observable_postconditions
observable_steps q some_step e = ground arith

-- A validated plan has a goal, 1 to 20 steps, each with an operation and an expected state, so that
-- its postconditions are observable; the risk of each step is that of its operation and input,
-- whatever risk was claimed, and nothing else of the plan is changed.
pub validate_semantic_plan-Assesses :
    (p q : SemanticPlan)
    → validate_semantic_plan p ≡ ok q
    → (trim_is_empty q.goal ≡ false)
      × (0 < length q.steps)
      × (length q.steps ≤ 20)
      × AssessesAll p.steps q.steps
      × (has_observable_postconditions q ≡ true)
      × (q.goal ≡ p.goal)
      × (q.application_id ≡ p.application_id)
validate_semantic_plan-Assesses p q h =
    let (ts, e, o, goal, some_step, few) = validate-parts p q h in
    let assessed = assess_steps-Assesses p.steps ts e in
    let same = AssessesAll-length p.steps ts assessed in
    rw o (
      goal,
      omega arith,
      omega arith,
      assessed,
      observable_steps (record p { steps = ts }) (omega arith)
          (AssessesAll-observable p.steps ts assessed),
      refl,
      refl,
    )

any_mono :
    {A : Type 0} (p q : A → Bool) (xs : List A)
    → ((x : A) → p x ≡ true → q x ≡ true)
    → any p xs ≡ true
    → any q xs ≡ true
any_mono p q [] h e = cc
any_mono p q (x ∷ xs) h e = ground (arith, h x, any_mono p q xs h)

lowercase-append :
    (s t : Text) → to_ascii_lowercase (s ++ t) ≡ to_ascii_lowercase s ++ to_ascii_lowercase t
unfolding to_ascii_lowercase
lowercase-append s t = map-append _ s t

lowercase-around :
    (before s after term : Text)
    → contains (to_ascii_lowercase s) term ≡ true
    → contains (to_ascii_lowercase (before ++ (s ++ after))) term ≡ true
lowercase-around before s after term h =
    rw (lowercase-append before (s ++ after), lowercase-append s after)
      (contains-around (to_ascii_lowercase before) (to_ascii_lowercase s) (to_ascii_lowercase after)
        term h)

rank_of_tests :
    (h h' m m' : Bool)
    → (h ≡ true → h' ≡ true)
    → (m ≡ true → m' ≡ true)
    → rank (if h then high else (if m then medium else low))
      ≤ rank (if h' then high else (if m' then medium else low))
rank_of_tests h h' m m' k l = ground arith

-- More text around an operation never lowers its risk: nothing written before or after a risky word
-- hides it.
pub semantic_operation_risk-around :
    (before operation after : Text) (input : Option Text)
    → rank (semantic_operation_risk operation input)
      ≤ rank (semantic_operation_risk (before ++ (operation ++ after)) input)
unfolding semantic_operation_risk
semantic_operation_risk-around before operation after input =
    rank_of_tests _ _ _ _
      (any_mono _ _ high_risk_terms
        λ term h. ground (arith, lowercase-around before operation after term))
      (any_mono _ _ medium_risk_terms (lowercase-around before operation after))

-- Letter case plays no part: in lower case an operation and its input have the same risk.
pub semantic_operation_risk-lowercase :
    (operation input : Text)
    → semantic_operation_risk (to_ascii_lowercase operation) (some (to_ascii_lowercase input))
      ≡ semantic_operation_risk operation (some input)
unfolding semantic_operation_risk
semantic_operation_risk-lowercase operation input =
    rw (to_ascii_lowercase_idem operation, to_ascii_lowercase_idem input)
