-- ===== src/Policy/Laws.antt =====
-- When a plan may run without a human (src/aegis_services/policy_approval/policy.py).
use aegis_project.Prelude.{◌≡◌, ◌↔◌, refl, true, false, List, [], ◌∷◌, arith, eq_iff, All}
use aegis_project.Policy.{PolicyMode, StepContext, evaluate_step, is_auto, plan_requires_human}

-- A step that may run by itself.
pub record IsAutomatic (mode : PolicyMode) (s : StepContext) : Type 0 where
  pub mode_auto : mode ≡ PolicyMode.auto_low
  pub low_risk : s.risk_tier ≡ "low"
  pub catalog_auto : s.catalog_requires_approval ≡ false
  pub precedent : s.autonomy_allowed ≡ true

pub evaluate_step-IsAutomatic :
    (mode : PolicyMode) (s : StepContext)
    → (is_auto (evaluate_step mode s) ≡ true) ↔ IsAutomatic mode s
unfolding evaluate_step
evaluate_step-IsAutomatic mode s = ground (arith, eq_iff s.risk_tier "low")

-- A plan is held for a human unless every one of its steps may run by itself: the mode is
-- `auto_low`, the step's risk is low, its catalog entry wants no approval and there is a
-- precedent.
pub plan_requires_human_exact :
    (mode : PolicyMode) (steps : List StepContext)
    → (plan_requires_human mode steps ≡ false) ↔ All (IsAutomatic mode) steps
unfolding plan_requires_human
plan_requires_human_exact mode [] = (λ _. tt, λ _. refl)
plan_requires_human_exact mode (s ∷ ss) =
    let (to, from) = evaluate_step-IsAutomatic mode s in
    let (to', from') = plan_requires_human_exact mode ss in
    (λ h. (to (ground arith), to' (ground arith)), λ h. ground (arith, from h.0, from' h.1))
