-- ===== src/Policy.antt =====
-- src/aegis_services/policy_approval/policy.py: the disposition of a plan's steps.
pub mod Laws
use aegis_project.Prelude.{String, Bool, true, false, not, ◌&&◌, List, str_eq, any, if◌then◌else◌}

pub data PolicyMode : Type 0 where
  observe suggest auto_low : PolicyMode

pub data StepDisposition : Type 0 where
  auto_approve require_approval deny : StepDisposition

pub record StepContext : Type 0 where
  pub risk_tier : String
  pub catalog_requires_approval : Bool
  pub autonomy_allowed : Bool

unfoldable pub evaluate_step : PolicyMode → StepContext → StepDisposition
evaluate_step PolicyMode.observe ctx = StepDisposition.require_approval
evaluate_step PolicyMode.suggest ctx = StepDisposition.require_approval
evaluate_step PolicyMode.auto_low ctx =
    if str_eq ctx.risk_tier "low" && not ctx.catalog_requires_approval && ctx.autonomy_allowed
    then StepDisposition.auto_approve
    else StepDisposition.require_approval

abbrev pub is_auto : StepDisposition → Bool
is_auto StepDisposition.auto_approve = true
is_auto StepDisposition.require_approval = false
is_auto StepDisposition.deny = false

unfoldable pub plan_requires_human : PolicyMode → List StepContext → Bool
unfolding evaluate_step
plan_requires_human mode steps = any (λ s. not (is_auto (evaluate_step mode s))) steps
