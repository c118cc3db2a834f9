-- ===== src/Policy/Plan.antt =====
-- `RCPlanIndependentFields` of source/shared/RCSyncPolicy.c. The adapter's functions are parameters,
-- as steps on its context.
use retro_cloud_sync.Prelude.{ℕ, zero, suc, Bool, true, false, if◌then◌else◌}

-- `RCIndependentPlan`.
pub record Plan (Context : Type 0) : Type 0 where
  pub encode_structure : Context → Context × Bool
  pub restore_structure : Context → Context
  pub group_changed : ℕ → Context → Context × Bool
  pub encode_group : ℕ → Context → Context × Bool
  pub reject_group : ℕ → Context → Context

module _ {Context : Type 0} (ops : Plan Context) where
  -- A changed group that cannot be encoded is rejected.
  abbrev pub encode_or_reject : ℕ → Context → Context
  encode_or_reject i c =
      let (encoded, ok) = ops.encode_group i c in if ok then encoded else ops.reject_group i encoded

  -- One turn of the loop.
  unfoldable pub plan_group : ℕ → Context → Context
  plan_group i c =
      let (seen, changed) = ops.group_changed i c in
      if changed then encode_or_reject i seen else seen

  -- The loop from group `i` on, with `n` groups left.
  unfoldable pub plan_groups : ℕ → ℕ → Context → Context
  plan_groups zero i c = c
  plan_groups (suc n) i c = plan_groups n (suc i) (plan_group i c)

  -- The structure, with a second try after it was restored.
  unfoldable pub plan_structure : Context → Context × Bool
  plan_structure c =
      let (first, ok) = ops.encode_structure c in
      if ok then (first, true) else ops.encode_structure (ops.restore_structure first)

  -- `RCPlanIndependentFields`.
  unfoldable pub plan_independent_fields : ℕ → Context → Context × Bool
  plan_independent_fields groups c =
      let (encoded, ok) = plan_structure c in
      if ok then (plan_groups groups 0 encoded, true) else (encoded, false)
