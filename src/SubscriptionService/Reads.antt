-- ===== src/SubscriptionService/Reads.antt =====
-- The lookups of the subscription service only read.
use orgfin_diploma.Prelude.{ℕ}
use orgfin_diploma.Exec.Rules.{IsReadOnly, read_only}
use orgfin_diploma.Repositories.Plans
use orgfin_diploma.Repositories.Subscriptions

pub IsReadOnly-get_plan : (i : ℕ) → IsReadOnly (Plans.get_by_id i)
unfolding Plans.get_by_id
IsReadOnly-get_plan i = search read_only

pub IsReadOnly-get_free_plan : IsReadOnly Plans.get_free_plan
unfolding Plans.get_free_plan
IsReadOnly-get_free_plan = search read_only

pub IsReadOnly-get_by_user_id : (u : ℕ) → IsReadOnly (Subscriptions.get_by_user_id u)
unfolding Subscriptions.get_by_user_id
IsReadOnly-get_by_user_id u = search read_only

pub IsReadOnly-get_by_id : (i : ℕ) → IsReadOnly (Subscriptions.get_by_id i)
unfolding Subscriptions.get_by_id
IsReadOnly-get_by_id i = search read_only

pub IsReadOnly-get_active_plans : IsReadOnly Plans.get_active_plans
unfolding Plans.get_active_plans
IsReadOnly-get_active_plans = search read_only

pub ruleset plan_reads = (
  read_only, IsReadOnly-get_by_id, IsReadOnly-get_active_plans, IsReadOnly-get_plan,
  IsReadOnly-get_free_plan, IsReadOnly-get_by_user_id,
)
