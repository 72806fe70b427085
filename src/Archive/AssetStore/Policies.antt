-- ===== src/Archive/AssetStore/Policies.antt =====
-- The limits that the policies of src/archive/asset_store.rs hold.
use werrss.Common.{ℕ, ◌≤◌, ◌<◌, ok, ◌≡◌, arith}
use werrss.Archive.AssetStore.{
  AssetCachePolicy, new_cache_policy, AssetRepairPolicy, new_repair_policy, AssetRefreshPolicy,
  new_refresh_policy, from_secs,
}

-- A request ends within the article's budget, and no limit of a fetch is zero.
pub record IsCachePolicy (policy : AssetCachePolicy) : Type 0 where
  pub has_asset_size : 0 < policy.max_asset_size_bytes
  pub has_count : 0 < policy.max_count_per_article
  pub has_fetch_bytes : 0 < policy.max_fetch_bytes_per_article
  pub has_timeout : 0 < policy.fetch_timeout
  pub within_budget : policy.fetch_timeout ≤ policy.max_fetch_time_per_article

pub new_cache_policy-IsCachePolicy :
    (cache_size age asset_size count fetch_bytes fetch_time timeout redirects : ℕ)
    (policy : AssetCachePolicy)
    → new_cache_policy cache_size age asset_size count fetch_bytes fetch_time timeout redirects
      ≡ ok policy
    → IsCachePolicy policy
unfolding new_cache_policy
new_cache_policy-IsCachePolicy cache_size age asset_size count fetch_bytes fetch_time timeout
      redirects policy h =
    record {
      has_asset_size = ground arith;
      has_count = ground arith;
      has_fetch_bytes = ground arith;
      has_timeout = ground arith;
      within_budget = ground arith;
    }

-- Public repairs have no more room than all repairs.
pub record IsRepairPolicy (policy : AssetRepairPolicy) : Type 0 where
  pub has_pending : 0 < policy.max_pending
  pub has_delay : 0 < policy.requeue_after
  pub has_attempts : 0 < policy.max_attempts
  pub public_within : policy.public_max_pending ≤ policy.max_pending

pub new_repair_policy-IsRepairPolicy :
    (pending public_pending requeue attempts : ℕ) (policy : AssetRepairPolicy)
    → new_repair_policy pending public_pending requeue attempts ≡ ok policy
    → IsRepairPolicy policy
unfolding new_repair_policy
new_repair_policy-IsRepairPolicy pending public_pending requeue attempts policy h = record {
  has_pending = ground arith;
  has_delay = ground arith;
  has_attempts = ground arith;
  public_within = ground arith;
}

pub new_refresh_policy_bounds :
    (attempts cooldown : ℕ) (policy : AssetRefreshPolicy)
    → new_refresh_policy attempts cooldown ≡ ok policy
    → ((1 ≤ policy.max_attempts) × (policy.max_attempts ≤ 10))
      × ((from_secs 60 ≤ policy.cooldown) × (policy.cooldown ≤ from_secs 86400))
unfolding new_refresh_policy
new_refresh_policy_bounds attempts cooldown policy h = ground arith
