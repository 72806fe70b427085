-- ===== src/Tests/AssetStoreRuns.antt =====
-- Runs of the policies, keys and blobs of src/archive/asset_store.rs.
use mathlib.Core.List.{reverse}
use werrss.Common.{
  split, ℕ, ◌≡◌, refl, true, false, Option, none, some, List, [], ◌∷◌, ◌++◌, Text, codes, ok, err,
  is_ok,
}
use werrss.Archive.AssetStore.{
  default_cache_policy, default_repair_policy, default_refresh_policy, new_cache_policy,
  timeout_exceeds_article_budget, new_repair_policy, public_limit_exceeds_global,
  new_refresh_policy, attempt_limit_out_of_range, cooldown_out_of_range, from_secs, new_blob_key,
  for_blob_id, empty, absolute_or_invalid, traversal, backslash, new_blob, checksum_mismatch,
  new_blob_metadata, invalid_metadata, starts_with, contains,
}
use werrss.Archive.AssetStore.Keys.{resolve, resolve-new_blob_key}

defaults :
    (is_ok default_cache_policy ≡ true)
    × (is_ok default_repair_policy ≡ true)
    × (is_ok default_refresh_policy ≡ true)
unfolding new_cache_policy new_repair_policy new_refresh_policy
defaults = (refl, refl, refl)

refused_policies :
    (new_cache_policy 0 0 1 1 1 5 6 0 ≡ err timeout_exceeds_article_budget)
    × (new_repair_policy 3 4 1 1 ≡ err public_limit_exceeds_global)
    × (new_refresh_policy 11 (from_secs 60) ≡ err attempt_limit_out_of_range)
    × (new_refresh_policy 10 (from_secs 59) ≡ err cooldown_out_of_range)
unfolding new_cache_policy new_repair_policy new_refresh_policy
refused_policies = (refl, refl, refl, refl)

refused_keys :
    (new_blob_key (codes " ") ≡ err empty)
    × (new_blob_key (codes "/a") ≡ err absolute_or_invalid)
    × (new_blob_key (codes "C:a") ≡ err absolute_or_invalid)
    × (new_blob_key (codes "a/../b") ≡ err traversal)
    × (new_blob_key (codes "a//b") ≡ err traversal)
    × (new_blob_key (codes "a\\b") ≡ err backslash)
unfolding new_blob_key werrss.Common.is_blank werrss.Domain.UrlPolicy.any split
    werrss.Common.text_eq
refused_keys = (refl, refl, refl, refl, refl, refl)

abbrev key : Text
key = for_blob_id (codes "6f1a-07")

refused_blobs :
    (new_blob (λ bytes. codes "00") [] (codes "image/png") (codes "01") ≡ err checksum_mismatch)
    × (new_blob_metadata (codes "00") (codes "image/png") 0 true ≡ err invalid_metadata)
unfolding new_blob werrss.Common.is_blank werrss.Common.text_eq new_blob_metadata
    werrss.Common.utf8_len
refused_blobs = (refl, refl)

resolve-new_blob_key_example :
    (key ≡ key)
    × ((resolve (codes "data" ∷ []) (split 47 key) ≡ reverse (split 47 key) ++ (codes "data" ∷ []))
        × ((starts_with 47 key ≡ false) × ((contains 0 key ≡ false) × (contains 92 key ≡ false))))
unfolding new_blob_key werrss.Common.is_blank werrss.Domain.UrlPolicy.any split
    werrss.Common.text_eq
resolve-new_blob_key_example = resolve-new_blob_key (codes "data" ∷ []) key key refl
