-- ===== src/Archive/AssetStore.antt =====
-- What asset fetching, persistence and URL rewriting share, src/archive/asset_store.rs: the policies
-- of the asset cache, of repairs and of article refreshes, and the values a blob backend exchanges.
-- A duration is its nanoseconds, and the SHA-256 digest in hexadecimal is a parameter.
pub mod Keys
pub mod Blobs
pub mod Policies
use werrss.Common.{
  ℕ, ◌*◌, Bool, true, false, not, ◌&&◌, ◌||◌, Option, none, some, List, [], ◌∷◌, ◌++◌, length, Text,
  codes, text_eq, is_empty, is_blank, utf8_len, ltb, leb, ◌==◌, if◌then◌else◌, split, Result, ok,
  err,
}
use werrss.Domain.UrlPolicy.{any}

pub record AssetCachePolicy : Type 0 where
  pub max_cache_size_bytes : ℕ
  pub max_age : ℕ
  pub max_asset_size_bytes : ℕ
  pub max_count_per_article : ℕ
  pub max_fetch_bytes_per_article : ℕ
  pub max_fetch_time_per_article : ℕ
  pub fetch_timeout : ℕ
  pub max_redirects : ℕ

pub data AssetCachePolicyError : Type 0 where
  zero_limit zero_duration : (field : Text) → AssetCachePolicyError
  timeout_exceeds_article_budget : AssetCachePolicyError

unfoldable pub new_cache_policy :
    (max_cache_size_bytes max_age max_asset_size_bytes max_count_per_article : ℕ)
    (max_fetch_bytes_per_article max_fetch_time_per_article fetch_timeout max_redirects : ℕ)
    → Result AssetCachePolicyError AssetCachePolicy
new_cache_policy cache_size age asset_size count fetch_bytes fetch_time timeout redirects =
    if asset_size == 0
    then err (zero_limit (codes "max_asset_size_bytes"))
    else if count == 0
    then err (zero_limit (codes "max_count_per_article"))
    else if fetch_bytes == 0
    then err (zero_limit (codes "max_fetch_bytes_per_article"))
    else if fetch_time == 0
    then err (zero_duration (codes "max_fetch_time_per_article"))
    else if timeout == 0
    then err (zero_duration (codes "fetch_timeout"))
    else if ltb fetch_time timeout
    then err timeout_exceeds_article_budget
    else ok (record {
      max_cache_size_bytes = cache_size;
      max_age = age;
      max_asset_size_bytes = asset_size;
      max_count_per_article = count;
      max_fetch_bytes_per_article = fetch_bytes;
      max_fetch_time_per_article = fetch_time;
      fetch_timeout = timeout;
      max_redirects = redirects;
    })

-- `Duration::from_secs`.
abbrev pub from_secs : ℕ → ℕ
from_secs n = n * 1000000000

abbrev pub default_cache_policy : Result AssetCachePolicyError AssetCachePolicy
default_cache_policy =
    new_cache_policy 5000000000 (from_secs 2592000) 10000000 100 100000000 (from_secs 120)
      (from_secs 30) 5

pub record AssetRepairPolicy : Type 0 where
  pub max_pending : ℕ
  pub public_max_pending : ℕ
  pub requeue_after : ℕ
  pub max_attempts : ℕ

pub data AssetRepairPolicyError : Type 0 where
  zero_repair_limit : (field : Text) → AssetRepairPolicyError
  public_limit_exceeds_global zero_requeue : AssetRepairPolicyError

unfoldable pub new_repair_policy :
    (max_pending public_max_pending requeue_after max_attempts : ℕ)
    → Result AssetRepairPolicyError AssetRepairPolicy
new_repair_policy pending public_pending requeue attempts =
    if pending == 0
    then err (zero_repair_limit (codes "max_pending"))
    else if ltb pending public_pending
    then err public_limit_exceeds_global
    else if requeue == 0
    then err zero_requeue
    else if attempts == 0
    then err (zero_repair_limit (codes "max_attempts"))
    else ok (record {
      max_pending = pending;
      public_max_pending = public_pending;
      requeue_after = requeue;
      max_attempts = attempts;
    })

abbrev pub default_repair_policy : Result AssetRepairPolicyError AssetRepairPolicy
default_repair_policy = new_repair_policy 100 50 (from_secs 60) 3

pub record AssetRefreshPolicy : Type 0 where
  pub max_attempts : ℕ
  pub cooldown : ℕ

pub data AssetRefreshPolicyError : Type 0 where
  attempt_limit_out_of_range cooldown_out_of_range : AssetRefreshPolicyError

unfoldable pub new_refresh_policy :
    (max_attempts cooldown : ℕ) → Result AssetRefreshPolicyError AssetRefreshPolicy
new_refresh_policy attempts cooldown =
    if not (leb 1 attempts && leb attempts 10)
    then err attempt_limit_out_of_range
    else if not (leb (from_secs 60) cooldown && leb cooldown (from_secs 86400))
    then err cooldown_out_of_range
    else ok (record { max_attempts = attempts; cooldown = cooldown })

abbrev pub default_refresh_policy : Result AssetRefreshPolicyError AssetRefreshPolicy
default_refresh_policy = new_refresh_policy 3 (from_secs 3600)

abbrev is_ascii_alphabetic : ℕ → Bool
is_ascii_alphabetic c = (leb 65 c && leb c 90) || (leb 97 c && leb c 122)

-- A `/` or `\` first, and a drive letter before a `:`.
abbrev pub starts_with : ℕ → Text → Bool
starts_with d [] = false
starts_with d (c ∷ s) = c == d

abbrev has_drive : Text → Bool
has_drive [] = false
has_drive (c ∷ s) = is_ascii_alphabetic c && starts_with 58 s

abbrev pub contains : ℕ → Text → Bool
contains d s = any (λ c. c == d) s

pub data AssetBlobKeyError : Type 0 where
  empty absolute_or_invalid traversal backslash : AssetBlobKeyError

abbrev pub is_invalid_component : Text → Bool
is_invalid_component s = is_empty s || text_eq s (codes ".") || text_eq s (codes "..")

-- The key's text.
unfoldable pub new_blob_key : Text → Result AssetBlobKeyError Text
new_blob_key value =
    if is_blank value
    then err empty
    else if starts_with 47 value || starts_with 92 value || contains 0 value || has_drive value
    then err absolute_or_invalid
    else if any is_invalid_component (split 47 value)
    then err traversal
    else if contains 92 value
    then err backslash
    else ok value

-- The key of a blob with the given UUID, in its hyphenated form.
abbrev pub for_blob_id : Text → Text
for_blob_id blob_id = codes "blobs/" ++ blob_id

pub record AssetBlob : Type 0 where
  pub bytes : List ℕ
  pub media_type : Text
  pub checksum : Text

pub data AssetBlobStoreError : Type 0 where
  invalid_metadata checksum_mismatch conflict size_overflow : AssetBlobStoreError
  backend : Text → AssetBlobStoreError

unfoldable pub new_blob :
    (digest : List ℕ → Text) (bytes : List ℕ) (media_type checksum : Text)
    → Result AssetBlobStoreError AssetBlob
new_blob digest bytes media_type checksum =
    if is_blank media_type
    then err invalid_metadata
    else if not (text_eq checksum (digest bytes))
    then err checksum_mismatch
    else ok (record { bytes = bytes; media_type = media_type; checksum = checksum })

pub record AssetBlobMetadata : Type 0 where
  pub checksum : Text
  pub media_type : Text
  pub byte_size : ℕ
  pub present : Bool
  pub stored_byte_size : Option ℕ

abbrev pub is_hex_digit : ℕ → Bool
is_hex_digit c = (leb 48 c && leb c 57) || (leb 65 c && leb c 70) || (leb 97 c && leb c 102)

unfoldable pub new_blob_metadata :
    (checksum media_type : Text) (byte_size : ℕ) (present : Bool)
    → Result AssetBlobStoreError AssetBlobMetadata
new_blob_metadata checksum media_type byte_size present =
    if is_blank media_type
      || not (utf8_len checksum == 64)
      || any (λ c. not (is_hex_digit c)) checksum
    then err invalid_metadata
    else ok (record {
      checksum = checksum;
      media_type = media_type;
      byte_size = byte_size;
      present = present;
      stored_byte_size = if present then some byte_size else none;
    })

unfoldable pub with_stored_byte_size : AssetBlobMetadata → ℕ → AssetBlobMetadata
with_stored_byte_size metadata stored = record metadata {
  present = stored == metadata.byte_size;
  stored_byte_size = some stored;
}
