-- ===== src/Application/AssetArchive/Repair.antt =====
-- Fetching one asset for a repair job, src/application/asset_archive_service.rs. The rules for
-- expiry evidence are an argument: `production_expiry_rules`, to which tests add theirs.
use werrss.Common.{
  ℕ, ◌-◌, Bool, false, not, ◌||◌, Option, none, some, List, [], ◌∷◌, ◌++◌, length, Text, ltb, ◌==◌,
  if◌then◌else◌, Result, ok, err,
}
use werrss.Domain.UrlPolicy.{Url, has_provider_signature}
use werrss.Archive.AssetStore.{AssetCachePolicy}
use werrss.Application.AssetArchive.{validate_asset_url, is_safe_asset_url}
use werrss.Application.AssetArchive.Expiry.{
  FailureKind, http, transport, redirect, unsafe_destination, media_validation, body_read, budget,
  RepairResponse, EvidenceCrates, ProviderExpiryRule, response_has_expiry_evidence, expiry_kind,
  no_rules,
}
use werrss.Application.AssetArchive.Fetching.{
  Context, AssetInput, Chunk, arrives, ends, breaks, hangs, response_media_type, signature_matches,
  min, exceeds, or_else,
}

pub record Failure : Type 0 where
  pub kind : FailureKind
  pub status : Option ℕ

pub data Outcome : Type 0 where
  fetched : AssetInput → Outcome
  failed : Failure → Outcome

-- The errors of `send` by the tests on them, and the timeout around it.
pub data RepairSent : Type 0 where
  responds : RepairResponse → RepairSent
  timeout_error transport_error : RepairSent
  redirect_error : Option Url → RepairSent
  timed_out : RepairSent

abbrev pub is_unsafe_known : Option Url → Bool
is_unsafe_known none = false
is_unsafe_known (some url) = not (is_safe_asset_url url)

unfoldable pub redirect_failure_kind : Option (Option Url) → FailureKind
redirect_failure_kind none = redirect
redirect_failure_kind (some none) = unsafe_destination
redirect_failure_kind (some (some destination)) = elim (validate_asset_url destination) [
  | none ↦ unsafe_destination
  | some valid ↦ redirect
]

-- `read_repair_body`; a client's timeout is `hangs`.
unfoldable pub read_repair_body : ℕ → ℕ → List Chunk → List ℕ → Result FailureKind (List ℕ)
read_repair_body max_time limit [] bytes = err budget
read_repair_body max_time limit (hangs before ∷ chunks) bytes = err budget
read_repair_body max_time limit (breaks before ∷ chunks) bytes =
    if ltb max_time before then err budget else err body_read
read_repair_body max_time limit (ends before after ∷ chunks) bytes =
    if ltb max_time before
    then err budget
    else if length bytes == 0
    then err body_read
    else ok bytes
read_repair_body max_time limit (arrives before after chunk ∷ chunks) bytes =
    let rest = read_repair_body max_time limit chunks (bytes ++ chunk) in
    if ltb max_time before
    then err budget
    else if ltb (limit - length bytes) (length chunk)
    then err budget
    else rest

abbrev fail : FailureKind → Option ℕ → Outcome
fail kind status = failed (record { kind = kind; status = status })

-- The end of a repair: the signature of what was read.
unfoldable pub repaired : Context → Url → Url → Text → ℕ → Result FailureKind (List ℕ) → Outcome
repaired context source_url final_url media_type status (err kind) = fail kind (some status)
repaired context source_url final_url media_type status (ok bytes) =
    if not (signature_matches media_type bytes)
    then fail media_validation (some status)
    else fetched (record {
      source_url = source_url;
      final_url = final_url;
      media_type = media_type;
      bytes = bytes;
      occurrence = 0;
      referer_url = context.referer_url;
      origin = context.origin;
      user_agent = context.user_agent;
    })

-- A response with a status of success.
unfoldable pub repair_success : AssetCachePolicy → Context → Url → RepairResponse → Outcome
repair_success policy context source_url response = elim (validate_asset_url response.url) [
  | none ↦ fail unsafe_destination (some response.status)
  | some final_url ↦
      if has_provider_signature source_url || has_provider_signature final_url
      then fail unsafe_destination (some response.status)
      else elim (response_media_type response.content_type) [
        | none ↦ fail media_validation (some response.status)
        | some media_type ↦
            let limit = min policy.max_asset_size_bytes policy.max_fetch_bytes_per_article in
            if limit == 0 || exceeds response.content_length limit
            then fail budget (some response.status)
            else repaired context source_url final_url media_type response.status (
                read_repair_body (min policy.fetch_timeout policy.max_fetch_time_per_article) limit
                  response.chunks [])
      ]
]

-- A response without a status of success.
unfoldable pub repair_failure :
    EvidenceCrates → List ProviderExpiryRule → AssetCachePolicy → RepairResponse → Outcome
repair_failure crates rules policy response =
    if response.is_redirection
    then fail (redirect_failure_kind response.location) (some response.status)
    else elim (validate_asset_url response.url) [
      | none ↦ fail unsafe_destination (some response.status)
      | some url ↦
          fail
            (if no_rules rules
              then http
              else expiry_kind (
                  response_has_expiry_evidence crates
                    (min policy.fetch_timeout policy.max_fetch_time_per_article) rules response))
            (some response.status)
    ]

unfoldable pub repair_answer :
    EvidenceCrates
    → List ProviderExpiryRule
    → AssetCachePolicy
    → Context
    → Url
    → RepairSent
    → Outcome
repair_answer crates rules policy context source_url timeout_error = fail budget none
repair_answer crates rules policy context source_url timed_out = fail budget none
repair_answer crates rules policy context source_url transport_error = fail transport none
repair_answer crates rules policy context source_url (redirect_error url) =
    fail (if is_unsafe_known url then unsafe_destination else redirect) none
repair_answer crates rules policy context source_url (responds response) =
    if response.is_success
    then repair_success policy context source_url response
    else repair_failure crates rules policy response

-- `elapsed` is the time since the start when the budget is first asked for.
unfoldable pub fetch_asset_for_repair :
    EvidenceCrates
    → List ProviderExpiryRule
    → AssetCachePolicy
    → Context
    → Url
    → Option Text
    → Option Text
    → ℕ
    → RepairSent
    → Outcome
fetch_asset_for_repair crates rules policy context source_url origin user_agent elapsed sent =
    elim (validate_asset_url source_url) [
      | none ↦ fail unsafe_destination none
      | some source_url ↦
          if policy.max_count_per_article == 0
          then fail budget none
          else if ltb policy.max_fetch_time_per_article elapsed
          then fail budget none
          else repair_answer crates rules policy
              (record context {
                origin = or_else origin context.origin;
                user_agent = or_else user_agent context.user_agent;
              })
              source_url sent
    ]
