-- ===== src/Application/AssetArchive/Outcomes.antt =====
-- What a repair's fetch of an asset ends with, src/application/asset_archive_service.rs.
pub mod Causes
use werrss.Common.{
  ℕ, ◌-◌, ◌≤◌, ◌<◌, ◌≡◌, refl, ◌≢◌, ◌⊎◌, inl, inr, Bool, true, false, ◌||◌, Option, none, some,
  List, [], ◌∷◌, ◌++◌, length, length-append, Text, ltb, ◌==◌, Bool-cases, Option-cases, Result, ok,
  err, arith, subst, sym,
}
use werrss.Domain.UrlPolicy.{Url, has_provider_signature}
use werrss.Archive.AssetStore.{AssetCachePolicy}
use werrss.Application.AssetArchive.{validate_asset_url, is_safe_asset_url}
use werrss.Application.AssetArchive.Destinations.{validate_asset_url-same}
use werrss.Application.AssetArchive.Fetching.{
  Context, AssetInput, Chunk, arrives, ends, breaks, hangs, response_media_type, signature_matches,
  min, exceeds,
}
use werrss.Application.AssetArchive.Budgets.{IsFetchable, IsFetched}
use werrss.Application.AssetArchive.Expiry.{
  FailureKind, confirmed_signed_url_expiry, http, transport, redirect, unsafe_destination,
  media_validation, body_read, budget, RepairResponse, EvidenceCrates, ProviderExpiryRule, no_rules,
  expiry_kind, response_has_expiry_evidence,
}
use werrss.Application.AssetArchive.Expiry.Evidence.{
  body_of, Confirms, SaysExpiry, response_has_expiry_evidence-SaysExpiry,
}
use werrss.Application.AssetArchive.Repair.{
  Failure, Outcome, RepairSent, fetched, failed, responds, timeout_error, transport_error,
  redirect_error, timed_out, is_unsafe_known, redirect_failure_kind, read_repair_body, repaired,
  repair_success, repair_failure, repair_answer, fetch_asset_for_repair,
}

-- A failure before the client is asked: the URL, or the policy of the article.
abbrev pub Refused : AssetCachePolicy → Url → (elapsed : ℕ) → FailureKind → Type 0
Refused policy url elapsed kind =
    ((kind ≡ unsafe_destination) × (validate_asset_url url ≡ none))
    ⊎ ((kind ≡ budget)
        × ((policy.max_count_per_article ≡ 0) ⊎ (policy.max_fetch_time_per_article < elapsed)))

-- A `Location` that is absent or a URL that validation accepts, and any other.
abbrev pub IsSafe : Option (Option Url) → Type 0
IsSafe none = Unit
IsSafe (some none) = ⊥
IsSafe (some (some url)) = validate_asset_url url ≢ none

abbrev pub IsUnsafe : Option (Option Url) → Type 0
IsUnsafe none = ⊥
IsUnsafe (some none) = Unit
IsUnsafe (some (some url)) = validate_asset_url url ≡ none

module _ (crates : EvidenceCrates) (rules : List ProviderExpiryRule) where
  -- What a failure with a response says of it, by its kind.
  abbrev pub FailsWith : (source : Url) → RepairResponse → FailureKind → Type 0
  FailsWith source response confirmed_signed_url_expiry =
      (response.is_success ≡ false)
      × (response.is_redirection ≡ false)
      × ((final_url : Url) × (validate_asset_url response.url ≡ some final_url)
          × Confirms crates final_url response.status (body_of response.chunks) rules)
  FailsWith source response http =
      (response.is_success ≡ false)
      × (response.is_redirection ≡ false)
      × (validate_asset_url response.url ≢ none)
  FailsWith source response transport = ⊥
  FailsWith source response redirect =
      (response.is_success ≡ false) × (response.is_redirection ≡ true) × IsSafe response.location
  FailsWith source response unsafe_destination =
      ((response.is_success ≡ false)
        × (response.is_redirection ≡ true)
        × IsUnsafe response.location)
      ⊎ ((validate_asset_url response.url ≡ none)
          ⊎ ((response.is_success ≡ true)
              × ((final_url : Url) × (validate_asset_url response.url ≡ some final_url)
                  × (has_provider_signature source || has_provider_signature final_url ≡ true))))
  FailsWith source response media_validation =
      (response.is_success ≡ true) × (validate_asset_url response.url ≢ none)
  FailsWith source response body_read =
      (response.is_success ≡ true) ⊎ ((response.is_redirection ≡ false) × (no_rules rules ≡ false))
  FailsWith source response budget =
      (response.is_success ≡ true) ⊎ ((response.is_redirection ≡ false) × (no_rules rules ≡ false))

  -- What an outcome says of the client's answer.
  abbrev pub Answered : (source : Url) → RepairSent → Failure → Type 0
  Answered source timeout_error f = (f.status ≡ none) × (f.kind ≡ budget)
  Answered source timed_out f = (f.status ≡ none) × (f.kind ≡ budget)
  Answered source transport_error f = (f.status ≡ none) × (f.kind ≡ transport)
  Answered source (redirect_error url) f =
      (f.status ≡ none)
      × (((f.kind ≡ redirect) × (is_unsafe_known url ≡ false))
          ⊎ ((f.kind ≡ unsafe_destination) × (is_unsafe_known url ≡ true)))
  Answered source (responds response) f =
      (f.status ≡ some response.status) × FailsWith source response f.kind

  abbrev pub Succeeds : RepairSent → Type 0
  Succeeds (responds response) = response.is_success ≡ true
  Succeeds _ = ⊥

  abbrev pub Ends : AssetCachePolicy → Url → RepairSent → Outcome → Type 0
  Ends policy source sent (fetched input) =
      IsFetched policy input
      × (length input.bytes ≤ policy.max_fetch_bytes_per_article)
      × Succeeds sent
  Ends policy source sent (failed f) = Answered source sent f

  -- What an outcome says: an asset that passed every check and keeps to the article's budget, or a
  -- failure with its cause.
  abbrev pub Says : AssetCachePolicy → Url → (elapsed : ℕ) → RepairSent → Outcome → Type 0
  Says policy url elapsed sent (fetched input) =
      IsFetched policy input
      × (length input.bytes ≤ policy.max_fetch_bytes_per_article)
      × Succeeds sent
  Says policy url elapsed sent (failed f) =
      ((f.status ≡ none) × Refused policy url elapsed f.kind) ⊎ Answered url sent f

-- What `read_repair_body` returns.
abbrev ReadBody : ℕ → Result FailureKind (List ℕ) → Type 0
ReadBody limit (ok bytes) = (0 < length bytes) × (length bytes ≤ limit)
ReadBody limit (err kind) = (kind ≡ budget) ⊎ (kind ≡ body_read)

read_repair_body-ReadBody :
    (max_time limit : ℕ) (chunks : List Chunk) (bytes : List ℕ)
    → length bytes ≤ limit
    → ReadBody limit (read_repair_body max_time limit chunks bytes)
unfolding read_repair_body
read_repair_body-ReadBody max_time limit [] bytes h = inl refl
read_repair_body-ReadBody max_time limit (hangs before ∷ chunks) bytes h = inl refl
read_repair_body-ReadBody max_time limit (breaks before ∷ chunks) bytes h =
    elim (Bool-cases (ltb max_time before)) [
      | inl late ↦ rw late (inl refl)
      | inr early ↦ rw early (inr refl)
    ]
read_repair_body-ReadBody max_time limit (ends before after ∷ chunks) bytes h =
    elim (Bool-cases (ltb max_time before)) [
      | inl late ↦ rw late (inl refl)
      | inr early ↦ elim (Bool-cases (length bytes == 0)) [
        | inl empty ↦ rw (early, empty) (inr refl)
        | inr given ↦ rw (early, given) (ground arith, h)
      ]
    ]
read_repair_body-ReadBody max_time limit (arrives before after chunk ∷ chunks) bytes h =
    elim (Bool-cases (ltb max_time before)) [
      | inl late ↦ rw late (inl refl)
      | inr early ↦ elim (Bool-cases (ltb (limit - length bytes) (length chunk))) [
        | inl over ↦ rw (early, over) (inl refl)
        | inr fits ↦
            rw (early, fits)
              (read_repair_body-ReadBody max_time limit chunks (bytes ++ chunk)
                (let joined = length-append bytes chunk in ground arith))
      ]
    ]

valid-IsFetchable :
    (url u : Url)
    → validate_asset_url url ≡ some u
    → has_provider_signature u ≡ false
    → IsFetchable u
valid-IsFetchable url u v plain =
    let (safe, same) = validate_asset_url-same url u v in
    record { safe = subst (λ x. is_safe_asset_url x ≡ true) (sym same) safe; unsigned = plain }

pub valid-some : (url u : Url) → validate_asset_url url ≡ some u → validate_asset_url url ≢ none
valid-some url u v = λ e. ground (arith, v, e)

pub redirect_failure_kind_cases :
    (location : Option (Option Url))
    → ((redirect_failure_kind location ≡ redirect) × IsSafe location)
      ⊎ ((redirect_failure_kind location ≡ unsafe_destination) × IsUnsafe location)
unfolding redirect_failure_kind
redirect_failure_kind_cases none = inl (refl, tt)
redirect_failure_kind_cases (some none) = inr (refl, tt)
redirect_failure_kind_cases (some (some url)) = elim (Option-cases (validate_asset_url url)) [
  | inl bad ↦ inr (rw (bad, redirect_failure_kind) refl, bad)
  | inr (u, good) ↦ inl (rw (good, redirect_failure_kind) refl, valid-some url u good)
]

module _ (crates : EvidenceCrates) (rules : List ProviderExpiryRule) where
  repaired-Ends :
      (policy : AssetCachePolicy) (context : Context) (source final : Url) (media_type : Text)
      (response : RepairResponse) (body : Result FailureKind (List ℕ))
      → response.is_success ≡ true
      → validate_asset_url response.url ≢ none
      → IsFetchable source
      → IsFetchable final
      → ReadBody (min policy.max_asset_size_bytes policy.max_fetch_bytes_per_article) body
      → Ends crates rules policy source
          (responds response)
          (repaired context source final media_type response.status body)
  unfolding repaired
  repaired-Ends policy context source final media_type response (err kind) fine valid s f (inl e) =
      (refl, subst (FailsWith crates rules source response) (sym e) (inl fine))
  repaired-Ends policy context source final media_type response (err kind) fine valid s f (inr e) =
      (refl, subst (FailsWith crates rules source response) (sym e) (inl fine))
  repaired-Ends policy context source final media_type response (ok bytes) fine valid s f r =
      elim (Bool-cases (signature_matches media_type bytes)) [
        | inr other ↦ rw (other, repaired) (refl, (fine, valid))
        | inl matching ↦
            let (given, small) = r in
            rw (matching, repaired)
              (
                record {
                  source = s;
                  final = f;
                  signature = matching;
                  given = given;
                  small = ground arith;
                },
                ground arith,
                fine,
              )
      ]

  pub repair_success-Ends :
      (policy : AssetCachePolicy) (context : Context) (url source : Url) (response : RepairResponse)
      → validate_asset_url url ≡ some source
      → response.is_success ≡ true
      → Ends crates rules policy source
          (responds response)
          (repair_success policy context source response)
  unfolding repair_success
  repair_success-Ends policy context url source response v fine =
      let limit = min policy.max_asset_size_bytes policy.max_fetch_bytes_per_article in
      let max_time = min policy.fetch_timeout policy.max_fetch_time_per_article in
      elim (Option-cases (validate_asset_url response.url)) [
        | inl unsafe ↦ rw (unsafe, repair_success) (refl, inr (inl unsafe))
        | inr (final, valid) ↦
            let given = valid-some response.url final valid in
            elim (Bool-cases (has_provider_signature source || has_provider_signature final)) [
              | inl signed ↦
                  rw (valid, signed, repair_success)
                    (refl, inr (inr (fine, (final, valid, signed))))
              | inr plain ↦ elim (Option-cases (response_media_type response.content_type)) [
                | inl other ↦ rw (valid, plain, other, repair_success) (refl, (fine, given))
                | inr (media_type, image) ↦
                    elim (Bool-cases (limit == 0 || exceeds response.content_length limit)) [
                      | inl large ↦ rw (valid, plain, image, large, repair_success) (refl, inl fine)
                      | inr fits ↦
                          rw (valid, plain, image, fits, repair_success)
                            (repaired-Ends policy context source final media_type response
                              (read_repair_body max_time limit response.chunks []) fine given
                              (valid-IsFetchable url source v (ground arith))
                              (valid-IsFetchable response.url final valid (ground arith))
                              (read_repair_body-ReadBody max_time limit response.chunks []
                                (omega arith)))
                    ]
              ]
            ]
      ]
