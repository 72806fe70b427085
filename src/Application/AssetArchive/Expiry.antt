-- ===== src/Application/AssetArchive/Expiry.antt =====
-- The evidence of an expired URL in a failed response to a repair,
-- src/application/asset_archive_service.rs.
pub mod Evidence
use werrss.Common.{
  ℕ, ◌+◌, ◌-◌, Bool, true, false, ◌&&◌, Option, none, some, List, [], ◌∷◌, ◌++◌, length, take, Text,
  text_eq, ltb, ◌==◌, if◌then◌else◌, Result, ok, err,
}
use werrss.Domain.UrlPolicy.{Url, any}
use werrss.Application.AssetArchive.{validate_asset_url}
use werrss.Application.AssetArchive.Fetching.{Chunk, arrives, ends, breaks, hangs, exceeds}

pub data FailureKind : Type 0 where
  confirmed_signed_url_expiry http transport redirect unsafe_destination : FailureKind
  media_validation body_read budget : FailureKind

-- A response, its `Location` joined to its URL where the header is there and the join succeeds.
pub record RepairResponse : Type 0 where
  pub url : Url
  pub status : ℕ
  pub is_success : Bool
  pub is_redirection : Bool
  pub location : Option (Option Url)
  pub content_type : Option Text
  pub content_length : Option ℕ
  pub chunks : List Chunk

-- What the url and serde_json crates tell of a response's URL and body, which is not part of the
-- repository: `host_str`, and the text of the field `code` of a JSON value.
pub record EvidenceCrates : Type 0 where
  pub host_str : Url → Option Text
  pub json_code : List ℕ → Option Text

pub record ProviderExpiryRule : Type 0 where
  pub host : Text
  pub status : ℕ
  pub code : Text

abbrev pub production_expiry_rules : List ProviderExpiryRule
production_expiry_rules = []

abbrev pub max_expiry_evidence_bytes : ℕ
max_expiry_evidence_bytes = 4096

abbrev pub is_matching : (host : Text) (status : ℕ) (code : Text) → ProviderExpiryRule → Bool
is_matching host status code rule =
    text_eq host rule.host && (status == rule.status && text_eq code rule.code)

unfoldable pub classify_expiry_evidence :
    EvidenceCrates → Url → (status : ℕ) (evidence : List ℕ) → List ProviderExpiryRule → Bool
classify_expiry_evidence crates final_url status evidence rules =
    if ltb max_expiry_evidence_bytes (length evidence)
    then false
    else elim (crates.host_str final_url) [
      | none ↦ false
      | some host ↦ elim (crates.json_code evidence) [
        | none ↦ false
        | some code ↦ any (is_matching host status code) rules
      ]
    ]

-- The loop that reads the evidence, up to one byte over the limit, and what is asked of it then.
unfoldable pub read_expiry_evidence :
    ℕ → (List ℕ → Bool) → List Chunk → (evidence : List ℕ) → Result FailureKind Bool
read_expiry_evidence max_time classify [] evidence = err budget
read_expiry_evidence max_time classify (hangs before ∷ chunks) evidence = err budget
read_expiry_evidence max_time classify (breaks before ∷ chunks) evidence =
    if ltb max_time before then err budget else err body_read
read_expiry_evidence max_time classify (ends before after ∷ chunks) evidence =
    if ltb max_time before then err budget else ok (classify evidence)
read_expiry_evidence max_time classify (arrives before after chunk ∷ chunks) evidence =
    let next = evidence ++ take (max_expiry_evidence_bytes + 1 - length evidence) chunk in
    let rest = read_expiry_evidence max_time classify chunks next in
    if ltb max_time before
    then err budget
    else if ltb max_expiry_evidence_bytes (length next)
    then ok false
    else rest

unfoldable pub response_has_expiry_evidence :
    EvidenceCrates → ℕ → List ProviderExpiryRule → RepairResponse → Result FailureKind Bool
response_has_expiry_evidence crates max_time rules response =
    elim (validate_asset_url response.url) [
      | none ↦ err unsafe_destination
      | some final_url ↦
          if exceeds response.content_length max_expiry_evidence_bytes
          then ok false
          else read_expiry_evidence max_time
              (λ evidence. classify_expiry_evidence crates final_url response.status evidence rules)
              response.chunks []
    ]

abbrev pub expiry_kind : Result FailureKind Bool → FailureKind
expiry_kind (ok true) = confirmed_signed_url_expiry
expiry_kind (ok false) = http
expiry_kind (err kind) = kind

abbrev pub no_rules : List ProviderExpiryRule → Bool
no_rules [] = true
no_rules (rule ∷ rules) = false
