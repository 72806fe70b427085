-- ===== src/Application/AssetArchive/Expiry/Evidence.antt =====
-- When the body of a response confirms that a URL has expired,
-- src/application/asset_archive_service.rs.
use werrss.Common.{
  ℕ, suc, zero, ◌+◌, ◌-◌, ◌≤◌, ◌<◌, ◌≡◌, refl, ◌⊎◌, inl, inr, Bool, true, false, some, none, List,
  [], ◌∷◌, ◌++◌, length, length-append, take, Text, text_eq_iff, ltb, Bool-cases, Option-cases,
  Result, ok, err, arith, ap, sym, ◌∙◌,
}
use werrss.Domain.UrlPolicy.{Url, any}
use werrss.Application.AssetArchive.{validate_asset_url}
use werrss.Application.AssetArchive.Fetching.{Chunk, arrives, ends, breaks, hangs, exceeds}
use werrss.Application.AssetArchive.Expiry.{
  FailureKind, unsafe_destination, body_read, budget, RepairResponse, EvidenceCrates,
  ProviderExpiryRule, max_expiry_evidence_bytes, is_matching, classify_expiry_evidence,
  read_expiry_evidence, response_has_expiry_evidence,
}

-- The bytes that arrive before a body ends.
abbrev pub body_of : List Chunk → List ℕ
body_of (arrives before after bytes ∷ chunks) = bytes ++ body_of chunks
body_of _ = []

-- One of the rules has this host, status and code.
abbrev pub SomeRule : (host : Text) (status : ℕ) (code : Text) → List ProviderExpiryRule → Type 0
SomeRule host status code [] = ⊥
SomeRule host status code (rule ∷ rules) =
    ((host ≡ rule.host) × (status ≡ rule.status) × (code ≡ rule.code))
    ⊎ SomeRule host status code rules

-- The evidence is short, and a rule has its URL's host, the status and its code.
abbrev pub Confirms :
    EvidenceCrates → Url → (status : ℕ) (evidence : List ℕ) → List ProviderExpiryRule → Type 0
Confirms crates final_url status evidence rules =
    (length evidence ≤ 4096)
    × ((host : Text) × (code : Text) × (crates.host_str final_url ≡ some host)
        × (crates.json_code evidence ≡ some code)
        × SomeRule host status code rules)

any-SomeRule :
    (host : Text) (status : ℕ) (code : Text) (rules : List ProviderExpiryRule)
    → any (is_matching host status code) rules ≡ true
    → SomeRule host status code rules
unfolding any
any-SomeRule host status code [] h = ground arith
any-SomeRule host status code (rule ∷ rules) h =
    elim (Bool-cases (is_matching host status code rule)) [
      | inl hit ↦ inl (
        ground (arith, hit, text_eq_iff host rule.host),
        ground (arith, hit),
        ground (arith, hit, text_eq_iff code rule.code),
      )
      | inr miss ↦ inr (any-SomeRule host status code rules (ground (arith, h, miss)))
    ]

classify-Confirms :
    (crates : EvidenceCrates) (final_url : Url) (status : ℕ) (evidence : List ℕ)
    (rules : List ProviderExpiryRule)
    → classify_expiry_evidence crates final_url status evidence rules ≡ true
    → Confirms crates final_url status evidence rules
unfolding classify_expiry_evidence
classify-Confirms crates final_url status evidence rules h =
    elim (Option-cases (crates.host_str final_url)) [
      | inl nameless ↦ absurd (ground (arith, h, nameless))
      | inr (host, named) ↦ elim (Option-cases (crates.json_code evidence)) [
        | inl codeless ↦ absurd (ground (arith, h, named, codeless))
        | inr (code, coded) ↦ (
          ground (arith, h),
          (
            host,
            code,
            named,
            coded,
            any-SomeRule host status code rules (ground (arith, h, named, coded)),
          ),
        )
      ]
    ]

take-whole : (n : ℕ) (xs : List ℕ) → length (take n xs) < n → take n xs ≡ xs
take-whole zero xs h = absurd (omega (arith, h))
take-whole (suc n) [] h = refl
take-whole (suc n) (x ∷ xs) h = ap (λ ys. x ∷ ys) (take-whole n xs (omega (arith, h)))

append_assoc : (xs ys zs : List ℕ) → (xs ++ ys) ++ zs ≡ xs ++ (ys ++ zs)
append_assoc [] ys zs = refl
append_assoc (x ∷ xs) ys zs = ap (λ ws. x ∷ ws) (append_assoc xs ys zs)

append_none : (xs : List ℕ) → xs ++ [] ≡ xs
append_none [] = refl
append_none (x ∷ xs) = ap (λ ws. x ∷ ws) (append_none xs)

-- What the loop answers: the question was asked of all that it had and what came, it was not, or
-- the reading failed.
abbrev Read : (List ℕ → Bool) → (evidence body : List ℕ) → Result FailureKind Bool → Type 0
Read classify evidence body (ok true) = classify (evidence ++ body) ≡ true
Read classify evidence body (ok false) = Unit {0}
Read classify evidence body (err kind) = (kind ≡ budget) ⊎ (kind ≡ body_read)

Read-classified :
    (classify : List ℕ → Bool) (evidence : List ℕ) (b : Bool)
    → classify (evidence ++ []) ≡ b
    → Read classify evidence [] (ok b)
Read-classified classify evidence true h = h
Read-classified classify evidence false h = tt

read_expiry_evidence-Read :
    (max_time : ℕ) (classify : List ℕ → Bool) (chunks : List Chunk) (evidence : List ℕ)
    → Read classify evidence
        (body_of chunks)
        (read_expiry_evidence max_time classify chunks evidence)
unfolding read_expiry_evidence
read_expiry_evidence-Read max_time classify [] evidence = inl refl
read_expiry_evidence-Read max_time classify (hangs before ∷ chunks) evidence = inl refl
read_expiry_evidence-Read max_time classify (breaks before ∷ chunks) evidence =
    elim (Bool-cases (ltb max_time before)) [
      | inl late ↦ rw late (inl refl)
      | inr early ↦ rw early (inr refl)
    ]
read_expiry_evidence-Read max_time classify (ends before after ∷ chunks) evidence =
    elim (Bool-cases (ltb max_time before)) [
      | inl late ↦ rw late (inl refl)
      | inr early ↦ rw early (
          Read-classified classify evidence (classify evidence)
            (ap classify (append_none evidence)))
    ]
read_expiry_evidence-Read max_time classify (arrives before after chunk ∷ chunks) evidence =
    let room = max_expiry_evidence_bytes + 1 - length evidence in
    let next = evidence ++ take room chunk in
    elim (Bool-cases (ltb max_time before)) [
      | inl late ↦ rw late (inl refl)
      | inr early ↦ elim (Bool-cases (ltb max_expiry_evidence_bytes (length next))) [
        | inl over ↦ rw (early, over) tt
        | inr fits ↦
            let joined = length-append evidence (take room chunk) in
            let whole = take-whole room chunk (ground arith) in
            let same : next ++ body_of chunks ≡ evidence ++ (chunk ++ body_of chunks) =
              ap (λ c. (evidence ++ c) ++ body_of chunks) whole
              ∙ append_assoc evidence chunk (body_of chunks) in
            rw (early, fits)
              (Read-same classify next evidence (body_of chunks) (chunk ++ body_of chunks) _ same
                (read_expiry_evidence-Read max_time classify chunks next))
      ]
    ]
  where
    Read-same :
        (classify : List ℕ → Bool) (evidence other body rest : List ℕ) (r : Result FailureKind Bool)
        → evidence ++ body ≡ other ++ rest
        → Read classify evidence body r
        → Read classify other rest r
    Read-same classify evidence other body rest (ok true) e h = ap classify (sym e) ∙ h
    Read-same classify evidence other body rest (ok false) e h = tt
    Read-same classify evidence other body rest (err kind) e h = h

-- What a failed response is read as.
abbrev pub SaysExpiry :
    EvidenceCrates → List ProviderExpiryRule → RepairResponse → Result FailureKind Bool → Type 0
SaysExpiry crates rules response (ok true) =
    (final_url : Url) × (validate_asset_url response.url ≡ some final_url)
    × Confirms crates final_url response.status (body_of response.chunks) rules
SaysExpiry crates rules response (ok false) = Unit {0}
SaysExpiry crates rules response (err kind) =
    (kind ≡ budget)
    ⊎ ((kind ≡ body_read)
        ⊎ ((kind ≡ unsafe_destination) × (validate_asset_url response.url ≡ none)))

pub response_has_expiry_evidence-SaysExpiry :
    (crates : EvidenceCrates) (max_time : ℕ) (rules : List ProviderExpiryRule)
    (response : RepairResponse)
    → SaysExpiry crates rules response (response_has_expiry_evidence crates max_time rules response)
unfolding response_has_expiry_evidence
response_has_expiry_evidence-SaysExpiry crates max_time rules response =
    elim (Option-cases (validate_asset_url response.url)) [
      | inl bad ↦ rw (bad, response_has_expiry_evidence) (inr (inr (refl, bad)))
      | inr (final, valid) ↦
          elim (Bool-cases (exceeds response.content_length max_expiry_evidence_bytes)) [
            | inl large ↦ rw (valid, large, response_has_expiry_evidence) tt
            | inr small ↦
                let classify = λ (evidence : List ℕ).
                  classify_expiry_evidence crates final response.status evidence rules in
                rw (valid, small, response_has_expiry_evidence)
                  (said final valid _
                    (read_expiry_evidence-Read max_time classify response.chunks []))
          ]
    ]
  where
    said :
        (final : Url)
        → validate_asset_url response.url ≡ some final
        → (r : Result FailureKind Bool)
        → Read
            (λ evidence. classify_expiry_evidence crates final response.status evidence rules)
            []
            (body_of response.chunks)
            r
        → SaysExpiry crates rules response r
    said final valid (ok true) h = (
      final,
      valid,
      classify-Confirms crates final response.status (body_of response.chunks) rules h,
    )
    said final valid (ok false) h = tt
    said final valid (err kind) (inl h) = inl h
    said final valid (err kind) (inr h) = inr (inl h)
