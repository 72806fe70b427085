-- ===== src/Application/AssetArchive/Budgets.antt =====
-- What a fetch of an article's assets brings in, src/application/asset_archive_service.rs.
use werrss.Common.{
  ℕ, ◌+◌, ◌-◌, ◌≤◌, ◌<◌, ◌≡◌, refl, inl, inr, true, false, Option, none, some, List, [], ◌∷◌,
  length, All, Text, ltb, leb, ◌==◌, Bool-cases, Option-cases, arith, subst, sym,
}
use werrss.Domain.UrlPolicy.{Url, has_provider_signature}
use werrss.Archive.AssetStore.{AssetCachePolicy}
use werrss.Application.AssetArchive.{is_safe_asset_url, validate_asset_url}
use werrss.Application.AssetArchive.Destinations.{validate_asset_url-same}
use werrss.Application.AssetArchive.Fetching.{
  Context, AssetInput, Response, Sent, responds, request_failed, timed_out, u64_max, read_body,
  response_media_type, signature_matches, fetchable, input_of, accept, fetch_each, push, min,
  exceeds, after_answer, or_else, fetch_assets_with_context,
}
use werrss.Application.AssetArchive.Bodies.{Read, read_body-Read}

-- A safe URL without a provider's signature.
pub record IsFetchable (url : Url) : Type 0 where
  pub safe : is_safe_asset_url url ≡ true
  pub unsigned : has_provider_signature url ≡ false

-- An input between safe URLs, whose bytes start as its media type wants and keep to the size of one
-- asset.
pub record IsFetched (policy : AssetCachePolicy) (input : AssetInput) : Type 0 where
  pub source : IsFetchable input.source_url
  pub final : IsFetchable input.final_url
  pub signature : signature_matches input.media_type input.bytes ≡ true
  pub given : 0 < length input.bytes
  pub small : length input.bytes ≤ policy.max_asset_size_bytes

fetchable-IsFetchable : (url u : Url) → fetchable url ≡ some u → IsFetchable u
unfolding fetchable
fetchable-IsFetchable url u h = elim (Option-cases (validate_asset_url url)) [
  | inl bad ↦ absurd (ground arith)
  | inr (v, valid) ↦
      let (safe, same) = validate_asset_url-same url v valid in
      let plain : has_provider_signature v ≡ false = ground arith in
      let out : u ≡ v = ground arith in
      subst IsFetchable (sym out) (record {
        safe = subst (λ x. is_safe_asset_url x ≡ true) (sym same) safe;
        unsigned = plain;
      })
]

-- What `accept` pushes and counts.
abbrev Accepted : AssetCachePolicy → ℕ → ℕ → ℕ → Option AssetInput → ℕ → Type 0
Accepted policy occurrence limit fetched none counted = fetched ≤ counted
Accepted policy occurrence limit fetched (some input) counted =
    IsFetched policy input
    × (input.occurrence ≡ occurrence)
    × (length input.bytes ≤ limit)
    × (counted ≡ fetched + length input.bytes)

input_of-Accepted :
    (policy : AssetCachePolicy) (context : Context) (occurrence limit room fetched : ℕ)
    (source final : Url) (media_type : Text) (body : Option (List ℕ)) (counted : ℕ)
    → IsFetchable source
    → IsFetchable final
    → limit ≤ policy.max_asset_size_bytes
    → limit ≤ room
    → Read limit 0 fetched body counted
    → Accepted policy occurrence room fetched
        (input_of context occurrence source final media_type body)
        counted
unfolding input_of
input_of-Accepted policy context occurrence limit room fetched source final media_type none counted
      s f l w r =
    r
input_of-Accepted policy context occurrence limit room fetched source final media_type (some body)
      counted s f l w (given, small, exact) =
    elim (Bool-cases (signature_matches media_type body)) [
      | inr other ↦ rw (other, input_of) (omega arith)
      | inl matching ↦
          rw (matching, input_of)
            (
              record {
                source = s;
                final = f;
                signature = matching;
                given = given;
                small = omega arith;
              },
              refl,
              omega arith,
              omega arith,
            )
    ]

accept-Accepted :
    (policy : AssetCachePolicy) (context : Context) (occurrence : ℕ) (source : Url)
    (response : Response) (fetched : ℕ)
    → IsFetchable source
    → fetched ≤ policy.max_fetch_bytes_per_article
    → policy.max_fetch_bytes_per_article ≤ u64_max
    → let r = accept policy context occurrence source response fetched in
      Accepted policy occurrence (policy.max_fetch_bytes_per_article - fetched) fetched r.0 r.1
unfolding accept
accept-Accepted policy context occurrence source response fetched s h k =
    let room = policy.max_fetch_bytes_per_article - fetched in
    let limit = min policy.max_asset_size_bytes room in
    let least : (limit ≤ room) × (limit ≤ policy.max_asset_size_bytes) =
      (ground arith, ground arith) in
    elim (Bool-cases response.is_success) [
      | inr failed ↦ rw (failed, accept) (omega arith)
      | inl fine ↦ elim (Option-cases (response_media_type response.content_type)) [
        | inl other ↦ rw (fine, other, accept) (omega arith)
        | inr (media_type, image) ↦ elim (Bool-cases (exceeds response.content_length limit)) [
          | inl large ↦ rw (fine, image, large, accept) (omega arith)
          | inr fits ↦ elim (Option-cases (fetchable response.url)) [
            | inl refused ↦ rw (fine, image, fits, refused, accept) (omega arith)
            | inr (final, allowed) ↦
                let body =
                  read_body policy.max_fetch_time_per_article limit response.chunks [] fetched in
                rw (fine, image, fits, allowed, accept)
                  (input_of-Accepted policy context occurrence limit room fetched source final
                    media_type body.0 body.1 s (fetchable-IsFetchable response.url final allowed)
                    least.1 least.0
                    (read_body-Read policy.max_fetch_time_per_article limit response.chunks []
                      fetched (omega arith) (omega (arith, least.0))))
          ]
        ]
      ]
    ]

-- The inputs' bytes, all told.
unfoldable pub total_bytes : List AssetInput → ℕ
total_bytes [] = 0
total_bytes (input ∷ inputs) = length input.bytes + total_bytes inputs

-- The occurrences grow from the first on, below the end.
abbrev pub Growing : ℕ → ℕ → List AssetInput → Type 0
Growing first end [] = Unit
Growing first end (input ∷ inputs) =
    (first ≤ input.occurrence)
    × (input.occurrence < end)
    × Growing (input.occurrence + 1) end inputs

Growing-weaken :
    (first next end : ℕ) (inputs : List AssetInput)
    → first ≤ next
    → Growing next end inputs
    → Growing first end inputs
Growing-weaken first next end [] h g = tt
Growing-weaken first next end (input ∷ inputs) h (from, below, rest) = (omega arith, below, rest)

-- What a round of the loop onwards brings in.
record Within (policy : AssetCachePolicy) (occurrence fetched : ℕ) (inputs : List AssetInput)
    : Type 0 where
  each : All (IsFetched policy) inputs
  bytes : total_bytes inputs ≤ policy.max_fetch_bytes_per_article - fetched
  growing : Growing occurrence policy.max_count_per_article inputs

push-Within :
    (policy : AssetCachePolicy) (occurrence fetched : ℕ) (o : Option AssetInput) (counted : ℕ)
    (inputs : List AssetInput)
    → occurrence < policy.max_count_per_article
    → Accepted policy occurrence (policy.max_fetch_bytes_per_article - fetched) fetched o counted
    → Within policy (occurrence + 1) counted inputs
    → Within policy occurrence fetched (push o inputs)
unfolding total_bytes
push-Within policy occurrence fetched none counted inputs h a w = record {
  each = w.each;
  bytes = omega (arith, w.bytes);
  growing =
      Growing-weaken occurrence (occurrence + 1) policy.max_count_per_article inputs (omega arith)
        w.growing;
}
push-Within policy occurrence fetched (some input) counted inputs h (good, at, small, exact) w =
    record {
      each = (good, w.each);
      bytes = omega (arith, w.bytes);
      growing = (
        omega arith,
        omega arith,
        subst (λ n. Growing (n + 1) policy.max_count_per_article inputs) (sym at) w.growing,
      );
    }

nothing-Within :
    (policy : AssetCachePolicy) (occurrence fetched : ℕ) → Within policy occurrence fetched []
unfolding total_bytes
nothing-Within policy occurrence fetched = record { each = tt; bytes = omega arith; growing = tt }

after_answer-Within :
    (policy : AssetCachePolicy) (context : Context) (occurrence fetched : ℕ) (source : Url)
    (next : ℕ → List AssetInput) (sent : Sent)
    → occurrence < policy.max_count_per_article
    → fetched ≤ policy.max_fetch_bytes_per_article
    → policy.max_fetch_bytes_per_article ≤ u64_max
    → IsFetchable source
    → ((n : ℕ) → Within policy (occurrence + 1) n (next n))
    → Within policy occurrence fetched
        (after_answer policy context occurrence fetched source next sent)
unfolding after_answer
after_answer-Within policy context occurrence fetched source next request_failed b l k s w =
    push-Within policy occurrence fetched none fetched (next fetched) b (omega arith) (w fetched)
after_answer-Within policy context occurrence fetched source next timed_out b l k s w =
    nothing-Within policy occurrence fetched
after_answer-Within policy context occurrence fetched source next (responds response) b l k s w =
    let accepted = accept policy context occurrence source response fetched in
    push-Within policy occurrence fetched accepted.0 accepted.1 (next accepted.1) b
      (accept-Accepted policy context occurrence source response fetched s l k) (w accepted.1)

fetch_each-Within :
    (policy : AssetCachePolicy) (context : Context) (occurrence fetched : ℕ)
    (urls : List (Url × (ℕ × Sent)))
    → policy.max_fetch_bytes_per_article ≤ u64_max
    → Within policy occurrence fetched (fetch_each policy context occurrence fetched urls)
unfolding fetch_each
fetch_each-Within policy context occurrence fetched [] k = nothing-Within policy occurrence fetched
fetch_each-Within policy context occurrence fetched ((url, (elapsed, sent)) ∷ urls) k =
    let nothing = nothing-Within policy occurrence fetched in
    let next = λ (n : ℕ). fetch_each policy context (occurrence + 1) n urls in
    let rest = λ (n : ℕ). fetch_each-Within policy context (occurrence + 1) n urls k in
    elim (Bool-cases (leb policy.max_count_per_article occurrence)) [
      | inl all ↦ rw all nothing
      | inr more ↦ elim (Bool-cases (ltb policy.max_fetch_time_per_article elapsed)) [
        | inl late ↦ rw (more, late) nothing
        | inr timely ↦ elim (Bool-cases (policy.max_fetch_bytes_per_article - fetched == 0)) [
          | inl spent ↦ rw (more, timely, spent) nothing
          | inr room ↦
              let below : occurrence < policy.max_count_per_article = ground arith in
              elim (Option-cases (fetchable url)) [
                | inl refused ↦
                    rw (more, timely, room, refused)
                      (push-Within policy occurrence fetched none fetched (next fetched) below
                        (omega arith) (rest fetched))
                | inr (source, allowed) ↦
                    rw (more, timely, room, allowed)
                      (after_answer-Within policy context occurrence fetched source next sent below
                        (ground arith) k (fetchable-IsFetchable url source allowed) rest)
              ]
        ]
      ]
    ]

-- Whatever servers answer, with a byte budget that fits in 64 bits a fetch brings in no more bytes
-- than the policy allows for an article, and its assets' occurrences grow strictly below the limit
-- on their number. Each asset came from a safe unsigned URL and ended at one, is not empty, keeps to
-- the size of one asset, and starts with the signature of its media type.
pub fetch_assets-budgets :
    (policy : AssetCachePolicy) (context : Context) (origin : Option Text)
    (urls : List (Url × (ℕ × Sent)))
    → policy.max_fetch_bytes_per_article ≤ u64_max
    → let inputs = fetch_assets_with_context policy context origin urls in
      All (IsFetched policy) inputs
      × (total_bytes inputs ≤ policy.max_fetch_bytes_per_article)
      × Growing 0 policy.max_count_per_article inputs
unfolding fetch_assets_with_context
fetch_assets-budgets policy context origin urls k =
    let w =
      fetch_each-Within policy (record context { origin = or_else origin context.origin }) 0 0 urls
        k in
    (w.each, omega (arith, w.bytes), w.growing)
