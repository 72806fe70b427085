-- ===== src/Application/AssetArchive/Fetching.antt =====
-- Fetching the assets of an article, src/application/asset_archive_service.rs. What the HTTP client
-- and the clock do is data: each reading of the elapsed time, the answer to each request, and the
-- chunks of a body. Where the chunks run out nothing more arrives until the timeout.
use werrss.Common.{
  ℕ, ◌+◌, ◌-◌, Bool, true, false, not, ◌&&◌, ◌||◌, Option, none, some, List, [], ◌∷◌, ◌++◌, length,
  take, drop, Text, codes, text_eq, trim, ltb, leb, ◌==◌, if◌then◌else◌,
}
use werrss.Domain.UrlPolicy.{Url, to_ascii_lowercase, has_provider_signature}
use werrss.Archive.AssetStore.{AssetCachePolicy}
use werrss.Application.AssetArchive.{validate_asset_url}

-- One round of the loop over `response.chunk()`: the elapsed time before and after it, and what the
-- server sent.
pub data Chunk : Type 0 where
  arrives : (before after : ℕ) (bytes : List ℕ) → Chunk
  ends : (before after : ℕ) → Chunk
  breaks : (before : ℕ) → Chunk
  hangs : (before : ℕ) → Chunk

pub record Response : Type 0 where
  pub url : Url
  pub is_success : Bool
  pub content_type : Option Text
  pub content_length : Option ℕ
  pub chunks : List Chunk

pub data Sent : Type 0 where
  responds : Response → Sent
  request_failed timed_out : Sent

abbrev pub u64_max : ℕ
u64_max = 18446744073709551615

-- `u64::saturating_add`.
abbrev pub saturating_add : ℕ → ℕ → ℕ
saturating_add m n = if leb (m + n) u64_max then m + n else u64_max

-- What stands before the first `;`.
unfoldable pub before_semicolon : Text → Text
before_semicolon [] = []
before_semicolon (c ∷ s) = let rest = before_semicolon s in if c == 59 then [] else c ∷ rest

abbrev is_image : Text → Bool
is_image media_type =
    text_eq media_type (codes "image/png")
    || text_eq media_type (codes "image/jpeg")
    || text_eq media_type (codes "image/gif")
    || text_eq media_type (codes "image/webp")

unfoldable pub response_media_type : Option Text → Option Text
response_media_type none = none
response_media_type (some value) =
    let media_type = to_ascii_lowercase (trim (before_semicolon value)) in
    if is_image media_type then some media_type else none

-- `starts_with` on bytes.
unfoldable pub starts_with : List ℕ → List ℕ → Bool
starts_with bytes [] = true
starts_with [] (b ∷ prefix) = false
starts_with (c ∷ bytes) (b ∷ prefix) = let rest = starts_with bytes prefix in c == b && rest

unfoldable pub signature_matches : Text → List ℕ → Bool
signature_matches media_type bytes =
    if text_eq media_type (codes "image/png")
    then starts_with bytes (0x89 ∷ 0x50 ∷ 0x4e ∷ 0x47 ∷ 13 ∷ 10 ∷ 0x1a ∷ 10 ∷ [])
    else if text_eq media_type (codes "image/jpeg")
    then starts_with bytes (0xff ∷ 0xd8 ∷ 0xff ∷ [])
    else if text_eq media_type (codes "image/gif")
    then starts_with bytes (codes "GIF87a") || starts_with bytes (codes "GIF89a")
    else if text_eq media_type (codes "image/webp")
    then leb 12 (length bytes)
      && (text_eq (take 4 bytes) (codes "RIFF") && text_eq (take 4 (drop 8 bytes)) (codes "WEBP"))
    else false

-- `read_body`; the second component is the count behind `fetched_bytes`.
unfoldable pub read_body : ℕ → ℕ → List Chunk → List ℕ → ℕ → Option (List ℕ) × ℕ
read_body max_time limit [] bytes fetched = (none, fetched)
read_body max_time limit (hangs before ∷ chunks) bytes fetched = (none, fetched)
read_body max_time limit (breaks before ∷ chunks) bytes fetched = (none, fetched)
read_body max_time limit (ends before after ∷ chunks) bytes fetched =
    if ltb max_time before
    then (none, fetched)
    else if ltb max_time after
    then (none, fetched)
    else if length bytes == 0
    then (none, fetched)
    else (some bytes, fetched)
read_body max_time limit (arrives before after chunk ∷ chunks) bytes fetched =
    let counted = saturating_add fetched (length chunk) in
    let rest = read_body max_time limit chunks (bytes ++ chunk) counted in
    if ltb max_time before
    then (none, fetched)
    else if ltb max_time after
    then (none, fetched)
    else if ltb (limit - length bytes) (length chunk)
    then (none, counted)
    else rest

pub record AssetInput : Type 0 where
  pub source_url : Url
  pub final_url : Url
  pub media_type : Text
  pub bytes : List ℕ
  pub occurrence : ℕ
  pub referer_url : Url
  pub origin : Option Text
  pub user_agent : Option Text

-- What a fetch of one article's assets starts with: the referer, its origin and the configured
-- browser profile.
pub record Context : Type 0 where
  pub referer_url : Url
  pub origin : Option Text
  pub user_agent : Option Text

abbrev pub min : ℕ → ℕ → ℕ
min m n = if leb m n then m else n

abbrev pub exceeds : Option ℕ → ℕ → Bool
exceeds none limit = false
exceeds (some size) limit = ltb limit size

-- `Option::filter`.
abbrev pub keep_if {ℓ} : {A : Type ℓ} → (A → Bool) → Option A → Option A
keep_if p none = none
keep_if p (some a) = if p a then some a else none

-- The URL checks on a source and on a final URL.
unfoldable pub fetchable : Url → Option Url
fetchable url = keep_if (λ u. not (has_provider_signature u)) (validate_asset_url url)

unfoldable pub input_of : Context → ℕ → Url → Url → Text → Option (List ℕ) → Option AssetInput
input_of context occurrence source_url final_url media_type none = none
input_of context occurrence source_url final_url media_type (some bytes) =
    if not (signature_matches media_type bytes)
    then none
    else some (record {
      source_url = source_url;
      final_url = final_url;
      media_type = media_type;
      bytes = bytes;
      occurrence = occurrence;
      referer_url = context.referer_url;
      origin = context.origin;
      user_agent = context.user_agent;
    })

-- From the status check to `fetched.push`; what is pushed, and the count of bytes.
unfoldable pub accept : AssetCachePolicy → Context → ℕ → Url → Response → ℕ → Option AssetInput × ℕ
accept policy context occurrence source_url response fetched =
    let limit = min policy.max_asset_size_bytes (policy.max_fetch_bytes_per_article - fetched) in
    if not response.is_success
    then (none, fetched)
    else elim (response_media_type response.content_type) [
      | none ↦ (none, fetched)
      | some media_type ↦
          if exceeds response.content_length limit
          then (none, fetched)
          else elim (fetchable response.url) [
            | none ↦ (none, fetched)
            | some final_url ↦
                let body =
                  read_body policy.max_fetch_time_per_article limit response.chunks [] fetched in
                (input_of context occurrence source_url final_url media_type body.0, body.1)
          ]
    ]

-- `fetched.push` of what there is.
abbrev pub push : Option AssetInput → List AssetInput → List AssetInput
push none inputs = inputs
push (some input) inputs = input ∷ inputs

-- The match on the client's answer; `next` is the rest of the loop from a count of bytes.
unfoldable pub after_answer :
    AssetCachePolicy → Context → ℕ → ℕ → Url → (ℕ → List AssetInput) → Sent → List AssetInput
after_answer policy context occurrence fetched source_url next request_failed = next fetched
after_answer policy context occurrence fetched source_url next timed_out = []
after_answer policy context occurrence fetched source_url next (responds response) =
    let accepted = accept policy context occurrence source_url response fetched in
    push accepted.0 (next accepted.1)

-- The loop of `fetch_assets_with_context` over the URLs, each with the elapsed time at its start
-- and the client's answer.
unfoldable pub fetch_each :
    AssetCachePolicy → Context → ℕ → ℕ → List (Url × (ℕ × Sent)) → List AssetInput
fetch_each policy context occurrence fetched [] = []
fetch_each policy context occurrence fetched ((url, (elapsed, sent)) ∷ urls) =
    let next = λ (count : ℕ). fetch_each policy context (occurrence + 1) count urls in
    if leb policy.max_count_per_article occurrence
    then []
    else if ltb policy.max_fetch_time_per_article elapsed
    then []
    else if policy.max_fetch_bytes_per_article - fetched == 0
    then []
    else elim (fetchable url) [
      | none ↦ next fetched
      | some source_url ↦ after_answer policy context occurrence fetched source_url next sent
    ]

abbrev pub or_else : Option Text → Option Text → Option Text
or_else none b = b
or_else (some a) b = some a

-- The origin of the referer is what `origin_for` makes of it.
unfoldable pub fetch_assets_with_context :
    AssetCachePolicy → Context → Option Text → List (Url × (ℕ × Sent)) → List AssetInput
fetch_assets_with_context policy context captured_origin urls =
    fetch_each policy (record context { origin = or_else captured_origin context.origin }) 0 0 urls
