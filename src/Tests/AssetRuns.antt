-- ===== src/Tests/AssetRuns.antt =====
-- Runs of the asset fetches and their outbound policy, src/application/asset_archive_service.rs and
-- src/domain/url_policy.rs.
use werrss.Common.{
  ℕ, ◌+◌, ◌*◌, ◌≤◌, ◌<◌, ◌≡◌, refl, ◌↔◌, ◌≢◌, inl, inr, true, false, Option, none, some, List, [],
  ◌∷◌, ◌++◌, All, Text, codes, arith,
}
use werrss.Domain.UrlPolicy.{Url, Host, ipv4, domain}
use werrss.Archive.AssetStore.{AssetCachePolicy}
use werrss.Application.AssetArchive.{
  IpAddr, v4_addr, v6_addr, v4, is_private_ip, validate_asset_url, filter_resolved_addresses,
}
use werrss.Application.AssetArchive.Addresses.{IsSpecial, is_private_ip_iff}
use werrss.Application.AssetArchive.Destinations.{IsOutbound, validate_asset_url-IsOutbound}
use werrss.Application.AssetArchive.Fetching.{
  Context, Chunk, arrives, ends, Response, Sent, responds, request_failed,
  fetch_assets_with_context,
}
use werrss.Application.AssetArchive.Budgets.{IsFetched, total_bytes, Growing, fetch_assets-budgets}
use werrss.Application.AssetArchive.Expiry.{
  EvidenceCrates, ProviderExpiryRule, RepairResponse, confirmed_signed_url_expiry, http,
  production_expiry_rules,
}
use werrss.Application.AssetArchive.Repair.{RepairSent, failed, repair_failure}

abbrev at_host : Host → Url
at_host host = record {
  scheme = codes "https";
  username = [];
  password = none;
  host = some host;
  port = none;
  query_pairs = [];
  fragment = none;
}

abbrev image_url : Url
image_url = at_host (domain (codes "img.example"))

abbrev address_url : Url
address_url = at_host (ipv4 (v4 93 184 216 34))

-- The IPv6 form of 127.0.0.1.
abbrev mapped_loopback : ℕ
mapped_loopback = 65535 * 4294967296 + v4 127 0 0 1

is_private_ip_iff_example :
    (is_private_ip (v6_addr mapped_loopback) ≡ true) ↔ IsSpecial (v6_addr mapped_loopback)
is_private_ip_iff_example = is_private_ip_iff (v6_addr mapped_loopback) (omega arith)

abbrev resolved : List (IpAddr × ℕ)
resolved = (v4_addr (v4 10 0 0 1), 0) ∷ (v4_addr (v4 93 184 216 34), 0) ∷ []

validate_asset_url-IsOutbound_example : (address_url ≡ address_url) × IsOutbound address_url
unfolding validate_asset_url werrss.Application.AssetArchive.is_safe_asset_url werrss.Common.text_eq
    werrss.Application.AssetArchive.is_allowed_asset_port
    werrss.Application.AssetArchive.is_safe_host is_private_ip
    werrss.Application.AssetArchive.is_private_v4
validate_asset_url-IsOutbound_example =
    validate_asset_url-IsOutbound address_url address_url (omega arith) refl

abbrev asset_policy : AssetCachePolicy
asset_policy = record {
  max_cache_size_bytes = 0;
  max_age = 0;
  max_redirects = 5;
  max_count_per_article = 2;
  max_asset_size_bytes = 8;
  max_fetch_bytes_per_article = 10;
  max_fetch_time_per_article = 100;
  fetch_timeout = 50;
}

abbrev context : Context
context = record { referer_url = image_url; origin = none; user_agent = none }

abbrev jpeg : List Chunk
jpeg = arrives 3 4 (0xff ∷ 0xd8 ∷ []) ∷ arrives 5 6 (0xff ∷ 1 ∷ []) ∷ ends 7 8 ∷ []

abbrev jpeg_response : Response
jpeg_response = record {
  url = image_url;
  is_success = true;
  content_type = some (codes "image/JPEG; q=1");
  content_length = none;
  chunks = jpeg;
}

abbrev fetches : List (Url × (ℕ × Sent))
fetches = (image_url, (1, request_failed)) ∷ (image_url, (2, responds jpeg_response)) ∷ []

fetch_assets-budgets_example :
    let inputs = fetch_assets_with_context asset_policy context none fetches in
    All (IsFetched asset_policy) inputs × (total_bytes inputs ≤ 10) × Growing 0 2 inputs
fetch_assets-budgets_example = fetch_assets-budgets asset_policy context none fetches (omega arith)

abbrev repair_sent : RepairSent
repair_sent = RepairSent.responds (record {
  url = image_url;
  status = 200;
  is_success = true;
  is_redirection = false;
  location = none;
  content_type = some (codes "image/jpeg");
  content_length = some 4;
  chunks = jpeg;
})

-- Where every URL has one host and a body is its own code.
abbrev test_evidence : EvidenceCrates
test_evidence = record {
  host_str = λ url. some (codes "img.example");
  json_code = λ bytes. some bytes;
}

abbrev a_rule : ProviderExpiryRule
a_rule = record { host = codes "img.example"; status = 403; code = codes "expired" }

abbrev refused_response : RepairResponse
refused_response = record {
  url = image_url;
  status = 403;
  is_success = false;
  is_redirection = false;
  location = none;
  content_type = none;
  content_length = none;
  chunks = arrives 3 4 (codes "exp") ∷ arrives 5 6 (codes "ired") ∷ ends 7 8 ∷ [];
}

-- A rule of a test confirms an expiry, which production's rules never do.
expiries :
    (repair_failure test_evidence (a_rule ∷ []) asset_policy refused_response
      ≡ failed (record { kind = confirmed_signed_url_expiry; status = some 403 }))
    × (repair_failure test_evidence production_expiry_rules asset_policy refused_response
        ≡ failed (record { kind = http; status = some 403 }))
unfolding repair_failure validate_asset_url werrss.Application.AssetArchive.is_safe_asset_url
    werrss.Common.text_eq werrss.Application.AssetArchive.is_allowed_asset_port
    werrss.Application.AssetArchive.is_safe_host werrss.Domain.UrlPolicy.to_ascii_lowercase
    werrss.Application.AssetArchive.ends_with
    werrss.Application.AssetArchive.Expiry.response_has_expiry_evidence
    werrss.Application.AssetArchive.Expiry.read_expiry_evidence
    werrss.Application.AssetArchive.Expiry.classify_expiry_evidence werrss.Domain.UrlPolicy.any
expiries = (refl, refl)
