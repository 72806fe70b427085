-- ===== src/Application/AssetArchive.antt =====
-- The outbound policy on asset URLs, src/application/asset_archive_service.rs: which URLs, hosts,
-- ports and addresses may be fetched. An IPv4 address is its `u32`, an IPv6 address its `u128`; the
-- predicates of the standard library on IPv4 addresses are written as the ranges they document.
pub mod Addresses
pub mod Destinations
pub mod Fetching
pub mod Bodies
pub mod Budgets
pub mod Expiry
pub mod Repair
pub mod Outcomes
use werrss.Common.{
  ℕ, ◌+◌, ◌*◌, ◌/◌, ◌%◌, ◌-◌, ◌^◌, Bool, true, false, not, ◌&&◌, ◌||◌, Option, none, some, List, [],
  ◌∷◌, filter, Text, codes, text_eq, is_empty, leb, ◌==◌, if◌then◌else◌, is_some,
}
use werrss.Domain.UrlPolicy.{Url, Host, ipv4, ipv6, domain, to_ascii_lowercase}

-- `x & (MAX << (width - prefix))`, the first `prefix` bits of a `width`-bit number.
abbrev pub mask : ℕ → ℕ → ℕ → ℕ
mask width prefix x = x / 2 ^ (width - prefix) * 2 ^ (width - prefix)

unfoldable pub ipv4_in_cidr : ℕ → ℕ → ℕ → Bool
ipv4_in_cidr address network prefix =
    if prefix == 0 then true else mask 32 prefix address == mask 32 prefix network

unfoldable pub ipv6_in_cidr : ℕ → ℕ → ℕ → Bool
ipv6_in_cidr address network prefix =
    if prefix == 0 then true else mask 128 prefix address == mask 128 prefix network

-- `Ipv4Addr::new`.
abbrev pub v4 : ℕ → ℕ → ℕ → ℕ → ℕ
v4 a b c d = ((a * 256 + b) * 256 + c) * 256 + d

-- `Ipv6Addr::new` of segments of which those behind the third are 0.
abbrev pub v6 : ℕ → ℕ → ℕ → ℕ
v6 a b c = ((a * 65536 + b) * 65536 + c) * 2 ^ 80

-- `segments()[0]`, and the last two segments as one number.
abbrev pub segment_0 : ℕ → ℕ
segment_0 address = address / 2 ^ 112

abbrev pub low_32 : ℕ → ℕ
low_32 address = address % 2 ^ 32

-- The standard library's `is_private`, `is_loopback`, `is_link_local`, `is_unspecified`,
-- `is_broadcast` and `is_multicast`.
abbrev pub std_special_v4 : ℕ → Bool
std_special_v4 address =
    (leb (v4 10 0 0 0) address && leb address (v4 10 255 255 255))
    || (leb (v4 172 16 0 0) address && leb address (v4 172 31 255 255))
    || (leb (v4 192 168 0 0) address && leb address (v4 192 168 255 255))
    || (leb (v4 127 0 0 0) address && leb address (v4 127 255 255 255))
    || (leb (v4 169 254 0 0) address && leb address (v4 169 254 255 255))
    || address == 0
    || address == v4 255 255 255 255
    || (leb (v4 224 0 0 0) address && leb address (v4 239 255 255 255))

unfoldable pub is_private_v4 : ℕ → Bool
unfolding ipv4_in_cidr
is_private_v4 address =
    std_special_v4 address
    || ipv4_in_cidr address (v4 0 0 0 0) 8
    || ipv4_in_cidr address (v4 100 64 0 0) 10
    || ipv4_in_cidr address (v4 192 0 0 0) 24
    || ipv4_in_cidr address (v4 192 0 2 0) 24
    || ipv4_in_cidr address (v4 198 18 0 0) 15
    || ipv4_in_cidr address (v4 198 51 100 0) 24
    || ipv4_in_cidr address (v4 203 0 113 0) 24
    || ipv4_in_cidr address (v4 240 0 0 0) 4

-- Five segments of 0, and a sixth of 0xffff.
unfoldable pub mapped_ipv4 : ℕ → Option ℕ
mapped_ipv4 address = if address / 2 ^ 32 == 65535 then some (low_32 address) else none

abbrev pub mapped_private : Option ℕ → Bool
mapped_private none = false
mapped_private (some mapped) = is_private_v4 mapped

-- The masks 0xfe00 and 0xffc0 keep the first 7 and 10 bits of a segment. The standard library's
-- `is_loopback`, `is_unspecified` and `is_multicast` come second to fourth.
unfoldable pub is_private_v6 : ℕ → Bool
is_private_v6 address =
    mapped_private (mapped_ipv4 address)
    || address == 1
    || address == 0
    || mask 16 8 (segment_0 address) == 0xff00
    || mask 16 7 (segment_0 address) == 0xfc00
    || mask 16 10 (segment_0 address) == 0xfe80
    || ipv6_in_cidr address (v6 0xfec0 0 0) 10
    || ipv6_in_cidr address (v6 0x2001 0x0002 0) 48
    || ipv6_in_cidr address (v6 0x2001 0x0db8 0) 32
    || ipv6_in_cidr address (v6 0x2001 0x0010 0) 28

pub data IpAddr : Type 0 where
  v4_addr v6_addr : ℕ → IpAddr

unfoldable pub is_private_ip : IpAddr → Bool
is_private_ip (v4_addr address) = is_private_v4 address
is_private_ip (v6_addr address) = is_private_v6 address

-- `ends_with`.
unfoldable pub ends_with : Text → Text → Bool
ends_with [] suffix = text_eq [] suffix
ends_with (c ∷ s) suffix = let rest = ends_with s suffix in text_eq (c ∷ s) suffix || rest

-- The default port of a scheme is not kept in a URL.
unfoldable pub is_allowed_asset_port : Url → Bool
is_allowed_asset_port url = elim url.port [
  | none ↦ text_eq url.scheme (codes "http") || text_eq url.scheme (codes "https")
  | some port ↦
      (text_eq url.scheme (codes "http") && port == 80)
      || (text_eq url.scheme (codes "https") && port == 443)
]

unfoldable pub is_safe_host : Host → Bool
is_safe_host (ipv4 address) = not (is_private_ip (v4_addr address))
is_safe_host (ipv6 address) = not (is_private_ip (v6_addr address))
is_safe_host (domain host) =
    let host_lower = to_ascii_lowercase host in
    not (text_eq host_lower (codes "localhost"))
    && not (ends_with host_lower (codes ".localhost"))
    && not (ends_with host_lower (codes ".local"))

abbrev host_is_none : Option Host → Bool
host_is_none none = true
host_is_none (some host) = false

abbrev is_safe_host_of : Option Host → Bool
is_safe_host_of none = false
is_safe_host_of (some host) = is_safe_host host

unfoldable pub is_safe_asset_url : Url → Bool
is_safe_asset_url url =
    if not (text_eq url.scheme (codes "http") || text_eq url.scheme (codes "https"))
      || host_is_none url.host
      || not (is_empty url.username)
      || is_some url.password
      || is_some url.fragment
      || not (is_allowed_asset_port url)
    then false
    else is_safe_host_of url.host

unfoldable pub validate_asset_url : Url → Option Url
validate_asset_url url =
    if not (is_safe_asset_url url) then none else some (record url { fragment = none })

unfoldable pub can_follow_redirect : ℕ → ℕ → Url → Bool
can_follow_redirect previous_count max_redirects url =
    leb previous_count max_redirects && is_safe_asset_url url

-- A `SocketAddr` is an address and a port.
unfoldable pub filter_resolved_addresses : List (IpAddr × ℕ) → List (IpAddr × ℕ)
filter_resolved_addresses addresses = filter (λ address. not (is_private_ip address.0)) addresses
