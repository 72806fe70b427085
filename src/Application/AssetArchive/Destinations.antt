-- ===== src/Application/AssetArchive/Destinations.antt =====
-- The URLs that asset requests go to, src/application/asset_archive_service.rs.
use werrss.Common.{
  subst, sym, codes, text_eq_iff, is_empty, ◌≡◌, ◌⊎◌, inl, inr, true, false, Option, none, some,
  arith, Option-cases,
}
use werrss.Domain.UrlPolicy.{Url, Host, ipv4, ipv6, domain, to_ascii_lowercase}
use werrss.Application.AssetArchive.{
  v4_addr, v6_addr, is_safe_host, is_allowed_asset_port, ends_with, is_safe_asset_url,
  validate_asset_url,
}
use werrss.Application.AssetArchive.Addresses.{IsAddress, IsSpecial, is_private_ip_iff}

-- A host that is an address is one of 32 or 128 bits.
abbrev pub IsHost : Option Host → Type 0
IsHost none = Unit
IsHost (some (ipv4 a)) = IsAddress (v4_addr a)
IsHost (some (ipv6 a)) = IsAddress (v6_addr a)
IsHost (some (domain name)) = Unit

-- A host that is an address outside the special blocks, or a name that is not local.
abbrev pub IsPublicHost : Option Host → Type 0
IsPublicHost none = ⊥
IsPublicHost (some (ipv4 a)) = ¬ IsSpecial (v4_addr a)
IsPublicHost (some (ipv6 a)) = ¬ IsSpecial (v6_addr a)
IsPublicHost (some (domain name)) =
    let lower = to_ascii_lowercase name in
    (¬ (lower ≡ codes "localhost"))
    × (ends_with lower (codes ".localhost") ≡ false)
    × (ends_with lower (codes ".local") ≡ false)

-- HTTP or HTTPS to the default port, without credentials or a fragment, to a public host.
pub record IsOutbound (url : Url) : Type 0 where
  pub scheme :
      ((url.scheme ≡ codes "http") × ((url.port ≡ none) ⊎ (url.port ≡ some 80)))
      ⊎ ((url.scheme ≡ codes "https") × ((url.port ≡ none) ⊎ (url.port ≡ some 443)))
  pub username : is_empty url.username ≡ true
  pub password : url.password ≡ none
  pub fragment : url.fragment ≡ none
  pub host : IsPublicHost url.host

is_safe_host-IsPublicHost :
    (host : Host) → IsHost (some host) → is_safe_host host ≡ true → IsPublicHost (some host)
unfolding is_safe_host
is_safe_host-IsPublicHost (ipv4 a) h s =
    λ special. ground (arith, (is_private_ip_iff (v4_addr a) h).1 special)
is_safe_host-IsPublicHost (ipv6 a) h s =
    λ special. ground (arith, (is_private_ip_iff (v6_addr a) h).1 special)
is_safe_host-IsPublicHost (domain name) h s = (
  λ same. ground (arith, text_eq_iff (to_ascii_lowercase name) (codes "localhost")),
  ground arith,
  ground arith,
)

is_allowed_asset_port_sound :
    (url : Url)
    → is_allowed_asset_port url ≡ true
    → ((url.scheme ≡ codes "http") × ((url.port ≡ none) ⊎ (url.port ≡ some 80)))
      ⊎ ((url.scheme ≡ codes "https") × ((url.port ≡ none) ⊎ (url.port ≡ some 443)))
unfolding is_allowed_asset_port
is_allowed_asset_port_sound url h =
    ground (arith, text_eq_iff url.scheme (codes "http"), text_eq_iff url.scheme (codes "https"))

is_safe_asset_url-fragment : (url : Url) → is_safe_asset_url url ≡ true → url.fragment ≡ none
unfolding is_safe_asset_url
is_safe_asset_url-fragment url s = ground arith

is_safe_asset_url-IsOutbound :
    (url : Url) → IsHost url.host → is_safe_asset_url url ≡ true → IsOutbound url
unfolding is_safe_asset_url
is_safe_asset_url-IsOutbound url h s = elim (Option-cases url.host) [
  | inl missing ↦ absurd (ground arith)
  | inr (host, given) ↦
      let safe : is_safe_host host ≡ true = ground arith in
      record {
        scheme = is_allowed_asset_port_sound url (ground arith);
        username = ground arith;
        password = ground arith;
        fragment = ground arith;
        host =
            subst IsPublicHost (sym given)
              (is_safe_host-IsPublicHost host (subst IsHost given h) safe);
      }
]

pub validate_asset_url-same :
    (url valid : Url)
    → validate_asset_url url ≡ some valid
    → (is_safe_asset_url url ≡ true) × (valid ≡ url)
unfolding validate_asset_url
validate_asset_url-same url valid v =
    let safe : is_safe_asset_url url ≡ true = ground arith in
    let plain = is_safe_asset_url-fragment url safe in (safe, ground (arith, plain))

-- Validation gives back the URL itself or nothing, and only a URL that goes over HTTP or HTTPS to
-- the default port of a public host, without credentials or a fragment. A host that is an address
-- has 32 or 128 bits here.
pub validate_asset_url-IsOutbound :
    (url valid : Url)
    → IsHost url.host
    → validate_asset_url url ≡ some valid
    → (valid ≡ url) × IsOutbound valid
validate_asset_url-IsOutbound url valid h v =
    let (safe, same) = validate_asset_url-same url valid v in
    (same, subst IsOutbound (sym same) (is_safe_asset_url-IsOutbound url h safe))
