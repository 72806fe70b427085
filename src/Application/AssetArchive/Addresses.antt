-- ===== src/Application/AssetArchive/Addresses.antt =====
-- The addresses that asset requests can reach, src/application/asset_archive_service.rs.
use werrss.Common.{
  ℕ, ◌≤◌, ◌<◌, ◌≡◌, ◌↔◌, ◌^◌, ◌/◌, ◌%◌, ◌+◌, ◌-◌, ◌*◌, ◌⊎◌, inl, inr, true, List, [], ◌∷◌, All,
  filter, ◌==◌, arith, Bool-cases,
}
use werrss.Application.AssetArchive.{
  v4, ipv6_in_cidr, is_private_v4, is_private_v6, mapped_ipv4, mapped_private, is_private_ip,
  IpAddr, v4_addr, v6_addr, filter_resolved_addresses,
}

-- The address lies from the first to the last of a range.
abbrev pub Within : ℕ → ℕ → ℕ → Type 0
Within first last address = (first ≤ address) × (address ≤ last)

-- The blocks of IPv4 addresses that are not public.
abbrev pub IsSpecialV4 : ℕ → Type 0
IsSpecialV4 a =
    Within (v4 0 0 0 0) (v4 0 255 255 255) a
    ⊎ (Within (v4 10 0 0 0) (v4 10 255 255 255) a
        ⊎ (Within (v4 100 64 0 0) (v4 100 127 255 255) a
            ⊎ (Within (v4 127 0 0 0) (v4 127 255 255 255) a
                ⊎ (Within (v4 169 254 0 0) (v4 169 254 255 255) a
                    ⊎ (Within (v4 172 16 0 0) (v4 172 31 255 255) a
                        ⊎ (Within (v4 192 0 0 0) (v4 192 0 0 255) a
                            ⊎ (Within (v4 192 0 2 0) (v4 192 0 2 255) a
                                ⊎ (Within (v4 192 168 0 0) (v4 192 168 255 255) a
                                    ⊎ (Within (v4 198 18 0 0) (v4 198 19 255 255) a
                                        ⊎ (Within (v4 198 51 100 0) (v4 198 51 100 255) a
                                            ⊎ (Within (v4 203 0 113 0) (v4 203 0 113 255) a
                                                ⊎ Within (v4 224 0 0 0) (v4 255 255 255 255)
                                                    a)))))))))))

-- The blocks of IPv6 addresses that are not public: the first two addresses, the mapped IPv4
-- addresses of special blocks, and the blocks by their first and last addresses.
abbrev pub IsSpecialV6 : ℕ → Type 0
IsSpecialV6 a =
    Within 0 1 a
    ⊎ (((a / 2 ^ 32 ≡ 65535) × IsSpecialV4 (a % 2 ^ 32))
        ⊎ (Within (0x20010002 * 2 ^ 96) (0x20010002 * 2 ^ 96 + 2 ^ 80 - 1) a
            ⊎ (Within (0x20010010 * 2 ^ 96) (0x20010020 * 2 ^ 96 - 1) a
                ⊎ (Within (0x20010db8 * 2 ^ 96) (0x20010db9 * 2 ^ 96 - 1) a
                    ⊎ (Within (0xfc00 * 2 ^ 112) (0xfe00 * 2 ^ 112 - 1) a
                        ⊎ Within (0xfe80 * 2 ^ 112) (2 ^ 128 - 1) a)))))

is_private_v4_sound : (a : ℕ) → a < 2 ^ 32 → is_private_v4 a ≡ true → IsSpecialV4 a
unfolding is_private_v4
is_private_v4_sound a h p = ground arith

is_private_v4_complete : (a : ℕ) → IsSpecialV4 a → is_private_v4 a ≡ true
unfolding is_private_v4
is_private_v4_complete a s = ground arith

mapped_private_sound :
    (a : ℕ)
    → mapped_private (mapped_ipv4 a) ≡ true
    → (a / 2 ^ 32 ≡ 65535) × IsSpecialV4 (a % 2 ^ 32)
unfolding mapped_ipv4
mapped_private_sound a p = elim (Bool-cases (a / 2 ^ 32 == 65535)) [
  | inl mapped ↦ (ground arith, is_private_v4_sound (a % 2 ^ 32) (omega arith) (ground arith))
  | inr other ↦ absurd (ground arith)
]

mapped_private_complete :
    (a : ℕ)
    → (a / 2 ^ 32 ≡ 65535) × IsSpecialV4 (a % 2 ^ 32)
    → mapped_private (mapped_ipv4 a) ≡ true
unfolding mapped_ipv4
mapped_private_complete a (mapped, special) =
    let private = is_private_v4_complete (a % 2 ^ 32) special in ground arith

is_private_v6_sound : (a : ℕ) → a < 2 ^ 128 → is_private_v6 a ≡ true → IsSpecialV6 a
unfolding is_private_v6 ipv6_in_cidr
is_private_v6_sound a h p = elim (Bool-cases (mapped_private (mapped_ipv4 a))) [
  | inl mapped ↦ inr (inl (mapped_private_sound a mapped))
  | inr other ↦ ground arith
]

is_private_v6_complete : (a : ℕ) → a < 2 ^ 128 → IsSpecialV6 a → is_private_v6 a ≡ true
unfolding is_private_v6 ipv6_in_cidr
is_private_v6_complete a h (inl s) = ground arith
is_private_v6_complete a h (inr (inl s)) = ground (arith, mapped_private_complete a s)
is_private_v6_complete a h (inr (inr s)) = ground arith

-- An address of 32 or of 128 bits.
abbrev pub IsAddress : IpAddr → Type 0
IsAddress (v4_addr a) = a < 2 ^ 32
IsAddress (v6_addr a) = a < 2 ^ 128

abbrev pub IsSpecial : IpAddr → Type 0
IsSpecial (v4_addr a) = IsSpecialV4 a
IsSpecial (v6_addr a) = IsSpecialV6 a

-- The test on prefixes and masks refuses exactly the addresses of the listed blocks, an IPv4 address
-- within an IPv6 one as if it stood alone.
pub is_private_ip_iff : (ip : IpAddr) → IsAddress ip → (is_private_ip ip ≡ true) ↔ IsSpecial ip
unfolding is_private_ip
is_private_ip_iff (v4_addr a) h = (is_private_v4_sound a h, is_private_v4_complete a)
is_private_ip_iff (v6_addr a) h = (is_private_v6_sound a h, is_private_v6_complete a h)

-- The entries of a list that satisfy a test, in their order.
pub data Chosen {A : Type 0} (p : A → Type 0) : List A → List A → Type 0 where
  chosen_none : Chosen p [] []
  chosen_kept : (x : A) (xs ys : List A) → p x → Chosen p xs ys → Chosen p (x ∷ xs) (x ∷ ys)
  chosen_left : (x : A) (xs ys : List A) → ¬ p x → Chosen p xs ys → Chosen p (x ∷ xs) ys

-- What the resolver passes on are exactly the addresses outside the special blocks, in their order.
pub filter_resolved_addresses-Chosen :
    (addresses : List (IpAddr × ℕ))
    → All (λ a. IsAddress a.0) addresses
    → Chosen (λ a. ¬ IsSpecial a.0) addresses (filter_resolved_addresses addresses)
unfolding filter_resolved_addresses filter
filter_resolved_addresses-Chosen [] h = chosen_none
filter_resolved_addresses-Chosen (a ∷ rest) h =
    let (sound, complete) = is_private_ip_iff a.0 h.0 in
    elim (Bool-cases (is_private_ip a.0)) [
      | inl private ↦
          rw (private, filter)
            (chosen_left a rest _ (λ public. public (sound private))
              (filter_resolved_addresses-Chosen rest h.1))
      | inr public ↦
          rw (public, filter)
            (chosen_kept a rest _ (λ special. ground (arith, complete special))
              (filter_resolved_addresses-Chosen rest h.1))
    ]
