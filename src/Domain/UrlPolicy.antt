-- ===== src/Domain/UrlPolicy.antt =====
-- Signed URLs, src/domain/url_policy.rs. A parsed URL is the record of what its accessors in the
-- `url` crate return.
pub mod Signatures
use werrss.Common.{
  ℕ, ◌+◌, Bool, true, false, not, ◌&&◌, ◌||◌, Option, none, some, List, [], ◌∷◌, Text, codes,
  text_eq, is_empty, leb, ◌==◌, if◌then◌else◌,
}

pub data Host : Type 0 where
  ipv4 : ℕ → Host
  ipv6 : ℕ → Host
  domain : Text → Host

pub record Url : Type 0 where
  pub scheme : Text
  pub username : Text
  pub password : Option Text
  pub host : Option Host
  pub port : Option ℕ
  pub query_pairs : List (Text × Text)
  pub fragment : Option Text

-- Rust's `to_ascii_lowercase`; `eq_ignore_ascii_case` compares what it makes.
unfoldable pub to_ascii_lowercase : Text → Text
to_ascii_lowercase [] = []
to_ascii_lowercase (c ∷ s) =
    let rest = to_ascii_lowercase s in (if leb 65 c && leb c 90 then c + 32 else c) ∷ rest

-- `split_once`.
unfoldable pub split_once : ℕ → Text → Option (Text × Text)
split_once d [] = none
split_once d (c ∷ s) =
    let rest = split_once d s in
    if c == d
    then some ([], s)
    else elim rest [ none ↦ none | some parts ↦ some (c ∷ parts.0, parts.1) ]

unfoldable pub contains_char : ℕ → Text → Bool
contains_char d [] = false
contains_char d (c ∷ s) = let rest = contains_char d s in c == d || rest

-- Rust's `Iterator::any`.
unfoldable pub any {ℓ} : {A : Type ℓ} → (A → Bool) → List A → Bool
any p [] = false
any p (x ∷ xs) = let rest = any p xs in p x || rest

-- The closure `has`, over the lower-cased names.
unfoldable pub has : List (Text × Text) → Text → Bool
has pairs name = any (λ pair. text_eq (to_ascii_lowercase pair.0) name) pairs

abbrev pub is_key_and_signature : Option (Text × Text) → Bool
is_key_and_signature none = false
is_key_and_signature (some (key, signature)) =
    not (is_empty key) && (not (is_empty signature) && not (contains_char 58 signature))

-- A pair `token=key:signature`.
unfoldable pub is_download_token : Text × Text → Bool
is_download_token pair =
    text_eq (to_ascii_lowercase pair.0) (codes "token")
    && is_key_and_signature (split_once 58 pair.1)

unfoldable pub has_provider_signature : Url → Bool
has_provider_signature url =
    let has = has url.query_pairs in
    has (codes "x-amz-signature")
    || has (codes "x-goog-signature")
    || (has (codes "googleaccessid") && has (codes "signature") && has (codes "expires"))
    || (has (codes "awsaccesskeyid") && has (codes "signature") && has (codes "expires"))
    || (has (codes "key-pair-id")
        && has (codes "signature")
        && (has (codes "expires") || has (codes "policy")))
    || (has (codes "sig") && has (codes "se") && has (codes "sv"))
    || (has (codes "e") && any is_download_token url.query_pairs)
    || (has (codes "ossaccesskeyid") && has (codes "signature") && has (codes "expires"))
    || (has (codes "q-signature") && has (codes "q-ak") && has (codes "q-sign-algorithm"))
    || (has (codes "sign") && has (codes "key-time") && has (codes "x-cos-security-token"))
    || has (codes "hdnts")
