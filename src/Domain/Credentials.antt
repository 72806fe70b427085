-- ===== src/Domain/Credentials.antt =====
-- Refreshable credentials and the accounts they belong to, src/domain/credentials.rs. A secret is its
-- text. The version of an account, an `i64`, is its bit pattern, a number below 2 ^ 64.
use werrss.Common.{
  ℕ, ◌+◌, ◌%◌, ◌^◌, ℤ, Bool, true, ◌||◌, ◌&&◌, Option, none, some, Text, is_blank, trim, ltb, leb,
  if◌then◌else◌, split, Result, ok, err,
}
use werrss.Domain.Job.{Clock}
use werrss.Domain.UrlPolicy.{any, split_once}

pub data CredentialError : Type 0 where
  empty_token expiry_not_after_issue invalid_web_cookie : CredentialError

pub record WeReadCredentials : Type 0 where
  pub access_token : Text
  pub refresh_token : Text
  pub web_cookie : Option Text
  pub access_expires_at : ℕ

unfoldable pub new_credentials :
    (access_token refresh_token : Text) (access_expires_at issued_at : ℕ)
    → Result CredentialError WeReadCredentials
new_credentials access_token refresh_token access_expires_at issued_at =
    if is_blank access_token || is_blank refresh_token
    then err empty_token
    else if leb access_expires_at issued_at
    then err expiry_not_after_issue
    else ok (record {
      access_token = access_token;
      refresh_token = refresh_token;
      web_cookie = none;
      access_expires_at = access_expires_at;
    })

-- `char::is_control`.
abbrev is_control : ℕ → Bool
is_control c = leb c 31 || (leb 127 c && leb c 159)

abbrev lacks_name : Option (Text × Text) → Bool
lacks_name none = true
lacks_name (some (name, value)) = is_blank name

-- A part between semicolons that is no `name=value`.
abbrev is_bad_part : Text → Bool
is_bad_part part = is_blank part || lacks_name (split_once 61 (trim part))

unfoldable pub with_web_cookie :
    WeReadCredentials → (cookie_header : Text) → Result CredentialError WeReadCredentials
with_web_cookie credentials cookie_header =
    if is_blank cookie_header
      || any is_control cookie_header
      || any is_bad_part (split 59 cookie_header)
    then err invalid_web_cookie
    else ok (record credentials { web_cookie = some cookie_header })

abbrev is_past : ℕ → Option ℕ → Bool
is_past access_expires_at none = true
is_past access_expires_at (some deadline) = leb access_expires_at deadline

unfoldable pub needs_refresh : Clock → WeReadCredentials → ℕ → ℤ → Bool
needs_refresh clock credentials now refresh_before =
    is_past credentials.access_expires_at (clock.checked_add_signed now refresh_before)

abbrev pub unwrap_or : Option Text → Text → Text
unwrap_or none text = text
unwrap_or (some other) text = other

abbrev pub with_cookie_of :
    Option Text → WeReadCredentials → Result CredentialError WeReadCredentials
with_cookie_of none credentials = ok credentials
with_cookie_of (some cookie) credentials = with_web_cookie credentials cookie

unfoldable pub refreshed :
    WeReadCredentials
    → (access_token : Text) (refresh_token : Option Text) (access_expires_at issued_at : ℕ)
    → Result CredentialError WeReadCredentials
refreshed self access_token refresh_token access_expires_at issued_at =
    elim (new_credentials access_token (unwrap_or refresh_token self.refresh_token)
      access_expires_at issued_at) [
        | err e ↦ err e
        | ok credentials ↦ with_cookie_of self.web_cookie credentials
      ]

-- An `i64` is above 0.
abbrev pub is_positive_i64 : ℕ → Bool
is_positive_i64 n = ltb 0 n && ltb n (2 ^ 63)

-- `n + 1` on an `i64`, which wraps in a release build; a debug build panics at the largest one.
abbrev pub add_one_i64 : ℕ → ℕ
add_one_i64 n = (n + 1) % 2 ^ 64

pub record WeReadAccount : Type 0 where
  pub account_id : ℕ
  pub display_name : Text
  pub credential_version : ℕ
  pub access_expires_at : Option ℕ
  pub disabled : Bool
  pub setup_required : Bool
