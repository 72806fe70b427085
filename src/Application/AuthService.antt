-- ===== src/Application/AuthService.antt =====
-- The authentication lifecycle, src/application/auth_service.rs, over the in-memory stores of
-- credentials and of account leases, with AccountLeaseGuard of src/acquisition/browser_pool.rs. Where
-- an operation awaits, the next batch of `schedule` happens: calls of other tasks and ticks of its own
-- heartbeat. The crates of the cipher and the refresh transport are parameters; a fresh token and the
-- draw of a nonce are arguments.
pub mod Waiting
pub mod Cipher
pub mod Operations
pub mod Reading
pub mod Refreshing
pub mod Provisioning
use werrss.Common.{
  ℕ, ℤ, pos, compareℤ, Ordering, is_positive, Bool, true, false, not, ◌||◌, Option, none, some,
  List, [], ◌∷◌, Text, codes, is_blank, leb, ◌==◌, if◌then◌else◌, Result, ok, err,
}
use werrss.Domain.Job.{Clock}
use werrss.Domain.Credentials.{
  CredentialError, empty_token, expiry_not_after_issue, WeReadCredentials, WeReadAccount,
  needs_refresh, refreshed,
}
use werrss.Persistence.AccountLeases.{
  AccountLeaseError, invalid_lease_duration, lease_lost, AccountLease, MemoryState, acquire,
  heartbeat, release,
}
use werrss.Persistence.AccountLeases.Holding.{LeaseCall, lease_step}
use werrss.Persistence.CredentialStore.{
  CredentialRecord, CredentialReplacement, CredentialRepositoryError, CredentialState, not_found,
  conflict, backend, invalid, unix_epoch, find_record, insert_account, replace, enroll_placeholder,
  set_disabled, delete,
}
use werrss.Persistence.CredentialStore.Records.{CredentialCall, credential_step}

pub record RefreshedCredentials : Type 0 where
  pub access_token : Text
  pub refresh_token : Option Text
  pub access_expires_at : ℕ

abbrev any_blank : Option Text → Bool
any_blank none = false
any_blank (some token) = is_blank token

unfoldable pub new_refreshed_credentials :
    Text → Option Text → ℕ → Result CredentialError RefreshedCredentials
new_refreshed_credentials access_token refresh_token access_expires_at =
    if is_blank access_token || any_blank refresh_token
    then err empty_token
    else if leb access_expires_at unix_epoch
    then err expiry_not_after_issue
    else ok (record {
      access_token = access_token;
      refresh_token = refresh_token;
      access_expires_at = access_expires_at;
    })

pub data CredentialRefreshError : Type 0 where
  authentication_required risk_controlled transient invalid_response : CredentialRefreshError

pub data CredentialCipherError : Type 0 where
  invalid_key invalid_ciphertext invalid_payload : CredentialCipherError

pub record AuthServiceConfig : Type 0 where
  pub refresh_before : ℤ
  pub lease_for : ℤ
  pub lease_heartbeat : ℤ

pub data AuthServiceConfigError : Type 0 where
  negative_refresh_window invalid_lease heartbeat_not_before_lease_expiry : AuthServiceConfigError

abbrev pub is_less : ℤ → ℤ → Bool
is_less a b = elim (compareℤ a b) [ Ordering.lt ↦ true | Ordering.eq ↦ false | Ordering.gt ↦ false ]

unfoldable pub new_auth_config : ℤ → ℤ → ℤ → Result AuthServiceConfigError AuthServiceConfig
new_auth_config refresh_before lease_for lease_heartbeat =
    if is_less refresh_before (pos 0)
    then err negative_refresh_window
    else if not (is_positive lease_for) || not (is_positive lease_heartbeat)
    then err invalid_lease
    else if not (is_less lease_heartbeat lease_for)
    then err heartbeat_not_before_lease_expiry
    else ok (record {
      refresh_before = refresh_before;
      lease_for = lease_for;
      lease_heartbeat = lease_heartbeat;
    })

pub record CredentialProvision : Type 0 where
  pub account_id : ℕ
  pub display_name : Text
  pub credentials : WeReadCredentials

pub data AuthRefreshOutcome : Type 0 where
  unchanged renewed : WeReadAccount → AuthRefreshOutcome

pub data AuthServiceError : Type 0 where
  account_not_found account_disabled setup_required account_busy : ℕ → AuthServiceError
  lease_error : AccountLeaseError → AuthServiceError
  repository_error : CredentialRepositoryError → AuthServiceError
  cipher_error : CredentialCipherError → AuthServiceError
  credentials_error : CredentialError → AuthServiceError
  refresh_error : CredentialRefreshError → AuthServiceError

pub record CredentialPayload : Type 0 where
  pub access_token : Text
  pub refresh_token : Text
  pub web_cookie : Option Text
  pub access_expires_at : ℕ

-- What the cipher calls, which is not part of the repository: ring's SHA-256 and ChaCha20-Poly1305,
-- its random bytes for the draw of a nonce, and serde_json on the payload. An account id is its
-- bytes.
pub record CipherCrates : Type 0 where
  pub sha256 : Text → List ℕ
  pub is_key : (key : List ℕ) → Bool
  pub fill : (draw : ℕ) → Option (List ℕ)
  pub seal : (key nonce : List ℕ) (account_id : ℕ) (plaintext : List ℕ) → Option (List ℕ)
  pub open_sealed : (key nonce : List ℕ) (account_id : ℕ) (sealed : List ℕ) → Option (List ℕ)
  pub to_vec : CredentialPayload → Option (List ℕ)
  pub from_slice : List ℕ → Option CredentialPayload

pub record RingCredentialCipher : Type 0 where
  pub key : List ℕ

-- The cipher with its crates and the refresh transport, with the clock that adds durations to
-- instants and the policy.
pub record Dependencies : Type 0 where
  pub clock : Clock
  pub crates : CipherCrates
  pub cipher : RingCredentialCipher
  pub refresh :
      (account_id : ℕ) (refresh_token : Text) → Result CredentialRefreshError RefreshedCredentials
  pub config : AuthServiceConfig

-- What happens elsewhere: a call on a store, or a tick of the operation's own heartbeat.
pub data Event : Type 0 where
  lease_call : LeaseCall → Event
  account_call : CredentialCall → Event
  ticks : Event

-- `beating` is the lease that the heartbeat task extends, `cancelled` the flag it shares with the
-- guard, and `beat_error` what it ended with.
pub record World : Type 0 where
  pub leases : MemoryState
  pub accounts : CredentialState
  pub beating : Option AccountLease
  pub cancelled : Bool
  pub beat_error : Option AccountLeaseError
  pub schedule : List (List Event)

abbrev pub Auth : Type 0 → Type 0
Auth A = World → World × Result AuthServiceError A

-- `?` on the result of a store operation, which is put back into the world.
abbrev pub in_accounts :
    {A B : Type 0}
    → World
    → CredentialState × Result CredentialRepositoryError A
    → (A → B)
    → World × Result AuthServiceError B
in_accounts w (accounts, ok a) f = (record w { accounts = accounts }, ok (f a))
in_accounts w (accounts, err e) f = (record w { accounts = accounts }, err (repository_error e))

-- `NotFound` is turned into the service's own error.
abbrev pub found_or :
    ℕ → {A : Type 0} → World × Result AuthServiceError A → World × Result AuthServiceError A
found_or id (w, err (repository_error (not_found other))) = (w, err (account_not_found id))
found_or id (w, result) = (w, result)

-- `?` on a record that awaits its setup or is disabled.
abbrev pub usable :
    {A : Type 0}
    → ℕ
    → Bool
    → Bool
    → World × Result AuthServiceError A
    → World
    → World × Result AuthServiceError A
usable id true disabled rest w = (w, err (setup_required id))
usable id false true rest w = (w, err (account_disabled id))
usable id false false rest w = rest

-- `AccountLeaseGuard::ensure_usable` and `?`, by the flag of the guard.
abbrev pub ensure_usable :
    {A : Type 0}
    → AccountLease
    → (cancelled : Bool) → World × Result AuthServiceError A
    → World
    → World × Result AuthServiceError A
ensure_usable lease true rest w = (w, err (lease_error (lease_lost lease.account_id)))
ensure_usable lease false rest w = rest

-- The heartbeat's error comes before the release's, and both before the operation's own result.
abbrev pub ended :
    {A : Type 0}
    → Option AccountLeaseError
    → Result AccountLeaseError (Unit {0})
    → World
    → Result AuthServiceError A
    → World × Result AuthServiceError A
ended (some e) released last result = (last, err (lease_error e))
ended none (err e) last result = (last, err (lease_error e))
ended none (ok _) last result = (last, result)

abbrev pub account_of : CredentialRecord → WeReadAccount
account_of r = r.account
