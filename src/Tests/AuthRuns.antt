-- ===== src/Tests/AuthRuns.antt =====
-- Runs of the credential store and of the authentication service,
-- src/persistence/repositories/credential_repository.rs and src/application/auth_service.rs.
use werrss.Common.{
  ℕ, ◌+◌, ◌-◌, ◌^◌, ◌≤◌, ◌<◌, ◌≡◌, refl, ◌⊎◌, inl, inr, true, false, not, ◌&&◌, Bool, Option, none,
  some, List, [], ◌∷◌, All, Text, codes, text_eq, text_eq_iff, is_some, pos, map_get, Result, ok,
  err, if◌then◌else◌, arith,
}
use werrss.Domain.Credentials.{
  WeReadCredentials, WeReadAccount, add_one_i64, new_credentials, with_web_cookie,
  invalid_web_cookie,
}
use werrss.Persistence.AccountLeases.{AccountLease, MemoryState, is_held, empty_at}
use werrss.Persistence.AccountLeases.Holding.{heartbeats}
use werrss.Persistence.CredentialStore.{
  CredentialRecord, CredentialReplacement, CredentialState, conflict, unix_epoch, replace, list,
  list_all, put, enrolled, replaced_record, find_record,
}
use werrss.Persistence.CredentialStore.Records.{
  IsRecord, CredentialCall, inserts, replaces, disables, sets_clock, credential_run, AllRecords,
  credential_run-AllRecords,
}
use werrss.Persistence.CredentialStore.Versions.{replace_once}
use werrss.Application.AuthService.{
  Dependencies, World, CredentialProvision, invalid_key, invalid_ciphertext, new_auth_config,
  heartbeat_not_before_lease_expiry, transient, renewed, ticks, lease_call, AuthServiceError,
  AuthRefreshOutcome, new_refreshed_credentials,
}
use werrss.Application.AuthService.Operations.{
  provision, credentials_of, refresh_under_lease, refresh_if_needed, under_lease,
  replace_under_lease, replace_credentials,
}
use werrss.Application.AuthService.Cipher.Opening.{IsCredentials}
use werrss.Application.AuthService.Reading.{quiet}
use werrss.Tests.CipherRuns.{test_crates, test_cipher, sealed_until, test_crates-Opens}
use werrss.Application.AuthService.Provisioning.{provision-credentials_of, under_lease-frees}
use werrss.Tests.Data.{test_clock, worker_a, worker_b}

abbrev later : ℕ → ℕ
later n = unix_epoch + n

abbrev secrets : ℕ → WeReadCredentials
secrets expires = record {
  access_token = codes "a";
  refresh_token = codes "r";
  web_cookie = none;
  access_expires_at = expires;
}

abbrev test_dependencies : Dependencies
test_dependencies = record {
  clock = test_clock;
  crates = test_crates;
  cipher = test_cipher;
  refresh = λ id token.
      ok (record { access_token = codes "a"; refresh_token = none; access_expires_at = later 900 });
  config = record { refresh_before = pos 50; lease_for = pos 30; lease_heartbeat = pos 10 };
}

secrets-IsCredentials : (expires : ℕ) → IsCredentials (secrets expires)
unfolding werrss.Common.is_blank
secrets-IsCredentials expires = record { named = refl; renewable = refl; cookie = refl }

abbrev no_accounts : CredentialState
no_accounts = record { now = later 100; records = [] }

abbrev world_of : CredentialState → World
world_of accounts = record {
  leases = empty_at (later 100);
  accounts = accounts;
  beating = none;
  cancelled = false;
  beat_error = none;
  schedule = (lease_call (heartbeats 5 worker_b 9 (pos 30)) ∷ []) ∷ (ticks ∷ []) ∷ [];
}

abbrev a_provision : CredentialProvision
a_provision = record {
  account_id = 5;
  display_name = codes "me";
  credentials = secrets (later 120);
}

abbrev an_account : CredentialRecord
an_account = enrolled 5 (codes "me") 1 (later 120) false (sealed_until (later 120))

abbrev one_account : CredentialState
one_account = record no_accounts { records = (5, an_account) ∷ [] }

abbrev a_replacement : CredentialReplacement
a_replacement = record {
  account_id = 5;
  display_name = codes "me";
  expected_version = 1;
  ciphertext = sealed_until (later 200);
  access_expires_at = later 200;
  lease_owner = worker_a;
  lease_token = 70;
}

refused_inputs :
    (new_auth_config (pos 0) (pos 10) (pos 10) ≡ err heartbeat_not_before_lease_expiry)
    × (with_web_cookie (secrets 1) (codes "a=1; =2") ≡ err invalid_web_cookie)
    × (new_refreshed_credentials (codes "a") none (later 900)
        ≡ ok (record {
          access_token = codes "a";
          refresh_token = none;
          access_expires_at = later 900;
        }))
unfolding new_auth_config with_web_cookie werrss.Common.is_blank werrss.Domain.UrlPolicy.any
    werrss.Common.split werrss.Domain.UrlPolicy.split_once new_refreshed_credentials
refused_inputs = (refl, refl, refl)

one_listed : (list one_account ≡ an_account ∷ []) × (list_all one_account ≡ an_account ∷ [])
unfolding list werrss.Persistence.CredentialStore.sort_records werrss.Common.filter
    werrss.Persistence.CredentialStore.values werrss.Persistence.CredentialStore.insert_record
    list_all
one_listed = (refl, refl)

abbrev account_history : List CredentialCall
account_history =
    inserts 5 (codes " me ") (sealed_until (later 120)) (later 120)
    ∷ disables 5 true
    ∷ replaces a_replacement none
    ∷ []

credential_run-AllRecords_example : AllRecords 3 (credential_run account_history no_accounts)
credential_run-AllRecords_example =
    credential_run-AllRecords 0 account_history no_accounts (omega arith) tt

an_account-IsRecord : IsRecord 1 (5, an_account)
unfolding werrss.Common.trim
an_account-IsRecord = record {
  named = refl;
  account = omega arith;
  titled = refl;
  trimmed = refl;
  counted = omega arith;
  bounded = omega arith;
  set_up = inl (
    refl,
    (sealed_until (later 120), (refl, (λ e. ground arith, (later 120, (refl, omega arith))))),
  );
}

-- The largest version of an `i64` wraps to a negative one.
wraps : add_one_i64 (2 ^ 63 - 1) ≡ 2 ^ 63
wraps = refl

abbrev after_replacement : CredentialState
after_replacement = (replace a_replacement none one_account).0

replace_once_example :
    ((replaced_record a_replacement an_account).account.credential_version ≡ 1 + 1)
    × (replace a_replacement none (credential_run (sets_clock 7 ∷ []) after_replacement)
        ≡ (credential_run (sets_clock 7 ∷ []) after_replacement, err (conflict 5)))
unfolding replace werrss.Persistence.CredentialStore.validate_record werrss.Common.is_blank map_get
replace_once_example =
    replace_once 1 a_replacement none one_account after_replacement
      (replaced_record a_replacement an_account) (sets_clock 7 ∷ []) a_replacement none
      (an_account-IsRecord, tt) (omega arith) refl (tt, tt) refl (omega arith) refl

abbrev provisioned : World
provisioned = (provision test_dependencies 3 a_provision (world_of no_accounts)).0

provision-credentials_of_example :
    (credentials_of test_dependencies 5 (quiet provisioned)
      ≡ (quiet provisioned, ok (secrets (later 120))))
    × ((an_account.account.credential_version ≡ 1)
        × ((an_account.account.disabled ≡ false)
            × (an_account.account.access_expires_at ≡ some (later 120))))
unfolding provision text_eq werrss.Persistence.CredentialStore.insert_account
    werrss.Persistence.CredentialStore.validate_record werrss.Common.is_blank map_get
    werrss.Application.AuthService.Waiting.pause werrss.Application.AuthService.Waiting.all_happen
    werrss.Application.AuthService.Waiting.happen werrss.Application.AuthService.Cipher.encrypt
provision-credentials_of_example =
    provision-credentials_of test_dependencies test_crates-Opens 3 a_provision
      (world_of no_accounts) provisioned (an_account.account) (secrets-IsCredentials (later 120))
      refl

abbrev a_lease : AccountLease
a_lease = record {
  account_id = 5;
  owner = worker_a;
  token = 70;
  lease_until = later 130;
  heartbeat_at = later 100;
}

abbrev leased_world : World
leased_world = record (world_of one_account) {
  leases = record { now = later 100; leases = (5, a_lease) ∷ [] };
  beating = some a_lease;
}

abbrev refreshed_account : WeReadAccount
refreshed_account = (enrolled 5 (codes "me") 2 (later 900) false (sealed_until (later 900))).account

abbrev refreshed_world : World
refreshed_world = (refresh_if_needed test_dependencies 70 3 5 worker_a (world_of one_account)).0

refreshes :
    refresh_if_needed test_dependencies 70 3 5 worker_a (world_of one_account)
    ≡ (refreshed_world, ok (renewed refreshed_account))
unfolding refresh_if_needed werrss.Application.AuthService.Operations.load find_record map_get
    werrss.Application.AuthService.Waiting.pause werrss.Application.AuthService.Waiting.all_happen
    werrss.Application.AuthService.Waiting.happen werrss.Application.AuthService.Waiting.tick
    werrss.Application.AuthService.Operations.decrypt_record werrss.Domain.Credentials.needs_refresh
    under_lease werrss.Persistence.AccountLeases.acquire
    werrss.Persistence.AccountLeases.validate_inputs
    werrss.Persistence.AccountLeases.validate_account_and_owner
    werrss.Persistence.AccountLeases.validate_account_id werrss.Common.is_blank werrss.Common.trim
    werrss.Common.trim_start werrss.Common.is_whitespace werrss.Persistence.AccountLeases.any_live
    werrss.Persistence.AccountLeases.is_live_at werrss.Persistence.AccountLeases.Holding.lease_step
    werrss.Persistence.AccountLeases.heartbeat werrss.Persistence.AccountLeases.any_matches
    werrss.Persistence.AccountLeases.matches werrss.Persistence.AccountLeases.release is_held
    text_eq werrss.Common.map_insert werrss.Common.map_remove refresh_under_lease
    werrss.Application.AuthService.Operations.refresh_current
    werrss.Application.AuthService.Operations.exchange
    werrss.Application.AuthService.Operations.store_refreshed werrss.Domain.Credentials.refreshed
    new_credentials werrss.Application.AuthService.Operations.replace_record replace
    werrss.Persistence.CredentialStore.validate_record
    werrss.Application.AuthService.Operations.end_lease empty_at
    werrss.Application.AuthService.Cipher.encrypt werrss.Application.AuthService.Cipher.decrypt
    werrss.Application.AuthService.Cipher.decrypt_parts
    werrss.Application.AuthService.Cipher.restored
refreshes = refl

under_lease-frees_example :
    is_held 5 worker_a 70
      (under_lease test_dependencies 70 5 worker_a
        (replace_under_lease test_dependencies 3 a_provision)
        (world_of one_account)).0.leases
    ≡ false
unfolding werrss.Application.AuthService.Operations.load find_record map_get
    werrss.Application.AuthService.Waiting.pause werrss.Application.AuthService.Waiting.all_happen
    werrss.Application.AuthService.Waiting.happen werrss.Application.AuthService.Waiting.tick
    werrss.Application.AuthService.Operations.decrypt_record werrss.Domain.Credentials.needs_refresh
    under_lease werrss.Persistence.AccountLeases.acquire
    werrss.Persistence.AccountLeases.validate_inputs
    werrss.Persistence.AccountLeases.validate_account_and_owner
    werrss.Persistence.AccountLeases.validate_account_id werrss.Common.is_blank werrss.Common.trim
    werrss.Common.trim_start werrss.Common.is_whitespace werrss.Persistence.AccountLeases.any_live
    werrss.Persistence.AccountLeases.is_live_at werrss.Persistence.AccountLeases.Holding.lease_step
    werrss.Persistence.AccountLeases.heartbeat werrss.Persistence.AccountLeases.any_matches
    werrss.Persistence.AccountLeases.matches werrss.Persistence.AccountLeases.release text_eq
    werrss.Common.map_insert werrss.Common.map_remove werrss.Domain.Credentials.refreshed
    new_credentials werrss.Application.AuthService.Operations.replace_record replace
    werrss.Persistence.CredentialStore.validate_record
    werrss.Application.AuthService.Operations.end_lease replace_under_lease empty_at is_held
    werrss.Application.AuthService.Cipher.encrypt
under_lease-frees_example =
    under_lease-frees test_dependencies 70 5 worker_a
      (replace_under_lease test_dependencies 3 a_provision) (world_of one_account)
      (under_lease test_dependencies 70 5 worker_a
        (replace_under_lease test_dependencies 3 a_provision) (world_of one_account)).0
      (enrolled 5 (codes "me") 2 (later 120) false (sealed_until (later 120))).account refl
