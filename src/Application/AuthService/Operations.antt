-- ===== src/Application/AuthService/Operations.antt =====
-- The operations of the authentication service, src/application/auth_service.rs.
use werrss.Common.{
  ℕ, is_positive, Bool, true, false, not, ◌||◌, Option, none, some, List, Text, ◌==◌, if◌then◌else◌,
  Result, ok, err,
}
use werrss.Domain.Credentials.{WeReadCredentials, WeReadAccount, needs_refresh, refreshed}
use werrss.Persistence.AccountLeases.{invalid_lease_duration, AccountLease, acquire, release}
use werrss.Persistence.CredentialStore.{
  CredentialRecord, CredentialReplacement, find_record, insert_account, replace, enroll_placeholder,
  set_disabled, delete,
}
use werrss.Application.AuthService.{
  World, Auth, Dependencies, AuthServiceError, account_not_found, setup_required, account_busy,
  lease_error, cipher_error, credentials_error, refresh_error, invalid_payload,
  RefreshedCredentials, AuthRefreshOutcome, unchanged, renewed, CredentialProvision, in_accounts,
  found_or, usable, ensure_usable, ended, account_of, is_less,
}
use werrss.Application.AuthService.Waiting.{pause}
use werrss.Application.AuthService.Cipher.{encrypt, decrypt}

module _ (deps : Dependencies) where
  -- `decrypt`, with the check of the expiry beside the ciphertext.
  unfoldable pub decrypt_record : CredentialRecord → Result AuthServiceError WeReadCredentials
  decrypt_record r =
      let id = r.account.account_id in
      if r.account.setup_required then err (setup_required id) else elim (r.ciphertext) [
        | none ↦ err (setup_required id)
        | some bytes ↦ elim (decrypt deps.crates deps.cipher id bytes) [
          | err e ↦ err (cipher_error e)
          | ok credentials ↦
              if expires_at credentials r.account.access_expires_at
              then ok credentials
              else err (cipher_error invalid_payload)
        ]
      ]
    where
      expires_at : WeReadCredentials → Option ℕ → Bool
      expires_at credentials none = false
      expires_at credentials (some at) = credentials.access_expires_at == at

  unfoldable pub load : ℕ → Auth CredentialRecord
  load id w =
      let seen = pause deps w in
      elim (find_record id seen.accounts) [
        | none ↦ (seen, err (account_not_found id))
        | some r ↦ (seen, ok r)
      ]

  -- `nonce` is the nonce that the encryption draws.
  unfoldable pub provision : (nonce : ℕ) → CredentialProvision → Auth WeReadAccount
  provision nonce p w = elim (encrypt deps.crates deps.cipher nonce p.account_id p.credentials) [
    | err e ↦ (w, err (cipher_error e))
    | ok bytes ↦
        let seen = pause deps w in
        in_accounts seen
          (insert_account p.account_id p.display_name bytes p.credentials.access_expires_at
            seen.accounts)
          account_of
  ]

  unfoldable pub set_account_disabled : ℕ → Bool → Auth WeReadAccount
  set_account_disabled id disabled w =
      let seen = pause deps w in
      found_or id (in_accounts seen (set_disabled id disabled seen.accounts) account_of)

  unfoldable pub delete_account : ℕ → Auth (Unit {0})
  delete_account id w =
      let seen = pause deps w in found_or id (in_accounts seen (delete id seen.accounts) (λ u. u))

  unfoldable pub credentials_of : ℕ → Auth WeReadCredentials
  credentials_of id w =
      let loaded = load id w in
      elim (loaded.1) [
        | err e ↦ (loaded.0, err e)
        | ok r ↦
            usable id r.account.setup_required r.account.disabled (loaded.0, decrypt_record r)
              loaded.0
      ]

  -- The repository's `replace`: it asks the lease store, and then waits for the records.
  unfoldable pub replace_record : CredentialReplacement → Auth WeReadAccount
  replace_record r w =
      let asked = pause deps w in
      let seen = pause deps asked in
      in_accounts seen (replace r (some asked.leases) seen.accounts) account_of

  -- A `CredentialReplacement` of what was read, under the lease.
  abbrev pub replacement :
      WeReadAccount → Text → List ℕ → WeReadCredentials → AccountLease → CredentialReplacement
  replacement account display_name bytes credentials lease = record {
    account_id = account.account_id;
    display_name = display_name;
    expected_version = account.credential_version;
    ciphertext = bytes;
    access_expires_at = credentials.access_expires_at;
    lease_owner = lease.owner;
    lease_token = lease.token;
  }

  -- From the answer of the transport on; `now` is the time that was read first.
  unfoldable pub store_refreshed :
      (nonce now id : ℕ)
      → AccountLease
      → CredentialRecord
      → WeReadCredentials
      → RefreshedCredentials
      → Auth AuthRefreshOutcome
  store_refreshed nonce now id lease record_read credentials answer w =
      elim (refreshed credentials answer.access_token answer.refresh_token answer.access_expires_at
        now) [
          | err e ↦ (w, err (credentials_error e))
          | ok fresh ↦ elim (encrypt deps.crates deps.cipher nonce id fresh) [
            | err e ↦ (w, err (cipher_error e))
            | ok bytes ↦
                let answer_of_store =
                  replace_record
                    (record (replacement record_read.account record_read.account.display_name bytes
                      fresh lease) { account_id = id })
                    w in
                elim (answer_of_store.1) [
                  | err e ↦ (answer_of_store.0, err e)
                  | ok account ↦ (answer_of_store.0, ok (renewed account))
                ]
          ]
        ]

  -- From the first check of the lease on.
  unfoldable pub exchange :
      (nonce now id : ℕ)
      → AccountLease
      → CredentialRecord
      → WeReadCredentials
      → Auth AuthRefreshOutcome
  exchange nonce now id lease current credentials w =
      let answered = pause deps w in
      ensure_usable lease w.cancelled
        (elim (deps.refresh id credentials.refresh_token) [
          | err e ↦ (answered, err (refresh_error e))
          | ok answer ↦
              ensure_usable lease answered.cancelled
                (store_refreshed nonce now id lease current credentials answer answered) answered
        ])
        w

  -- From the second reading of the record on.
  unfoldable pub refresh_current :
      (nonce now id : ℕ) → AccountLease → CredentialRecord → Auth AuthRefreshOutcome
  refresh_current nonce now id lease current w =
      usable id current.account.setup_required current.account.disabled
        (elim (decrypt_record current) [
          | err e ↦ (w, err e)
          | ok credentials ↦
              if not (needs_refresh deps.clock credentials now deps.config.refresh_before)
              then (w, ok (unchanged current.account))
              else exchange nonce now id lease current credentials w
        ])
        w

  unfoldable pub refresh_under_lease : (nonce id : ℕ) → AccountLease → Auth AuthRefreshOutcome
  refresh_under_lease nonce id lease w =
      let started = pause deps w in
      let loaded = load id started in
      elim (loaded.1) [
        | err e ↦ (loaded.0, err e)
        | ok current ↦ refresh_current nonce started.accounts.now id lease current loaded.0
      ]

  -- Stopping the heartbeat and releasing the lease behind an operation, whose result comes last.
  unfoldable pub end_lease :
      {A : Type 0}
      → AccountLease
      → World × Result AuthServiceError A
      → World × Result AuthServiceError A
  end_lease lease (w, result) =
      let stopped = record (pause deps w) { beating = none; cancelled = true } in
      let waited = pause deps stopped in
      let released = release lease.account_id lease.owner lease.token waited.leases in
      let last = record waited { leases = released.0 } in
      ended waited.beat_error released.1 last result

  unfoldable pub under_lease :
      {A : Type 0} → (fresh id : ℕ) (owner : Text) → (AccountLease → Auth A) → Auth A
  under_lease fresh id owner body w =
      let seen = pause deps w in
      let acquired = acquire deps.clock fresh id owner deps.config.lease_for seen.leases in
      elim (acquired.1) [
        | err e ↦ (record seen { leases = acquired.0 }, err (lease_error e))
        | ok granted ↦ elim granted [
          | none ↦ (record seen { leases = acquired.0 }, err (account_busy id))
          | some lease ↦
              let held = record seen {
                leases = acquired.0;
                cancelled = false;
                beat_error = none;
              } in
              if not (is_positive deps.config.lease_heartbeat)
                || not (is_positive deps.config.lease_for)
                || not (is_less deps.config.lease_heartbeat deps.config.lease_for)
              then (held, err (lease_error invalid_lease_duration))
              else end_lease lease (body lease (record held { beating = some lease }))
        ]
      ]

  unfoldable pub refresh_if_needed : (fresh nonce id : ℕ) (owner : Text) → Auth AuthRefreshOutcome
  refresh_if_needed fresh nonce id owner w =
      let started = pause deps w in
      let now = started.accounts.now in
      let loaded = load id started in
      elim (loaded.1) [
        | err e ↦ (loaded.0, err e)
        | ok initial ↦
            usable id initial.account.setup_required initial.account.disabled
              (elim (decrypt_record initial) [
                | err e ↦ (loaded.0, err e)
                | ok credentials ↦
                    if not (needs_refresh deps.clock credentials now deps.config.refresh_before)
                    then (loaded.0, ok (unchanged initial.account))
                    else under_lease fresh id owner (refresh_under_lease nonce id) loaded.0
              ])
              loaded.0
      ]

  unfoldable pub enroll : CredentialProvision → List ℕ → AccountLease → Auth WeReadAccount
  enroll p bytes lease w =
      let asked = pause deps w in
      let seen = pause deps asked in
      in_accounts seen
        (enroll_placeholder p.account_id p.display_name bytes p.credentials.access_expires_at
          lease.owner lease.token (some asked.leases) seen.accounts)
        account_of

  -- The block under the lease of `replace`.
  unfoldable pub replace_under_lease :
      (nonce : ℕ) → CredentialProvision → AccountLease → Auth WeReadAccount
  replace_under_lease nonce p lease w =
      let loaded = load p.account_id w in
      elim (loaded.1) [
        | err e ↦ (loaded.0, err e)
        | ok current ↦ elim (encrypt deps.crates deps.cipher nonce p.account_id p.credentials) [
          | err e ↦ (loaded.0, err (cipher_error e))
          | ok bytes ↦
              ensure_usable lease loaded.0.cancelled
                (if current.account.setup_required
                  then enroll p bytes lease loaded.0
                  else replace_record
                      (record (replacement current.account p.display_name bytes p.credentials
                        lease) { account_id = p.account_id })
                      loaded.0)
                loaded.0
        ]
      ]

  unfoldable pub replace_credentials :
      (fresh nonce : ℕ) → CredentialProvision → (owner : Text) → Auth WeReadAccount
  replace_credentials fresh nonce p owner =
      under_lease fresh p.account_id owner (replace_under_lease nonce p)
