-- ===== src/Application/AuthService/Provisioning.antt =====
-- What provisioned credentials read back as, and the leases that a refresh leaves,
-- src/application/auth_service.rs.
use werrss.Common.{
  ℤ, ℕ, ◌≡◌, ◌⊎◌, inl, inr, refl, subst, ◌∙◌, ap, Bool, true, false, not, Option, none, some, List,
  Text, Result, ok, err, map_get, map_get-map_insert, map_get-map_remove, Result-cases, Bool-cases,
  Option-cases, is_some, is_positive, ◌||◌, arith, if◌then◌else◌,
}
use werrss.Domain.Job.{Clock}
use werrss.Domain.Credentials.{WeReadAccount}
use werrss.Persistence.AccountLeases.{
  AccountLease, is_held, MemoryState, AccountLeaseError, invalid_lease_duration, any_matches,
  acquire, release,
}
use werrss.Persistence.CredentialStore.{
  CredentialState, CredentialRepositoryError, validate_record, conflict, put, enrolled,
  insert_account,
}
use werrss.Application.AuthService.{
  World, Dependencies, CredentialProvision, AuthServiceError, Auth, lease_error, is_less, ended,
}
use werrss.Application.AuthService.Waiting.{pause}
use werrss.Application.AuthService.Cipher.{encrypt}
use werrss.Application.AuthService.Cipher.Opening.{Opens, IsCredentials, decrypt-encrypt}
use werrss.Persistence.CredentialStore.Records.{validate_record-IsInput}
use werrss.Application.AuthService.Operations.{provision, credentials_of, end_lease, under_lease}
use werrss.Application.AuthService.Reading.{
  quiet, load-finds, decrypt_record-opens, credentials_of-reads,
}

insert_outcome :
    (id : ℕ) (name : Text) (bytes : List ℕ) (expires : ℕ) (s : CredentialState)
    → ((e : CredentialRepositoryError) × (insert_account id name bytes expires s ≡ (s, err e)))
      ⊎ ((validate_record id name bytes expires ≡ ok tt)
          × (insert_account id name bytes expires s
              ≡ put id (enrolled id name 1 expires false bytes) s))
unfolding insert_account
insert_outcome id name bytes expires s =
    elim (Result-cases (validate_record id name bytes expires)) [
      | inl (e, bad) ↦ inl (e, rw (bad, insert_account) refl)
      | inr (tt, good) ↦ elim (Bool-cases (is_some (map_get id s.records))) [
        | inl taken ↦ inl (conflict id, rw (good, taken, insert_account) refl)
        | inr free ↦ inr (good, rw (good, free, insert_account) refl)
      ]
    ]

release_frees :
    (id : ℕ) (owner : Text) (token : ℕ) (s : MemoryState)
    → (release id owner token s).1 ≡ ok tt
    → is_held id owner token (release id owner token s).0 ≡ false
unfolding release is_held any_matches
release_frees id owner token s done = ground (arith, done, map_get-map_remove id id s.leases)

acquire_fields :
    (c : Clock) (fresh id : ℕ) (owner : Text) (lease_for : ℤ) (s : MemoryState)
    (lease : AccountLease)
    → (acquire c fresh id owner lease_for s).1 ≡ ok (some lease)
    → (lease.account_id ≡ id) × ((lease.owner ≡ owner) × (lease.token ≡ fresh))
unfolding acquire
acquire_fields c fresh id owner lease_for s lease done = ground arith

module _ (deps : Dependencies) where
  -- What is said of an answer to `provision`.
  abbrev Provisioned : CredentialProvision → World × Result AuthServiceError WeReadAccount → Type 0
  Provisioned p (last, err e) = Unit {0}
  Provisioned p (last, ok a) =
      (credentials_of deps p.account_id (quiet last) ≡ (quiet last, ok (p.credentials)))
      × ((a.credential_version ≡ 1)
          × ((a.disabled ≡ false) × (a.access_expires_at ≡ some (p.credentials.access_expires_at))))

  provision-Provisioned :
      Opens deps.crates
      → (nonce : ℕ) (p : CredentialProvision) (w : World) → IsCredentials p.credentials
      → Provisioned p (provision deps nonce p w)
  unfolding provision
  provision-Provisioned o nonce p w i =
      elim (Result-cases (encrypt deps.crates deps.cipher nonce p.account_id p.credentials)) [
        | inl (e, bad) ↦ rw (bad, provision) tt
        | inr (bytes, sealed) ↦
            let id = p.account_id in
            let seen = pause deps w in
            let next = enrolled id p.display_name 1 p.credentials.access_expires_at false bytes in
            let last = record seen { accounts = (put id next seen.accounts).0 } in
            elim (insert_outcome id p.display_name bytes p.credentials.access_expires_at
              seen.accounts) [
                | inl (e, refused) ↦ rw (sealed, refused, provision) tt
                | inr (valid, stored) ↦
                    let stands : map_get id last.accounts.records ≡ some next =
                      ground (arith, map_get-map_insert id id next seen.accounts.records) in
                    rw (sealed, stored, provision)
                      (
                        credentials_of-reads deps id next p.credentials (quiet last)
                            (load-finds deps id next last stands) refl refl
                            (decrypt_record-opens deps next p.credentials bytes refl refl
                              (decrypt-encrypt deps.crates deps.cipher nonce id p.credentials bytes
                                o i
                                (validate_record-IsInput id p.display_name bytes
                                  p.credentials.access_expires_at valid).expiring
                                sealed)
                              refl),
                        (refl, (refl, refl)),
                      )
              ]
      ]

  -- With crates that keep to their documents, valid credentials that were provisioned are what the
  -- account's credentials are, until something else happens; the account is enabled, in version 1,
  -- with their expiry.
  pub provision-credentials_of :
      Opens deps.crates
      → (nonce : ℕ) (p : CredentialProvision) (w last : World) (a : WeReadAccount)
      → IsCredentials p.credentials
      → provision deps nonce p w ≡ (last, ok a)
      → (credentials_of deps p.account_id (quiet last) ≡ (quiet last, ok (p.credentials)))
        × ((a.credential_version ≡ 1)
            × ((a.disabled ≡ false)
                × (a.access_expires_at ≡ some (p.credentials.access_expires_at))))
  provision-credentials_of o nonce p w last a i done =
      subst (Provisioned p) done (provision-Provisioned o nonce p w i)

  -- Nothing is said of an error.
  abbrev Free : {A : Type 0} → ℕ → Text → ℕ → World × Result AuthServiceError A → Type 0
  Free id owner token (last, err e) = Unit {0}
  Free id owner token (last, ok a) = is_held id owner token last.leases ≡ false

  ended-Free :
      {A : Type 0} (id : ℕ) (owner : Text) (token : ℕ) (beat : Option AccountLeaseError)
      (released : Result AccountLeaseError (Unit {0})) (last : World)
      (result : Result AuthServiceError A)
      → (released ≡ ok tt → is_held id owner token last.leases ≡ false)
      → Free id owner token (ended beat released last result)
  ended-Free id owner token (some e) released last result free = tt
  ended-Free id owner token none (err e) last result free = tt
  ended-Free id owner token none (ok u) last (err e) free = tt
  ended-Free id owner token none (ok u) last (ok a) free = free refl

  end_lease-Free :
      {A : Type 0} (lease : AccountLease) (p : World × Result AuthServiceError A)
      → Free lease.account_id lease.owner lease.token (end_lease deps lease p)
  unfolding end_lease
  end_lease-Free lease (w, r) =
      let waited = pause deps (record (pause deps w) { beating = none; cancelled = true }) in
      let released = release lease.account_id lease.owner lease.token waited.leases in
      ended-Free lease.account_id lease.owner lease.token waited.beat_error released.1
        (record waited { leases = released.0 }) r
        (release_frees lease.account_id lease.owner lease.token waited.leases)

  if-Free :
      {A : Type 0} (id : ℕ) (owner : Text) (token : ℕ) (b : Bool)
      (p q : World × Result AuthServiceError A)
      → Free id owner token p
      → Free id owner token q
      → Free id owner token (if b then p else q)
  if-Free id owner token true p q f g = f
  if-Free id owner token false p q f g = g

  under_lease-Free :
      {A : Type 0} (fresh id : ℕ) (owner : Text) (body : AccountLease → Auth A) (w : World)
      → Free id owner fresh (under_lease deps fresh id owner body w)
  unfolding under_lease
  under_lease-Free fresh id owner body w =
      let seen = pause deps w in
      let acquired = acquire deps.clock fresh id owner deps.config.lease_for seen.leases in
      elim (Result-cases (acquired.1)) [
        | inl (e, refused) ↦ rw (refused, under_lease) tt
        | inr (granted, done) ↦ elim (Option-cases granted) [
          | inl busy ↦ rw (done, busy, under_lease) tt
          | inr (lease, given) ↦
              let (same_id, (same_owner, same_token)) =
                acquire_fields deps.clock fresh id owner deps.config.lease_for seen.leases lease
                  (done ∙ ap ok given) in
              subst (λ i. Free i owner fresh (under_lease deps fresh id owner body w)) same_id
                (subst (λ o. Free lease.account_id o fresh (under_lease deps fresh id owner body w))
                  same_owner
                  (subst
                    (λ t.
                      Free lease.account_id lease.owner t (under_lease deps fresh id owner body w))
                    same_token
                    (rw (done, given, under_lease)
                      (let held = record seen {
                        leases = acquired.0;
                        cancelled = false;
                        beat_error = none;
                      } in
                        if-Free lease.account_id lease.owner lease.token
                          (not (is_positive deps.config.lease_heartbeat)
                            || not (is_positive deps.config.lease_for)
                            || not (is_less deps.config.lease_heartbeat deps.config.lease_for))
                          (held, err (lease_error invalid_lease_duration))
                          (end_lease deps lease (body lease (record held { beating = some lease })))
                          tt
                          (end_lease-Free lease
                            (body lease (record held { beating = some lease })))))))
        ]
      ]

  -- An operation under an account lease that ends without an error has given its lease back:
  -- its token does not hold the account any more.
  pub under_lease-frees :
      {A : Type 0} (fresh id : ℕ) (owner : Text) (body : AccountLease → Auth A) (w last : World)
      (a : A)
      → under_lease deps fresh id owner body w ≡ (last, ok a)
      → is_held id owner fresh last.leases ≡ false
  under_lease-frees fresh id owner body w last a done =
      subst (Free id owner fresh) done (under_lease-Free fresh id owner body w)
