-- ===== src/Application/AuthService/Reading.antt =====
-- Reading credentials that stand in the store, src/application/auth_service.rs.
use werrss.Common.{
  ℕ, ◌≡◌, ◌⊎◌, inl, inr, refl, ap, true, false, some, List, [], ok, map_get, Bool-cases, arith,
}
use werrss.Domain.Credentials.{WeReadCredentials, WeReadAccount}
use werrss.Persistence.CredentialStore.{CredentialRecord, find_record}
use werrss.Application.AuthService.{World, Dependencies}
use werrss.Application.AuthService.Waiting.{pause}
use werrss.Application.AuthService.Cipher.{decrypt}
use werrss.Application.AuthService.Operations.{load, decrypt_record, credentials_of}

abbrev pub quiet : World → World
quiet w = record w { schedule = [] }

module _ (deps : Dependencies) where
  -- The credentials of the account can be read, and expire when the account says.
  abbrev pub Readable : ℕ → WeReadAccount → World → Type 0
  Readable id a w =
      (c : WeReadCredentials) × ((credentials_of deps id (quiet w) ≡ (quiet w, ok c))
        × (a.access_expires_at ≡ some c.access_expires_at))

  pub decrypt_record-opens :
      (r : CredentialRecord) (c : WeReadCredentials) (bytes : List ℕ)
      → r.account.setup_required ≡ false
      → r.ciphertext ≡ some bytes
      → decrypt deps.crates deps.cipher r.account.account_id bytes ≡ ok c
      → r.account.access_expires_at ≡ some c.access_expires_at
      → decrypt_record deps r ≡ ok c
  unfolding decrypt_record
  decrypt_record-opens r c bytes ready sealed opens expires = ground arith

  pub load-finds :
      (id : ℕ) (r : CredentialRecord) (w : World)
      → map_get id w.accounts.records ≡ some r
      → load deps id (quiet w) ≡ (quiet w, ok r)
  unfolding load pause find_record
  load-finds id r w stands = rw (stands, load, find_record) refl

  pub credentials_of-reads :
      (id : ℕ) (r : CredentialRecord) (c : WeReadCredentials) (w : World)
      → load deps id w ≡ (w, ok r)
      → r.account.setup_required ≡ false
      → r.account.disabled ≡ false
      → decrypt_record deps r ≡ ok c
      → credentials_of deps id w ≡ (w, ok c)
  unfolding credentials_of
  credentials_of-reads id r c w loaded ready on opened =
      rw (loaded, opened, ready, on, credentials_of) (ap (λ p. (p.0, ok c)) loaded)

  -- A record with sealed credentials that stands in the store can be read, unless it is disabled.
  pub readable :
      (id : ℕ) (r : CredentialRecord) (c : WeReadCredentials) (bytes : List ℕ) (w : World)
      → map_get id w.accounts.records ≡ some r
      → r.account.setup_required ≡ false
      → r.account.account_id ≡ id
      → r.ciphertext ≡ some bytes
      → decrypt deps.crates deps.cipher id bytes ≡ ok c
      → r.account.access_expires_at ≡ some c.access_expires_at
      → (r.account.disabled ≡ true) ⊎ Readable id r.account w
  readable id r c bytes w stands ready named sealed opens expires =
      elim (Bool-cases (r.account.disabled)) [
        | inl off ↦ inl off
        | inr on ↦ inr (
          c,
          (
            credentials_of-reads id r c (quiet w) (load-finds id r w stands) ready on
                (decrypt_record-opens r c bytes ready sealed (rw named opens) expires),
            expires,
          ),
        )
      ]
