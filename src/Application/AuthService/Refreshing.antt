-- ===== src/Application/AuthService/Refreshing.antt =====
-- What a refresh of credentials under its lease answers and writes, src/application/auth_service.rs.
use werrss.Common.{ℕ, zero, suc, ◌≡◌, ◌⊎◌, true, some, Text, Result, ok, err, map_get}
use werrss.Domain.Credentials.{WeReadAccount, add_one_i64}
use werrss.Persistence.AccountLeases.{is_held}
use werrss.Persistence.CredentialStore.{CredentialRecord}
use werrss.Application.AuthService.{
  World, Dependencies, AuthRefreshOutcome, unchanged, renewed, AuthServiceError,
}
use werrss.Application.AuthService.Waiting.{pause}
use werrss.Application.AuthService.Reading.{Readable}

module _ (deps : Dependencies) where
  unfoldable pub pauses : ℕ → World → World
  pauses zero w = w
  pauses (suc n) w = pause deps (pauses n w)

  -- An account that was written after `w`: the lease was held when the store asked, and the record
  -- that it takes the place of is the version before.
  abbrev pub Replaced : ℕ → Text → ℕ → World → WeReadAccount → World → Type 0
  Replaced id owner token w a last =
      (n : ℕ) × (let asked = pauses n w in
        let seen = pause deps asked in
        (is_held id owner token asked.leases ≡ true)
        × ((before : CredentialRecord) × ((map_get id seen.accounts.records ≡ some before)
              × ((a.credential_version ≡ add_one_i64 before.account.credential_version)
                  × ((a.disabled ≡ true) ⊎ Readable deps id a last)))))

  -- Nothing happened but what happened elsewhere.
  abbrev pub Waited : World → World → Type 0
  Waited w last = (n : ℕ) × (last ≡ pauses n w)

  abbrev pub Says :
      ℕ → Text → ℕ → World → World × Result AuthServiceError AuthRefreshOutcome → Type 0
  Says id owner token w (last, err e) = Waited w last
  Says id owner token w (last, ok (unchanged a)) = Waited w last
  Says id owner token w (last, ok (renewed a)) = Replaced id owner token w a last

  abbrev SaysAccount : ℕ → Text → ℕ → World → World × Result AuthServiceError WeReadAccount → Type 0
  SaysAccount id owner token w (last, err e) = Waited w last
  SaysAccount id owner token w (last, ok a) = Replaced id owner token w a last
