-- ===== src/Application/AuthService/Cipher/Opening.antt =====
-- What was encrypted decrypts again, src/application/auth_service.rs.
use werrss.Common.{
  ℕ, suc, zero, ◌≡◌, ◌<◌, refl, true, false, Option, none, some, List, [], ◌∷◌, ◌++◌, length,
  length-append, take, drop, Text, is_blank, leb, ok, Result-cases, Option-cases, Bool-cases, inl,
  inr, arith, ap, sym, subst, ◌∙◌,
}
use werrss.Domain.Credentials.{
  CredentialError, WeReadCredentials, new_credentials, with_cookie_of, refreshed, unwrap_or,
}
use werrss.Persistence.CredentialStore.{unix_epoch}
use werrss.Application.AuthService.{CredentialPayload, CipherCrates, RingCredentialCipher}
use werrss.Application.AuthService.Cipher.{payload_of, encrypt, restored, decrypt_parts, decrypt}

-- What the crates document: an array of 12 bytes is filled whole, what was sealed opens again under
-- the same key, nonce and account and is longer than its plaintext, and JSON reads what it wrote.
pub record Opens (crates : CipherCrates) : Type 0 where
  pub filled : (draw : ℕ) (nonce : List ℕ) → crates.fill draw ≡ some nonce → length nonce ≡ 12
  pub opened :
      (key nonce : List ℕ) (id : ℕ) (plaintext sealed : List ℕ)
      → crates.seal key nonce id plaintext ≡ some sealed
      → crates.open_sealed key nonce id sealed ≡ some plaintext
  pub tagged :
      (key nonce : List ℕ) (id : ℕ) (plaintext sealed : List ℕ)
      → crates.seal key nonce id plaintext ≡ some sealed
      → length plaintext < length sealed
  pub parsed :
      (payload : CredentialPayload) (bytes : List ℕ)
      → crates.to_vec payload ≡ some bytes
      → crates.from_slice bytes ≡ some payload

abbrev bare : WeReadCredentials → WeReadCredentials
bare c = record c { web_cookie = none }

-- Credentials as `new` and `with_web_cookie` make them.
pub record IsCredentials (c : WeReadCredentials) : Type 0 where
  pub named : is_blank c.access_token ≡ false
  pub renewable : is_blank c.refresh_token ≡ false
  pub cookie : with_cookie_of c.web_cookie (bare c) ≡ ok c

pub take-append : (n : ℕ) (xs ys : List ℕ) → length xs ≡ n → take n (xs ++ ys) ≡ xs
take-append zero [] ys h = refl
take-append zero (x ∷ xs) ys h = absurd (omega (arith, h))
take-append (suc n) [] ys h = absurd (omega (arith, h))
take-append (suc n) (x ∷ xs) ys h = ap (λ zs. x ∷ zs) (take-append n xs ys (omega (arith, h)))

pub drop-append : (n : ℕ) (xs ys : List ℕ) → length xs ≡ n → drop n (xs ++ ys) ≡ ys
drop-append zero [] ys h = refl
drop-append zero (x ∷ xs) ys h = absurd (omega (arith, h))
drop-append (suc n) [] ys h = absurd (omega (arith, h))
drop-append (suc n) (x ∷ xs) ys h = drop-append n xs ys (omega (arith, h))

restored-payload_of :
    (c : WeReadCredentials)
    → IsCredentials c
    → unix_epoch < c.access_expires_at
    → restored (payload_of c) ≡ ok c
unfolding restored new_credentials
restored-payload_of c i expiring =
    let late : leb c.access_expires_at unix_epoch ≡ false = ground arith in
    rw (i.named, i.renewable, late, restored, new_credentials) (rw i.cookie refl)

decrypt_parts-seal :
    (crates : CipherCrates) (self : RingCredentialCipher) (id : ℕ) (c : WeReadCredentials)
    (nonce bytes sealed : List ℕ)
    → Opens crates
    → IsCredentials c
    → unix_epoch < c.access_expires_at
    → crates.is_key self.key ≡ true
    → crates.to_vec (payload_of c) ≡ some bytes
    → crates.seal self.key nonce id bytes ≡ some sealed
    → decrypt_parts crates self id nonce sealed ≡ ok c
unfolding decrypt_parts
decrypt_parts-seal crates self id c nonce bytes sealed o i expiring key written done =
    rw
      (
        key,
        o.opened self.key nonce id bytes sealed done,
        o.parsed (payload_of c) bytes written,
        restored-payload_of c i expiring,
        decrypt_parts,
      )
      refl

decrypt-parts :
    (crates : CipherCrates) (self : RingCredentialCipher) (id : ℕ) (nonce sealed : List ℕ)
    → length nonce ≡ 12
    → 0 < length sealed
    → decrypt crates self id (1 ∷ (nonce ++ sealed)) ≡ decrypt_parts crates self id nonce sealed
unfolding decrypt
decrypt-parts crates self id nonce sealed twelve given =
    let joined = length-append nonce sealed in
    let long : leb (length (nonce ++ sealed)) 12 ≡ false = ground arith in
    rw (long, take-append 12 nonce sealed twelve, drop-append 12 nonce sealed twelve, decrypt) refl

-- With crates that keep to their documents, what the cipher seals of valid credentials that expire
-- after the Unix epoch it opens again, for the same account.
pub decrypt-encrypt :
    (crates : CipherCrates) (self : RingCredentialCipher) (draw id : ℕ) (c : WeReadCredentials)
    (ciphertext : List ℕ)
    → Opens crates
    → IsCredentials c
    → unix_epoch < c.access_expires_at
    → encrypt crates self draw id c ≡ ok ciphertext
    → decrypt crates self id ciphertext ≡ ok c
unfolding encrypt
decrypt-encrypt crates self draw id c ciphertext o i expiring done =
    elim (Option-cases (crates.to_vec (payload_of c))) [
      | inl bad ↦ absurd (ground (arith, done, bad))
      | inr (bytes, written) ↦ elim (Option-cases (crates.fill draw)) [
        | inl bad ↦ absurd (ground (arith, done, written, bad))
        | inr (nonce, filled) ↦ elim (Bool-cases (crates.is_key self.key)) [
          | inr bad ↦ absurd (ground (arith, done, written, filled, bad))
          | inl key ↦ elim (Option-cases (crates.seal self.key nonce id bytes)) [
            | inl bad ↦ absurd (ground (arith, done, written, filled, key, bad))
            | inr (sealed, made) ↦
                let same : ciphertext ≡ 1 ∷ (nonce ++ sealed) =
                  ground (arith, done, written, filled, key, made) in
                let longer = o.tagged self.key nonce id bytes sealed made in
                rw same (
                  decrypt-parts crates self id nonce sealed (o.filled draw nonce filled)
                    (omega (arith, longer))
                  ∙ decrypt_parts-seal crates self id c nonce bytes sealed o i expiring key written
                      made)
          ]
        ]
      ]
    ]

cookie_of-same :
    (cookie : Option Text) (plain c : WeReadCredentials)
    → plain.web_cookie ≡ none
    → with_cookie_of cookie plain ≡ ok c
    → (c.web_cookie ≡ cookie)
      × (c.access_token ≡ plain.access_token)
      × (c.refresh_token ≡ plain.refresh_token)
      × (with_cookie_of cookie (bare c) ≡ ok c)
unfolding werrss.Domain.Credentials.with_web_cookie
cookie_of-same none plain c absent h = ground arith
cookie_of-same (some cookie) plain c absent h = ground arith

new_credentials-bare :
    (access_token refresh_token : Text) (expires issued : ℕ) (c : WeReadCredentials)
    → new_credentials access_token refresh_token expires issued ≡ ok c
    → (is_blank access_token ≡ false)
      × (is_blank refresh_token ≡ false)
      × (c.access_token ≡ access_token)
      × (c.refresh_token ≡ refresh_token)
      × (c.web_cookie ≡ none)
unfolding new_credentials
new_credentials-bare access_token refresh_token expires issued c h = ground arith

-- Credentials that were refreshed are valid.
pub refreshed-IsCredentials :
    (self fresh : WeReadCredentials) (access_token : Text) (refresh_token : Option Text)
    (expires issued : ℕ)
    → refreshed self access_token refresh_token expires issued ≡ ok fresh
    → IsCredentials fresh
unfolding refreshed
refreshed-IsCredentials self fresh access_token refresh_token expires issued h =
    let token = unwrap_or refresh_token self.refresh_token in
    elim (Result-cases (new_credentials access_token token expires issued)) [
      | inl (e, bad) ↦ absurd (ground (arith, h, bad))
      | inr (plain, made) ↦
          let (named, renewable, access, renews, absent) =
            new_credentials-bare access_token token expires issued plain made in
          let kept : with_cookie_of self.web_cookie plain ≡ ok fresh = ground (arith, h, made) in
          let (cookie, same_access, same_refresh, again) =
            cookie_of-same self.web_cookie plain fresh absent kept in
          record {
            named = rw (same_access, access) named;
            renewable = rw (same_refresh, renews) renewable;
            cookie = subst (λ k. with_cookie_of k (bare fresh) ≡ ok fresh) (sym cookie) again;
          }
    ]
