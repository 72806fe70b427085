-- ===== src/Tests/CipherRuns.antt =====
-- Runs of the cipher of credentials, src/application/auth_service.rs, over crates that keep to their
-- documents: a seal puts the account before its plaintext, and a payload is written as the lengths
-- of its tokens, its expiry, whether it has a cookie, and the texts.
use werrss.Common.{
  ℕ, ◌≡◌, refl, true, Option, none, some, List, [], ◌∷◌, ◌++◌, length, take, drop, Text, codes,
  ◌==◌, if◌then◌else◌, subst, sym, ap, ok, err, arith,
}
use werrss.Domain.Credentials.{WeReadCredentials}
use werrss.Persistence.CredentialStore.{unix_epoch}
use werrss.Application.AuthService.{
  CredentialPayload, CipherCrates, RingCredentialCipher, invalid_key, invalid_ciphertext,
  invalid_payload,
}
use werrss.Application.AuthService.Cipher.{new_cipher, encrypt, decrypt}
use werrss.Application.AuthService.Cipher.Opening.{Opens, take-append, drop-append}

abbrev nonce_of : ℕ → List ℕ
nonce_of draw = draw ∷ 0 ∷ 0 ∷ 0 ∷ 0 ∷ 0 ∷ 0 ∷ 0 ∷ 0 ∷ 0 ∷ 0 ∷ 0 ∷ []

abbrev cookie_bytes : Option Text → List ℕ
cookie_bytes none = []
cookie_bytes (some cookie) = cookie

abbrev cookie_flag : Option Text → ℕ
cookie_flag none = 0
cookie_flag (some cookie) = 1

abbrev written : CredentialPayload → List ℕ
written p =
    length p.access_token
    ∷ length p.refresh_token
    ∷ p.access_expires_at
    ∷ cookie_flag p.web_cookie
    ∷ (p.access_token ++ (p.refresh_token ++ cookie_bytes p.web_cookie))

abbrev read : List ℕ → Option CredentialPayload
read (access ∷ refresh ∷ expires ∷ flag ∷ texts) = some (record {
  access_token = take access texts;
  refresh_token = take refresh (drop access texts);
  web_cookie = if flag == 0 then none else some (drop refresh (drop access texts));
  access_expires_at = expires;
})
read _ = none

abbrev opened_for : ℕ → List ℕ → Option (List ℕ)
opened_for id [] = none
opened_for id (other ∷ plaintext) = if other == id then some plaintext else none

abbrev pub test_crates : CipherCrates
test_crates = record {
  sha256 = λ text. text;
  is_key = λ key. true;
  fill = λ draw. some (nonce_of draw);
  seal = λ key nonce id plaintext. some (id ∷ plaintext);
  open_sealed = λ key nonce id sealed. opened_for id sealed;
  to_vec = λ p. some (written p);
  from_slice = read;
}

abbrev pub test_cipher : RingCredentialCipher
test_cipher = record { key = codes "secret" }

-- What the account 5 with the tokens `a` and `r` has, sealed with the draw 3.
abbrev pub sealed_until : ℕ → List ℕ
sealed_until expires =
    1
    ∷ (nonce_of 3
        ++ (5
            ∷ written (record {
              access_token = codes "a";
              refresh_token = codes "r";
              web_cookie = none;
              access_expires_at = expires;
            })))

cookie-read :
    (cookie : Option Text)
    → (if cookie_flag cookie == 0 then none else some (cookie_bytes cookie)) ≡ cookie
cookie-read none = refl
cookie-read (some cookie) = refl

read-written : (p : CredentialPayload) → read (written p) ≡ some p
read-written p =
    let rest = p.refresh_token ++ cookie_bytes p.web_cookie in
    rw
      (
        take-append (length p.access_token) p.access_token rest refl,
        drop-append (length p.access_token) p.access_token rest refl,
        take-append (length p.refresh_token) p.refresh_token (cookie_bytes p.web_cookie) refl,
        drop-append (length p.refresh_token) p.refresh_token (cookie_bytes p.web_cookie) refl,
      )
      (ap (λ cookie. some (record p { web_cookie = cookie })) (cookie-read p.web_cookie))

pub test_crates-Opens : Opens test_crates
test_crates-Opens = record {
  filled = λ draw nonce h. ground (arith, h);
  opened = λ key nonce id plaintext sealed h. ground (arith, h);
  tagged = λ key nonce id plaintext sealed h. ground (arith, h);
  parsed = λ p bytes h. ground (arith, h, read-written p);
}

abbrev secrets : ℕ → WeReadCredentials
secrets expires = record {
  access_token = codes "a";
  refresh_token = codes "r";
  web_cookie = none;
  access_expires_at = expires;
}

-- Sealed credentials open for their account only; those that expired at the epoch do not open.
seals :
    (new_cipher test_crates (codes " ") ≡ err invalid_key)
    × (encrypt test_crates test_cipher 3 5 (secrets 9) ≡ ok (sealed_until 9))
    × (decrypt test_crates test_cipher 5 (sealed_until unix_epoch) ≡ err invalid_payload)
    × (decrypt test_crates test_cipher 6 (sealed_until unix_epoch) ≡ err invalid_ciphertext)
    × (decrypt test_crates test_cipher 5 (1 ∷ nonce_of 3) ≡ err invalid_ciphertext)
    × (decrypt test_crates test_cipher 5 (2 ∷ sealed_until 9) ≡ err invalid_ciphertext)
unfolding new_cipher encrypt decrypt werrss.Common.is_blank
    werrss.Application.AuthService.Cipher.decrypt_parts
    werrss.Application.AuthService.Cipher.restored werrss.Domain.Credentials.new_credentials
seals = (refl, refl, refl, refl, refl, refl)
