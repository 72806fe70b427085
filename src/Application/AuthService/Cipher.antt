-- ===== src/Application/AuthService/Cipher.antt =====
-- The encryption of credentials, `RingCredentialCipher` of src/application/auth_service.rs.
pub mod Opening
use werrss.Common.{
  ℕ, true, false, not, ◌||◌, none, some, List, [], ◌∷◌, ◌++◌, length, take, drop, Text, is_blank,
  leb, ◌==◌, if◌then◌else◌, Result, ok, err,
}
use werrss.Domain.Credentials.{WeReadCredentials, new_credentials, with_cookie_of}
use werrss.Persistence.CredentialStore.{unix_epoch}
use werrss.Application.AuthService.{
  CredentialPayload, CipherCrates, RingCredentialCipher, CredentialCipherError, invalid_key,
  invalid_ciphertext, invalid_payload,
}

-- `RingCredentialCipher::new`.
unfoldable pub new_cipher : CipherCrates → Text → Result CredentialCipherError RingCredentialCipher
new_cipher crates secret =
    if is_blank secret then err invalid_key else ok (record { key = crates.sha256 secret })

abbrev pub payload_of : WeReadCredentials → CredentialPayload
payload_of c = record {
  access_token = c.access_token;
  refresh_token = c.refresh_token;
  web_cookie = c.web_cookie;
  access_expires_at = c.access_expires_at;
}

-- The version of the format, the nonce and the sealed payload.
unfoldable pub encrypt :
    CipherCrates
    → RingCredentialCipher
    → (draw account_id : ℕ) → WeReadCredentials
    → Result CredentialCipherError (List ℕ)
encrypt crates self draw account_id credentials = elim (crates.to_vec (payload_of credentials)) [
  | none ↦ err invalid_payload
  | some bytes ↦ elim (crates.fill draw) [
    | none ↦ err invalid_key
    | some nonce ↦
        if not (crates.is_key self.key)
        then err invalid_key
        else elim (crates.seal self.key nonce account_id bytes) [
          | none ↦ err invalid_ciphertext
          | some sealed ↦ ok (1 ∷ (nonce ++ sealed))
        ]
  ]
]

-- Credentials of a payload, made as new ones that were issued at the Unix epoch.
unfoldable pub restored : CredentialPayload → Result CredentialCipherError WeReadCredentials
restored p = elim (new_credentials p.access_token p.refresh_token p.access_expires_at unix_epoch) [
  | err e ↦ err invalid_payload
  | ok credentials ↦ elim (with_cookie_of p.web_cookie credentials) [
    | err e ↦ err invalid_payload
    | ok complete ↦ ok complete
  ]
]

-- `decrypt` behind its first check.
unfoldable pub decrypt_parts :
    CipherCrates
    → RingCredentialCipher
    → (account_id : ℕ) (nonce sealed : List ℕ) → Result CredentialCipherError WeReadCredentials
decrypt_parts crates self account_id nonce sealed =
    if not (crates.is_key self.key)
    then err invalid_key
    else elim (crates.open_sealed self.key nonce account_id sealed) [
      | none ↦ err invalid_ciphertext
      | some plaintext ↦ elim (crates.from_slice plaintext) [
        | none ↦ err invalid_payload
        | some payload ↦ restored payload
      ]
    ]

-- A ciphertext of up to 13 bytes is the version with at most a nonce behind it.
unfoldable pub decrypt :
    CipherCrates
    → RingCredentialCipher
    → (account_id : ℕ) (ciphertext : List ℕ) → Result CredentialCipherError WeReadCredentials
decrypt crates self account_id [] = err invalid_ciphertext
decrypt crates self account_id (version ∷ rest) =
    if leb (length rest) 12 || not (version == 1)
    then err invalid_ciphertext
    else decrypt_parts crates self account_id (take 12 rest) (drop 12 rest)
