-- ===== src/Persistence/CredentialStore/Versions.antt =====
-- Versions of credentials over histories of operations,
-- src/persistence/repositories/credential_repository.rs.
use werrss.Common.{
  ℕ, ◌+◌, ◌^◌, ◌≤◌, ◌<◌, ◌≡◌, ◌≢◌, inl, inr, refl, sym, subst, ap, false, Option, none, some, List,
  [], ◌∷◌, length, All, All-map_get, ok, err, map_get, map_get-map_insert, map_get-map_remove,
  Option-cases, Bool-cases, arith, ◌==◌,
}
use werrss.Domain.Credentials.{add_one_i64}
use werrss.Persistence.AccountLeases.{MemoryState}
use werrss.Persistence.CredentialStore.{
  CredentialRecord, CredentialReplacement, CredentialState, validate_record, put, enrolled, replace,
  replaced_record, set_disabled, delete, set_clock, conflict,
}
use werrss.Persistence.CredentialStore.Records.{
  CredentialCall, inserts, replaces, enrolls, disables, deletes, sets_clock, credential_step,
  credential_run, IsRecord, AllRecords, credential_step-AllRecords, insert_cases, replace_cases,
  enroll_cases,
}

-- The version of an account, 0 where there is none.
abbrev version_in : Option CredentialRecord → ℕ
version_in none = 0
version_in (some r) = r.account.credential_version

abbrev version : ℕ → CredentialState → ℕ
version id s = version_in (map_get id s.records)

-- The call does not delete the account.
abbrev pub Keeps : ℕ → CredentialCall → Type 0
Keeps id (deletes other) = other ≢ id
Keeps id _ = Unit

version-put :
    (id i : ℕ) (r : CredentialRecord) (s t : CredentialState)
    → t ≡ (put i r s).0
    → version i s ≤ r.account.credential_version
    → version id s ≤ version id t
version-put id i r s t e le =
    subst (λ u. version id s ≤ version id u) (sym e)
      (elim (Bool-cases (i == id)) [
        | inl hit ↦
            let same : i ≡ id = ground arith in
            rw (map_get-map_insert i id r s.records, hit)
              (subst (λ j. version j s ≤ r.account.credential_version) same le)
        | inr miss ↦ rw (map_get-map_insert i id r s.records, miss) (omega arith)
      ])

-- The next version of a record is one more, and not less.
found_next :
    (limit id : ℕ) (found : CredentialRecord) (s : CredentialState)
    → limit + 1 < 2 ^ 63
    → AllRecords limit s
    → map_get id s.records ≡ some found
    → add_one_i64 found.account.credential_version ≡ found.account.credential_version + 1
found_next limit id found s b a present =
    let i = All-map_get (IsRecord limit) id found s.records a present in
    let bounded = i.bounded in omega arith

found_grows :
    (limit id : ℕ) (found : CredentialRecord) (s : CredentialState)
    → limit + 1 < 2 ^ 63
    → AllRecords limit s
    → map_get id s.records ≡ some found
    → found.account.credential_version ≤ add_one_i64 found.account.credential_version
found_grows limit id found s b a present = omega (arith, found_next limit id found s b a present)

credential_step-version :
    (limit id : ℕ) (x : CredentialCall) (s : CredentialState)
    → limit + 1 < 2 ^ 63
    → AllRecords limit s
    → Keeps id x
    → version id s ≤ version id (credential_step x s)
unfolding credential_step set_disabled delete set_clock
credential_step-version limit id (inserts i name ciphertext expires) s b a k =
    elim (insert_cases i name ciphertext expires s) [
      | inl same ↦ rw same (omega arith)
      | inr (valid, (free, done)) ↦
          version-put id i (enrolled i name 1 expires false ciphertext) s _ (ap (λ p. p.0) done)
            (rw free (omega arith))
    ]
credential_step-version limit id (replaces r leases) s b a k = elim (replace_cases r leases s) [
  | inl same ↦ rw same (omega arith)
  | inr (valid, (held, (found, (present, (same, done))))) ↦
      version-put id r.account_id (replaced_record r found) s _ (ap (λ p. p.0) done)
        (rw (present, sym same) (found_grows limit r.account_id found s b a present))
]
credential_step-version limit id (enrolls i name ciphertext expires owner token leases) s b a k =
    elim (enroll_cases i name ciphertext expires owner token leases s) [
      | inl same ↦ rw same (omega arith)
      | inr (valid, (held, (found, (present, (waiting, done))))) ↦
          version-put id i
            (enrolled i name (add_one_i64 found.account.credential_version) expires
              found.account.disabled ciphertext)
            s _ (ap (λ p. p.0) done) (rw present (found_grows limit i found s b a present))
    ]
credential_step-version limit id (disables i disabled) s b a k =
    elim (Option-cases (map_get i s.records)) [
      | inl absent ↦ rw (absent, credential_step, set_disabled) (omega arith)
      | inr (found, present) ↦
          version-put id i
            (record found { account = record (found.account) { disabled = disabled } }) s
            (set_disabled i disabled s).0 (rw (present, set_disabled) refl)
            (rw present (omega arith))
    ]
credential_step-version limit id (deletes i) s b a k = elim (Option-cases (map_get i s.records)) [
  | inl absent ↦ rw (absent, credential_step, delete) (omega arith)
  | inr (found, present) ↦
      let other : i == id ≡ false = ground arith in
      rw (present, credential_step, delete)
        (rw (map_get-map_remove i id s.records, other) (omega arith))
]
credential_step-version limit id (sets_clock now) s b a k = omega arith

credential_run-version :
    (limit id : ℕ) (xs : List CredentialCall) (s : CredentialState)
    → limit + length xs < 2 ^ 63
    → AllRecords limit s
    → All (Keeps id) xs
    → version id s ≤ version id (credential_run xs s)
unfolding credential_run
credential_run-version limit id [] s b a k = omega arith
credential_run-version limit id (x ∷ xs) s b a k =
    let next = credential_step x s in
    let b' : limit + 1 + length xs < 2 ^ 63 = omega arith in
    omega (
      arith,
      credential_step-version limit id x s (omega arith) a k.0,
      credential_run-version (limit + 1) id xs next b'
          (credential_step-AllRecords limit x s (omega arith) a) k.1,
    )

replace_old :
    (r : CredentialReplacement) (leases : Option MemoryState) (s : CredentialState)
    → validate_record r.account_id r.display_name r.ciphertext r.access_expires_at ≡ ok tt
    → r.expected_version < version r.account_id s
    → replace r leases s ≡ (s, err (conflict r.account_id))
unfolding replace
replace_old r leases s valid old = elim (Option-cases (map_get r.account_id s.records)) [
  | inl absent ↦ ground (arith, absent, valid)
  | inr (found, present) ↦
      let newer : found.account.credential_version == r.expected_version ≡ false = ground arith in
      ground (arith, present, valid, newer)
]

replace_cases_ok :
    (r : CredentialReplacement) (leases : Option MemoryState) (s t : CredentialState)
    (made : CredentialRecord)
    → replace r leases s ≡ (t, ok made)
    → (found : CredentialRecord) × (map_get r.account_id s.records ≡ some found)
      × (found.account.credential_version ≡ r.expected_version)
      × (made.account.credential_version ≡ add_one_i64 r.expected_version)
      × (map_get r.account_id t.records ≡ some made)
unfolding replace
replace_cases_ok r leases s t made done = elim (Option-cases (map_get r.account_id s.records)) [
  | inl absent ↦ ground (arith, done, absent)
  | inr (found, present) ↦
      let stored =
        map_get-map_insert r.account_id r.account_id (replaced_record r found) s.records in
      (
        found,
        present,
        ground (arith, done, present),
        ground (arith, done, present),
        ground (arith, done, present, stored),
      )
]

replace_made :
    (limit : ℕ) (r : CredentialReplacement) (leases : Option MemoryState) (s t : CredentialState)
    (made : CredentialRecord)
    → limit + 1 < 2 ^ 63
    → AllRecords limit s
    → replace r leases s ≡ (t, ok made)
    → (made.account.credential_version ≡ r.expected_version + 1)
      × (map_get r.account_id t.records ≡ some made)
replace_made limit r leases s t made b a done =
    let (found, present, same, next, stored) = replace_cases_ok r leases s t made done in
    let grows = found_next limit r.account_id found s b a present in
    (rw (next, sym same) grows, stored)

-- Of records whose versions are up to a limit, a replacement raises the version that it was asked
-- for by one. Whatever calls follow that do not delete the account and do not lead the versions out
-- of an `i64`, another replacement that was asked for that version or an older positive one is a
-- conflict and changes nothing.
pub replace_once :
    (limit : ℕ) (r : CredentialReplacement) (leases : Option MemoryState) (s : CredentialState)
    (t : CredentialState) (made : CredentialRecord) (xs : List CredentialCall)
    (other : CredentialReplacement) (later : Option MemoryState)
    → AllRecords limit s
    → limit + 1 + length xs < 2 ^ 63
    → replace r leases s ≡ (t, ok made)
    → All (Keeps r.account_id) xs
    → other.account_id ≡ r.account_id
    → other.expected_version ≤ r.expected_version
    → validate_record other.account_id other.display_name other.ciphertext other.access_expires_at
      ≡ ok tt
    → (made.account.credential_version ≡ r.expected_version + 1)
      × (replace other later (credential_run xs t)
          ≡ (credential_run xs t, err (conflict other.account_id)))
unfolding credential_step
replace_once limit r leases s t made xs other later a b done k same old valid =
    let (next, stored) = replace_made limit r leases s t made (omega arith) a done in
    let after : AllRecords (limit + 1) t =
      subst (AllRecords (limit + 1)) (ap (λ p. p.0) done)
        (credential_step-AllRecords limit (replaces r leases) s (omega arith) a) in
    let kept = credential_run-version (limit + 1) r.account_id xs t b after k in
    let reached : version r.account_id t ≡ r.expected_version + 1 = rw stored next in
    (
      next,
      replace_old other later (credential_run xs t) valid (
          subst (λ id. other.expected_version < version id (credential_run xs t)) (sym same)
            (omega (arith, kept, reached, old))),
    )
