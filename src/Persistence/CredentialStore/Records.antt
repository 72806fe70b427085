-- ===== src/Persistence/CredentialStore/Records.antt =====
-- What operations on the credential store write, and that records stay well formed,
-- src/persistence/repositories/credential_repository.rs.
use werrss.Common.{
  ℕ, suc, ◌+◌, ◌^◌, ◌≤◌, ◌<◌, ◌≡◌, ◌≢◌, ◌⊎◌, inl, inr, refl, sym, subst, ap, Bool, true, false,
  Option, none, some, List, [], ◌∷◌, length, All, All-map, Text, is_blank, is_empty, trim,
  trim-trim, ok, map_get, Option-cases, All-map_insert, All-map_remove, All-map_get, arith,
}
use werrss.Domain.Credentials.{add_one_i64}
use werrss.Persistence.AccountLeases.{MemoryState}
use werrss.Persistence.CredentialStore.{
  CredentialRecord, CredentialReplacement, CredentialState, unix_epoch, validate_record, put,
  enrolled, insert_account, no_lease, replace, without_lease, enroll_placeholder, set_disabled,
  delete, set_clock, replaced_record,
}

-- Inputs that the store writes.
pub record IsInput (id : ℕ) (name : Text) (ciphertext : List ℕ) (expires : ℕ) : Type 0 where
  pub account : id ≢ 0
  pub titled : is_blank name ≡ false
  pub sealed : ciphertext ≢ []
  pub expiring : unix_epoch < expires

pub validate_record-IsInput :
    (id : ℕ) (name : Text) (ciphertext : List ℕ) (expires : ℕ)
    → validate_record id name ciphertext expires ≡ ok tt
    → IsInput id name ciphertext expires
unfolding validate_record
validate_record-IsInput id name [] expires h = ground arith
validate_record-IsInput id name (b ∷ bytes) expires h = record {
  account = ground arith;
  titled = ground arith;
  sealed = ground arith;
  expiring = ground arith;
}

pub insert_cases :
    (id : ℕ) (name : Text) (ciphertext : List ℕ) (expires : ℕ) (s : CredentialState)
    → ((insert_account id name ciphertext expires s).0 ≡ s)
      ⊎ ((validate_record id name ciphertext expires ≡ ok tt)
          × ((map_get id s.records ≡ none)
              × (insert_account id name ciphertext expires s
                  ≡ put id (enrolled id name 1 expires false ciphertext) s)))
unfolding insert_account
insert_cases id name ciphertext expires s = ground arith

pub replace_cases :
    (r : CredentialReplacement) (leases : Option MemoryState) (s : CredentialState)
    → ((replace r leases s).0 ≡ s)
      ⊎ ((validate_record r.account_id r.display_name r.ciphertext r.access_expires_at ≡ ok tt)
          × ((no_lease leases r.account_id r.lease_owner r.lease_token ≡ false)
              × ((found : CredentialRecord) × ((map_get r.account_id s.records ≡ some found)
                    × ((found.account.credential_version ≡ r.expected_version)
                        × (replace r leases s ≡ put r.account_id (replaced_record r found) s))))))
unfolding replace
replace_cases r leases s = ground arith

pub enroll_cases :
    (id : ℕ) (name : Text) (ciphertext : List ℕ) (expires : ℕ) (owner : Text) (token : ℕ)
    (leases : Option MemoryState) (s : CredentialState)
    → let op = enroll_placeholder id name ciphertext expires owner token leases in
      ((op s).0 ≡ s)
      ⊎ ((validate_record id name ciphertext expires ≡ ok tt)
          × ((without_lease leases id owner token ≡ false)
              × ((found : CredentialRecord) × ((map_get id s.records ≡ some found)
                    × ((found.account.setup_required ≡ true)
                        × (op s
                            ≡ put id
                                (enrolled id name
                                  (add_one_i64 found.account.credential_version)
                                  expires
                                  found.account.disabled
                                  ciphertext)
                                s))))))
unfolding enroll_placeholder
enroll_cases id name ciphertext expires owner token leases s = ground arith

-- The record is enrolled, with bytes and an expiry, or waits for its setup with neither.
abbrev IsSetUp : CredentialRecord → Type 0
IsSetUp r =
    ((r.account.setup_required ≡ false)
      × ((bytes : List ℕ) × ((r.ciphertext ≡ some bytes)
            × ((bytes ≢ [])
                × ((expires : ℕ) × ((r.account.access_expires_at ≡ some expires)
                      × (unix_epoch < expires)))))))
    ⊎ ((r.account.setup_required ≡ true)
        × ((r.ciphertext ≡ none) × (r.account.access_expires_at ≡ none)))

-- A record stands under its account, with a trimmed name and a positive version up to a limit.
pub record IsRecord (limit : ℕ) (e : ℕ × CredentialRecord) : Type 0 where
  pub named : e.1.account.account_id ≡ e.0
  pub account : e.0 ≢ 0
  pub titled : is_empty e.1.account.display_name ≡ false
  pub trimmed : trim e.1.account.display_name ≡ e.1.account.display_name
  pub counted : 0 < e.1.account.credential_version
  pub bounded : e.1.account.credential_version ≤ limit
  pub set_up : IsSetUp e.1

enrolled-IsRecord :
    (limit id : ℕ) (name : Text) (version expires : ℕ) (disabled : Bool) (ciphertext : List ℕ)
    → validate_record id name ciphertext expires ≡ ok tt
    → 0 < version
    → version ≤ limit
    → IsRecord limit (id, enrolled id name version expires disabled ciphertext)
unfolding is_blank
enrolled-IsRecord limit id name version expires disabled ciphertext h counted bounded =
    let i = validate_record-IsInput id name ciphertext expires h in
    record {
      named = refl;
      account = i.account;
      titled = i.titled;
      trimmed = trim-trim name;
      counted = counted;
      bounded = bounded;
      set_up = inl (refl, (ciphertext, (refl, (i.sealed, (expires, (refl, i.expiring))))));
    }

-- An operation of the repository, with the lease store that it sees.
pub data CredentialCall : Type 0 where
  inserts : (id : ℕ) (name : Text) (ciphertext : List ℕ) (expires : ℕ) → CredentialCall
  replaces : CredentialReplacement → Option MemoryState → CredentialCall
  enrolls :
      (id : ℕ) (name : Text) (ciphertext : List ℕ) (expires : ℕ) (owner : Text) (token : ℕ)
      → Option MemoryState
      → CredentialCall
  disables : (id : ℕ) (disabled : Bool) → CredentialCall
  deletes : (id : ℕ) → CredentialCall
  sets_clock : (now : ℕ) → CredentialCall

unfoldable pub credential_step : CredentialCall → CredentialState → CredentialState
credential_step (inserts id name ciphertext expires) s =
    (insert_account id name ciphertext expires s).0
credential_step (replaces r leases) s = (replace r leases s).0
credential_step (enrolls id name ciphertext expires owner token leases) s =
    (enroll_placeholder id name ciphertext expires owner token leases s).0
credential_step (disables id disabled) s = (set_disabled id disabled s).0
credential_step (deletes id) s = (delete id s).0
credential_step (sets_clock now) s = set_clock now s

unfoldable pub credential_run : List CredentialCall → CredentialState → CredentialState
credential_run [] s = s
credential_run (x ∷ xs) s = credential_run xs (credential_step x s)

abbrev pub AllRecords : (limit : ℕ) → CredentialState → Type 0
AllRecords limit s = All (IsRecord limit) s.records

put-AllRecords :
    (limit id : ℕ) (r : CredentialRecord) (s t : CredentialState)
    → t ≡ (put id r s).0
    → IsRecord limit (id, r)
    → AllRecords limit s
    → AllRecords limit t
put-AllRecords limit id r s t e i a =
    subst (AllRecords limit) (sym e) (All-map_insert (IsRecord limit) id r s.records i a)

IsRecord-disabled :
    (limit id : ℕ) (r : CredentialRecord) (disabled : Bool)
    → IsRecord limit (id, r)
    → IsRecord limit (id, record r { account = record (r.account) { disabled = disabled } })
IsRecord-disabled limit id r disabled i = record {
  named = i.named;
  account = i.account;
  titled = i.titled;
  trimmed = i.trimmed;
  counted = i.counted;
  bounded = i.bounded;
  set_up = i.set_up;
}

IsRecord-mono : (limit : ℕ) (e : ℕ × CredentialRecord) → IsRecord limit e → IsRecord (limit + 1) e
IsRecord-mono limit e i = record {
  named = i.named;
  account = i.account;
  titled = i.titled;
  trimmed = i.trimmed;
  counted = i.counted;
  bounded = omega (arith, i.bounded);
  set_up = i.set_up;
}

AllRecords-mono : (limit : ℕ) (s : CredentialState) → AllRecords limit s → AllRecords (limit + 1) s
AllRecords-mono limit s a =
    All-map (IsRecord limit) (IsRecord (limit + 1)) (IsRecord-mono limit) s.records a

-- The next version of a record is positive and one more.
add_one_i64-counts :
    (limit id : ℕ) (found : CredentialRecord) (s : CredentialState)
    → limit + 1 < 2 ^ 63
    → AllRecords limit s
    → map_get id s.records ≡ some found
    → (0 < add_one_i64 found.account.credential_version)
      × (add_one_i64 found.account.credential_version ≤ limit + 1)
add_one_i64-counts limit id found s b a present =
    let i = All-map_get (IsRecord limit) id found s.records a present in
    let bounded = i.bounded in (omega arith, omega arith)

pub credential_step-AllRecords :
    (limit : ℕ) (x : CredentialCall) (s : CredentialState)
    → limit + 1 < 2 ^ 63
    → AllRecords limit s
    → AllRecords (limit + 1) (credential_step x s)
unfolding credential_step set_disabled delete set_clock
credential_step-AllRecords limit (inserts id name ciphertext expires) s b a =
    let a' = AllRecords-mono limit s a in
    elim (insert_cases id name ciphertext expires s) [
      | inl same ↦ subst (AllRecords (limit + 1)) (sym same) a'
      | inr (valid, (free, done)) ↦
          put-AllRecords (limit + 1) id (enrolled id name 1 expires false ciphertext) s _
            (ap (λ p. p.0) done)
            (enrolled-IsRecord (limit + 1) id name 1 expires false ciphertext valid (omega arith)
              (omega arith))
            a'
    ]
credential_step-AllRecords limit (replaces r leases) s b a =
    let a' = AllRecords-mono limit s a in
    elim (replace_cases r leases s) [
      | inl same ↦ subst (AllRecords (limit + 1)) (sym same) a'
      | inr (valid, (held, (found, (present, (version, done))))) ↦
          let next = add_one_i64 r.expected_version in
          let (counted, bounded) = add_one_i64-counts limit r.account_id found s b a present in
          put-AllRecords (limit + 1) r.account_id (replaced_record r found) s _ (ap (λ p. p.0) done)
            (enrolled-IsRecord (limit + 1) r.account_id r.display_name next r.access_expires_at
              found.account.disabled r.ciphertext valid (rw (sym version) counted)
              (rw (sym version) bounded))
            a'
    ]
credential_step-AllRecords limit (enrolls id name ciphertext expires owner token leases) s b a =
    let a' = AllRecords-mono limit s a in
    elim (enroll_cases id name ciphertext expires owner token leases s) [
      | inl same ↦ subst (AllRecords (limit + 1)) (sym same) a'
      | inr (valid, (held, (found, (present, (waiting, done))))) ↦
          let next = add_one_i64 found.account.credential_version in
          let (counted, bounded) = add_one_i64-counts limit id found s b a present in
          put-AllRecords (limit + 1) id
            (enrolled id name next expires found.account.disabled ciphertext) s _
            (ap (λ p. p.0) done)
            (enrolled-IsRecord (limit + 1) id name next expires found.account.disabled ciphertext
              valid counted bounded)
            a'
    ]
credential_step-AllRecords limit (disables id disabled) s b a =
    let a' = AllRecords-mono limit s a in
    let holds = IsRecord (limit + 1) in
    elim (Option-cases (map_get id s.records)) [
      | inl absent ↦ rw (absent, credential_step, set_disabled) a'
      | inr (found, present) ↦
          rw (present, credential_step, set_disabled)
            (All-map_insert holds id
              (record found { account = record (found.account) { disabled = disabled } }) s.records
              (IsRecord-disabled (limit + 1) id found disabled
                (All-map_get holds id found s.records a' present))
              a')
    ]
credential_step-AllRecords limit (deletes id) s b a =
    let a' = AllRecords-mono limit s a in
    elim (Option-cases (map_get id s.records)) [
      | inl absent ↦ rw (absent, credential_step, delete) a'
      | inr (found, present) ↦
          rw (present, credential_step, delete)
            (All-map_remove (IsRecord (limit + 1)) id s.records a')
    ]
credential_step-AllRecords limit (sets_clock now) s b a = AllRecords-mono limit s a

-- Whatever operations follow on well-formed records whose versions are up to a limit, every record
-- stands under its account, with a trimmed name, either sealed credentials with an expiry or
-- neither, and a positive version that exceeds the limit by at most the number of operations, if
-- that sum is an `i64`.
pub credential_run-AllRecords :
    (limit : ℕ) (xs : List CredentialCall) (s : CredentialState)
    → limit + length xs < 2 ^ 63
    → AllRecords limit s
    → AllRecords (limit + length xs) (credential_run xs s)
unfolding credential_run
credential_run-AllRecords limit [] s b a =
    let same : limit ≡ limit + 0 = omega arith in subst (λ n. AllRecords n s) same a
credential_run-AllRecords limit (x ∷ xs) s b a =
    let same : limit + 1 + length xs ≡ limit + suc (length xs) = omega arith in
    subst (λ n. AllRecords n (credential_run xs (credential_step x s))) same
      (credential_run-AllRecords (limit + 1) xs (credential_step x s) (omega arith)
        (credential_step-AllRecords limit x s (omega arith) a))
