-- ===== src/Persistence/CredentialStore.antt =====
-- Encrypted credentials of accounts: `MemoryCredentialRepository` of
-- src/persistence/repositories/credential_repository.rs. Every operation is atomic under the mutex of
-- the records; the lease store is what it shows when the operation asks it, before that mutex.
pub mod Records
pub mod Versions
use werrss.Common.{
  ℕ, Bool, true, false, not, ◌&&◌, ◌||◌, Option, none, some, List, [], ◌∷◌, filter, Text, codes,
  is_blank, trim, is_some, ltb, leb, ◌==◌, if◌then◌else◌, Result, ok, err, Method, HashMap, map_get,
  map_insert, map_remove,
}
use werrss.Domain.Credentials.{WeReadAccount, is_positive_i64, add_one_i64}
use werrss.Persistence.AccountLeases.{MemoryState, is_held}

pub record CredentialRecord : Type 0 where
  pub account : WeReadAccount
  pub ciphertext : Option (List ℕ)

-- `expected_version` is an `i64`, as its bit pattern.
pub record CredentialReplacement : Type 0 where
  pub account_id : ℕ
  pub display_name : Text
  pub expected_version : ℕ
  pub ciphertext : List ℕ
  pub access_expires_at : ℕ
  pub lease_owner : Text
  pub lease_token : ℕ

-- `Backend` is the error of a storage backend, which the in-memory repository never has.
pub data CredentialRepositoryError : Type 0 where
  not_found conflict : (account_id : ℕ) → CredentialRepositoryError
  backend invalid : Text → CredentialRepositoryError

pub record CredentialState : Type 0 where
  pub now : ℕ
  pub records : HashMap CredentialRecord

-- 1970 and the end of time, in nanoseconds from chrono's first instant.
abbrev pub unix_epoch : ℕ
unix_epoch = 8334601315200000000000

abbrev pub max_utc : ℕ
max_utc = 16544868191999999999999

abbrev no_bytes : List ℕ → Bool
no_bytes [] = true
no_bytes (b ∷ bytes) = false

unfoldable pub validate_record :
    (account_id : ℕ) (display_name : Text) (ciphertext : List ℕ) (access_expires_at : ℕ)
    → Result CredentialRepositoryError (Unit {0})
validate_record account_id display_name ciphertext access_expires_at =
    if account_id == 0
    then err (invalid (codes "account id must not be nil"))
    else if is_blank display_name
    then err (invalid (codes "display name must not be empty"))
    else if no_bytes ciphertext
    then err (invalid (codes "credential ciphertext must not be empty"))
    else if leb access_expires_at unix_epoch
    then err (invalid (codes "access expiry must be after the Unix epoch"))
    else ok tt

abbrev pub Stored : Type 0 → Type 0
Stored A = Method CredentialState CredentialRepositoryError A

-- `state.records.insert(id, record.clone())` and `Ok(record)`.
abbrev pub put : ℕ → CredentialRecord → Stored CredentialRecord
put id r state = (record state { records = map_insert id r state.records }, ok r)

abbrev pub enrolled : ℕ → Text → ℕ → ℕ → Bool → List ℕ → CredentialRecord
enrolled id display_name version access_expires_at disabled ciphertext = record {
  account = record {
    account_id = id;
    display_name = trim display_name;
    credential_version = version;
    access_expires_at = some access_expires_at;
    disabled = disabled;
    setup_required = false;
  };
  ciphertext = some ciphertext;
}

unfoldable pub find_record : ℕ → CredentialState → Option CredentialRecord
find_record id state = map_get id state.records

unfoldable pub insert_account :
    (account_id : ℕ) (display_name : Text) (ciphertext : List ℕ) (access_expires_at : ℕ)
    → Stored CredentialRecord
insert_account id display_name ciphertext access_expires_at state =
    elim (validate_record id display_name ciphertext access_expires_at) [
      | err e ↦ (state, err e)
      | ok _ ↦
          if is_some (map_get id state.records)
          then (state, err (conflict id))
          else put id (enrolled id display_name 1 access_expires_at false ciphertext) state
    ]

abbrev pub replaced_record : CredentialReplacement → CredentialRecord → CredentialRecord
replaced_record r found =
    enrolled r.account_id r.display_name (add_one_i64 r.expected_version) r.access_expires_at
      found.account.disabled r.ciphertext

abbrev pub no_lease : Option MemoryState → ℕ → Text → ℕ → Bool
no_lease none id owner token = false
no_lease (some leases) id owner token = not (is_held id owner token leases)

unfoldable pub replace : CredentialReplacement → Option MemoryState → Stored CredentialRecord
replace r lease_store state =
    elim (validate_record r.account_id r.display_name r.ciphertext r.access_expires_at) [
      | err e ↦ (state, err e)
      | ok _ ↦
          if not (is_positive_i64 r.expected_version)
            || is_blank r.lease_owner
            || r.lease_token == 0
          then (state, err (conflict r.account_id))
          else if no_lease lease_store r.account_id r.lease_owner r.lease_token
          then (state, err (conflict r.account_id))
          else elim (map_get r.account_id state.records) [
            | none ↦ (state, err (conflict r.account_id))
            | some found ↦
                if found.account.credential_version == r.expected_version
                then put r.account_id (replaced_record r found) state
                else (state, err (conflict r.account_id))
          ]
    ]

abbrev without_lease : Option MemoryState → ℕ → Text → ℕ → Bool
without_lease none id owner token = true
without_lease (some leases) id owner token = not (is_held id owner token leases)

unfoldable pub enroll_placeholder :
    (account_id : ℕ) (display_name : Text) (ciphertext : List ℕ) (access_expires_at : ℕ)
    (lease_owner : Text) (lease_token : ℕ)
    → Option MemoryState
    → Stored CredentialRecord
enroll_placeholder id display_name ciphertext access_expires_at owner token lease_store state =
    elim (validate_record id display_name ciphertext access_expires_at) [
      | err e ↦ (state, err e)
      | ok _ ↦
          if is_blank owner || token == 0
          then (state, err (conflict id))
          else if without_lease lease_store id owner token
          then (state, err (conflict id))
          else elim (map_get id state.records) [
            | none ↦ (state, err (conflict id))
            | some found ↦
                if found.account.setup_required
                then put id
                    (enrolled id display_name (add_one_i64 found.account.credential_version)
                      access_expires_at found.account.disabled ciphertext)
                    state
                else (state, err (conflict id))
          ]
    ]

unfoldable pub set_disabled : (account_id : ℕ) (disabled : Bool) → Stored CredentialRecord
set_disabled id disabled state = elim (map_get id state.records) [
  | none ↦ (state, err (not_found id))
  | some found ↦
      put id (record found { account = record (found.account) { disabled = disabled } }) state
]

unfoldable pub delete : (account_id : ℕ) → Stored (Unit {0})
delete id state = elim (map_get id state.records) [
  | none ↦ (state, err (not_found id))
  | some found ↦ (record state { records = map_remove id state.records }, ok tt)
]

unfoldable pub set_clock : ℕ → CredentialState → CredentialState
set_clock now state = record state { now = now }

-- The key `(access_expires_at.unwrap_or(MAX_UTC), account_id)`, compared as a pair.
abbrev expiry : CredentialRecord → ℕ
expiry r = elim (r.account.access_expires_at) [ none ↦ max_utc | some at ↦ at ]

abbrev pub is_before : CredentialRecord → CredentialRecord → Bool
is_before r s =
    ltb (expiry r) (expiry s)
    || (expiry r == expiry s && leb r.account.account_id s.account.account_id)

-- `sort_by_key`, which is stable.
unfoldable pub insert_record : CredentialRecord → List CredentialRecord → List CredentialRecord
insert_record r [] = r ∷ []
insert_record r (s ∷ rs) =
    let rest = insert_record r rs in if is_before r s then r ∷ s ∷ rs else s ∷ rest

unfoldable pub sort_records : List CredentialRecord → List CredentialRecord
sort_records [] = []
sort_records (r ∷ rs) = insert_record r (sort_records rs)

unfoldable pub values : HashMap CredentialRecord → List CredentialRecord
values [] = []
values ((id, r) ∷ m) = r ∷ values m

abbrev pub is_usable : CredentialRecord → Bool
is_usable r =
    not r.account.disabled && (not r.account.setup_required && is_some r.account.access_expires_at)

unfoldable pub list_all : CredentialState → List CredentialRecord
list_all state = sort_records (values state.records)

unfoldable pub list : CredentialState → List CredentialRecord
list state = sort_records (filter is_usable (values state.records))
