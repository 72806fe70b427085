-- ===== src/Persistence/AccountLeases.antt =====
-- Exclusive leases on WeRead accounts: `MemoryAccountLeaseRepository` of
-- src/persistence/repositories/account_lease_repository.rs, `AccountLease` of
-- src/domain/credentials.rs and `AccountLeaseError` of src/acquisition/browser_pool.rs. A fresh
-- fencing token is an argument of the operation that issues it.
pub mod Holding
pub mod Fencing
use werrss.Common.{
  ℕ, ℤ, is_positive, Bool, true, false, not, ◌&&◌, Option, none, some, [], Text, text_eq, is_blank,
  ltb, ◌==◌, if◌then◌else◌, Result, ok, err, HashMap, map_get, map_insert, map_remove,
}
use werrss.Domain.Job.{Clock}

-- `Backend` is the error of a storage backend, which the in-memory repository never has.
pub data AccountLeaseError : Type 0 where
  invalid_account_id empty_owner invalid_lease_duration backend : AccountLeaseError
  lease_lost : ℕ → AccountLeaseError

pub record AccountLease : Type 0 where
  pub account_id : ℕ
  pub owner : Text
  pub token : ℕ
  pub lease_until : ℕ
  pub heartbeat_at : ℕ

unfoldable pub is_live_at : ℕ → AccountLease → Bool
is_live_at now lease = ltb now lease.lease_until

unfoldable pub validate_account_id : ℕ → Result AccountLeaseError (Unit {0})
validate_account_id account_id = if account_id == 0 then err invalid_account_id else ok tt

unfoldable pub validate_account_and_owner : ℕ → Text → Result AccountLeaseError (Unit {0})
validate_account_and_owner account_id owner = elim (validate_account_id account_id) [
  | err e ↦ err e
  | ok _ ↦ if is_blank owner then err empty_owner else ok tt
]

unfoldable pub validate_inputs : ℕ → Text → ℤ → Result AccountLeaseError (Unit {0})
validate_inputs account_id owner lease_for = elim (validate_account_and_owner account_id owner) [
  | err e ↦ err e
  | ok _ ↦ if not (is_positive lease_for) then err invalid_lease_duration else ok tt
]

pub record MemoryState : Type 0 where
  pub now : ℕ
  pub leases : HashMap AccountLease

-- `MemoryAccountLeaseRepository::new`.
unfoldable pub empty_at : ℕ → MemoryState
empty_at now = record { now = now; leases = [] }

unfoldable pub set_now : ℕ → MemoryState → MemoryState
set_now now state = record state { now = now }

-- The owner, the token and the time that every operation but `acquire` asks for.
unfoldable pub matches : Text → ℕ → ℕ → AccountLease → Bool
matches owner token now lease =
    text_eq lease.owner owner && (lease.token == token && is_live_at now lease)

unfoldable pub any_matches : Text → ℕ → ℕ → Option AccountLease → Bool
any_matches owner token now none = false
any_matches owner token now (some lease) = matches owner token now lease

unfoldable pub any_live : ℕ → Option AccountLease → Bool
any_live now none = false
any_live now (some lease) = is_live_at now lease

unfoldable pub is_held : ℕ → Text → ℕ → MemoryState → Bool
is_held account_id owner token state =
    any_matches owner token state.now (map_get account_id state.leases)

module _ (clock : Clock) where
  unfoldable pub acquire :
      ℕ → ℕ → Text → ℤ → MemoryState → MemoryState × Result AccountLeaseError (Option AccountLease)
  acquire fresh account_id owner lease_for state =
      elim (validate_inputs account_id owner lease_for) [
        | err e ↦ (state, err e)
        | ok _ ↦
            if any_live state.now (map_get account_id state.leases)
            then (state, ok none)
            else elim (clock.checked_add_signed state.now lease_for) [
              | none ↦ (state, err invalid_lease_duration)
              | some lease_until ↦
                  let lease : AccountLease = record {
                    account_id = account_id;
                    owner = owner;
                    token = fresh;
                    lease_until = lease_until;
                    heartbeat_at = state.now;
                  } in
                  (
                    record state { leases = map_insert account_id lease state.leases },
                    ok (some lease),
                  )
            ]
      ]

  unfoldable pub heartbeat :
      ℕ → Text → ℕ → ℤ → MemoryState → MemoryState × Result AccountLeaseError AccountLease
  heartbeat account_id owner token lease_for state =
      elim (validate_inputs account_id owner lease_for) [
        | err e ↦ (state, err e)
        | ok _ ↦
            if any_matches owner token state.now (map_get account_id state.leases)
            then elim (clock.checked_add_signed state.now lease_for) [
              | none ↦ (state, err invalid_lease_duration)
              | some lease_until ↦
                  let renewed : AccountLease = record {
                    account_id = account_id;
                    owner = owner;
                    token = token;
                    lease_until = lease_until;
                    heartbeat_at = state.now;
                  } in
                  (record state { leases = map_insert account_id renewed state.leases }, ok renewed)
            ]
            else (state, err (lease_lost account_id))
      ]

unfoldable pub release :
    ℕ → Text → ℕ → MemoryState → MemoryState × Result AccountLeaseError (Unit {0})
release account_id owner token state = elim (validate_account_and_owner account_id owner) [
  | err e ↦ (state, err e)
  | ok _ ↦
      if any_matches owner token state.now (map_get account_id state.leases)
      then (record state { leases = map_remove account_id state.leases }, ok tt)
      else (state, err (lease_lost account_id))
]
