-- ===== src/Persistence/AccountLeases/Holding.antt =====
-- What an account lease store answers, and what its map keeps,
-- src/persistence/repositories/account_lease_repository.rs.
use werrss.Common.{
  ℕ, ℤ, is_positive, ◌≡◌, refl, ◌≢◌, Bool, not, true, false, none, some, List, [], ◌∷◌, Text,
  is_blank, Result-cases, ok, err, is_ok, arith, All, map_get, map_get-map_remove, All-map_insert,
  All-map_remove, Option-cases, Bool-cases, inl, inr, ◌⊎◌,
}
use werrss.Domain.Job.{Clock}
use werrss.Persistence.AccountLeases.{
  AccountLease, MemoryState, validate_account_id, validate_account_and_owner, validate_inputs,
  set_now, any_matches, any_live, is_held, acquire, heartbeat, release,
}

-- An operation on one of the repository's leases, or the clock moving on.
pub data LeaseCall : Type 0 where
  acquires : (fresh account_id : ℕ) (owner : Text) (lease_for : ℤ) → LeaseCall
  heartbeats : (account_id : ℕ) (owner : Text) (token : ℕ) (lease_for : ℤ) → LeaseCall
  releases : (account_id : ℕ) (owner : Text) (token : ℕ) → LeaseCall
  sets_now : (now : ℕ) → LeaseCall

-- The state after a call, and whether the call was granted.
unfoldable pub lease_step : Clock → LeaseCall → MemoryState → MemoryState × Bool
lease_step c (acquires fresh id owner lease_for) s =
    let r = acquire c fresh id owner lease_for s in
    (r.0, elim r.1 [ ok o ↦ elim o [ none ↦ false | some l ↦ true ] | err e ↦ false ])
lease_step c (heartbeats id owner token lease_for) s =
    let r = heartbeat c id owner token lease_for s in (r.0, is_ok r.1)
lease_step c (releases id owner token) s = let r = release id owner token s in (r.0, is_ok r.1)
lease_step c (sets_now now) s = (set_now now s, true)

unfoldable pub lease_run : Clock → List LeaseCall → MemoryState → MemoryState
lease_run c [] s = s
lease_run c (x ∷ xs) s = lease_run c xs (lease_step c x s).0

-- An entry stands under its account, which is not nil, and names an owner.
pub record IsEntry (e : ℕ × AccountLease) : Type 0 where
  pub named : e.1.account_id ≡ e.0
  pub account : e.0 ≢ 0
  pub owned : is_blank e.1.owner ≡ false

validate_inputs_sound :
    (id : ℕ) (owner : Text) (lease_for : ℤ)
    → validate_inputs id owner lease_for ≡ ok tt
    → (id ≢ 0) × (is_blank owner ≡ false) × (is_positive lease_for ≡ true)
unfolding validate_inputs validate_account_and_owner validate_account_id
validate_inputs_sound id owner lease_for h = ground arith

lease_step-IsEntry :
    (c : Clock) (x : LeaseCall) (s : MemoryState)
    → All IsEntry s.leases
    → All IsEntry (lease_step c x s).0.leases
unfolding lease_step acquire heartbeat release set_now
lease_step-IsEntry c (acquires fresh id owner lease_for) s a =
    elim (Result-cases (validate_inputs id owner lease_for)) [
      | inl (e, bad) ↦ rw (bad, lease_step, acquire) a
      | inr (u, good) ↦ elim (Bool-cases (any_live s.now (map_get id s.leases))) [
        | inl live ↦ rw (good, live, lease_step, acquire) a
        | inr free ↦ elim (Option-cases (c.checked_add_signed s.now lease_for)) [
          | inl over ↦ rw (good, free, over, lease_step, acquire) a
          | inr (until, adds) ↦
              let (nonzero, named, positive) = validate_inputs_sound id owner lease_for good in
              rw (good, free, adds, lease_step, acquire)
                (All-map_insert IsEntry id _ s.leases
                  (record { named = refl; account = nonzero; owned = named }) a)
        ]
      ]
    ]
lease_step-IsEntry c (heartbeats id owner token lease_for) s a =
    elim (Result-cases (validate_inputs id owner lease_for)) [
      | inl (e, bad) ↦ rw (bad, lease_step, heartbeat) a
      | inr (u, good) ↦ elim (Bool-cases (any_matches owner token s.now (map_get id s.leases))) [
        | inr lost ↦ rw (good, lost, lease_step, heartbeat) a
        | inl held ↦ elim (Option-cases (c.checked_add_signed s.now lease_for)) [
          | inl over ↦ rw (good, held, over, lease_step, heartbeat) a
          | inr (until, adds) ↦
              let (nonzero, named, positive) = validate_inputs_sound id owner lease_for good in
              rw (good, held, adds, lease_step, heartbeat)
                (All-map_insert IsEntry id _ s.leases
                  (record { named = refl; account = nonzero; owned = named }) a)
        ]
      ]
    ]
lease_step-IsEntry c (releases id owner token) s a =
    elim (Result-cases (validate_account_and_owner id owner)) [
      | inl (e, bad) ↦ rw (bad, lease_step, release) a
      | inr (u, good) ↦ elim (Bool-cases (any_matches owner token s.now (map_get id s.leases))) [
        | inr lost ↦ rw (good, lost, lease_step, release) a
        | inl held ↦ rw (good, held, lease_step, release) (All-map_remove IsEntry id s.leases a)
      ]
    ]
lease_step-IsEntry c (sets_now now) s a = a

-- Whatever calls are made, every entry of the map stands under its own account, which is not nil,
-- and names an owner, if that held before.
pub lease_run-IsEntry :
    (c : Clock) (xs : List LeaseCall) (s : MemoryState)
    → All IsEntry s.leases
    → All IsEntry (lease_run c xs s).leases
unfolding lease_run
lease_run-IsEntry c [] s a = a
lease_run-IsEntry c (x ∷ xs) s a =
    lease_run-IsEntry c xs (lease_step c x s).0 (lease_step-IsEntry c x s a)

validate_inputs-account :
    (id : ℕ) (owner : Text) (lease_for : ℤ)
    → validate_inputs id owner lease_for ≡ ok tt
    → validate_account_and_owner id owner ≡ ok tt
unfolding validate_inputs
validate_inputs-account id owner lease_for h = ground arith

-- With valid inputs and a representable end, an acquisition is granted exactly when its account has
-- no live lease, a heartbeat and a release exactly when their owner and token hold it, and after a
-- granted release the account has no live lease.
pub lease_step_granted :
    (c : Clock) (fresh id token until : ℕ) (owner : Text) (lease_for : ℤ) (s : MemoryState)
    → validate_inputs id owner lease_for ≡ ok tt
    → c.checked_add_signed s.now lease_for ≡ some until
    → let released = lease_step c (releases id owner token) s in
      ((lease_step c (acquires fresh id owner lease_for) s).1
        ≡ not (any_live s.now (map_get id s.leases)))
      × ((lease_step c (heartbeats id owner token lease_for) s).1 ≡ is_held id owner token s)
      × (released.1 ≡ is_held id owner token s)
      × ((released.1 ≡ false) ⊎ (any_live released.0.now (map_get id released.0.leases) ≡ false))
unfolding lease_step acquire heartbeat release is_held any_live
lease_step_granted c fresh id token until owner lease_for s valid adds =
    let account = validate_inputs-account id owner lease_for valid in
    let gone = map_get-map_remove id id s.leases in
    (ground arith, ground arith, ground arith, ground arith)
