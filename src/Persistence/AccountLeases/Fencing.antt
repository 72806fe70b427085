-- ===== src/Persistence/AccountLeases/Fencing.antt =====
-- Exclusion and fencing over histories of account leases,
-- src/persistence/repositories/account_lease_repository.rs.
use werrss.Common.{
  ℕ, zero, suc, subst, ◌<◌, ℤ, pos, ◌≡◌, ◌≢◌, inl, inr, true, false, Option, none, some, List, [],
  ◌∷◌, All, Text, text_eq_iff, Result-cases, ok, Option-cases, arith, map_get, map_get-map_insert,
  map_get-map_remove,
}
use werrss.Domain.Job.{Clock, IsExact}
use werrss.Persistence.AccountLeases.{
  AccountLease, MemoryState, is_live_at, validate_inputs, set_now, matches, any_matches, any_live,
  is_held, acquire, heartbeat, release,
}
use werrss.Persistence.AccountLeases.Holding.{
  LeaseCall, acquires, heartbeats, releases, sets_now, lease_step, lease_run,
}

-- The call leaves the lease `l` of its account alone: it does not present the token, and sets no
-- clock past the end.
abbrev pub IsOther : AccountLease → LeaseCall → Type 0
IsOther l (acquires fresh id owner lease_for) = Unit
IsOther l (heartbeats id owner token lease_for) = token ≢ l.token
IsOther l (releases id owner token) = token ≢ l.token
IsOther l (sets_now now) = now < l.lease_until

-- The account's entry is the lease, which has not ended.
pub record Holds (id : ℕ) (l : AccountLease) (s : MemoryState) : Type 0 where
  pub entry : map_get id s.leases ≡ some l
  pub live : s.now < l.lease_until

-- The lease that a grant at `now` writes.
abbrev granted : ℕ → Text → ℕ → ℕ → ℕ → AccountLease
granted id owner token until now = record {
  account_id = id;
  owner = owner;
  token = token;
  lease_until = until;
  heartbeat_at = now;
}

lease_step-Holds :
    (c : Clock) (id : ℕ) (l : AccountLease) (x : LeaseCall) (s : MemoryState)
    → IsOther l x
    → Holds id l s
    → Holds id l (lease_step c x s).0
unfolding lease_step acquire heartbeat release set_now any_live is_live_at any_matches matches
lease_step-Holds c id l (acquires fresh i owner lease_for) s o h =
    elim (Option-cases (c.checked_add_signed s.now lease_for)) [
      | inl over ↦ record { entry = ground (arith, h.entry, h.live); live = ground (arith, h.live) }
      | inr (until, adds) ↦ record {
        entry = ground (
          arith,
          h.entry,
          h.live,
          map_get-map_insert i id (granted i owner fresh until s.now) s.leases,
        );
        live = ground (arith, h.live);
      }
    ]
lease_step-Holds c id l (heartbeats i owner token lease_for) s o h =
    elim (Option-cases (c.checked_add_signed s.now lease_for)) [
      | inl over ↦ record { entry = ground (arith, h.entry, h.live); live = ground (arith, h.live) }
      | inr (until, adds) ↦ record {
        entry = ground (
          arith,
          h.entry,
          h.live,
          map_get-map_insert i id (granted i owner token until s.now) s.leases,
        );
        live = ground (arith, h.live);
      }
    ]
lease_step-Holds c id l (releases i owner token) s o h =
    let got = map_get-map_remove i id s.leases in
    record { entry = ground (arith, h.entry, h.live, got); live = ground (arith, h.live) }
lease_step-Holds c id l (sets_now now) s o h = record { entry = h.entry; live = o }

lease_run-Holds :
    (c : Clock) (id : ℕ) (l : AccountLease) (xs : List LeaseCall) (s : MemoryState)
    → All (IsOther l) xs
    → Holds id l s
    → Holds id l (lease_run c xs s)
unfolding lease_run
lease_run-Holds c id l [] s a h = h
lease_run-Holds c id l (x ∷ xs) s a h =
    lease_run-Holds c id l xs (lease_step c x s).0 a.1 (lease_step-Holds c id l x s a.0 h)

validate_inputs-positive :
    (id : ℕ) (owner : Text) (n : ℕ) → validate_inputs id owner (pos n) ≡ ok tt → 0 < n
unfolding validate_inputs
validate_inputs-positive id owner zero h = ground arith
validate_inputs-positive id owner (suc n) h = omega arith

acquire-Holds :
    (c : Clock) (fresh id : ℕ) (owner : Text) (n : ℕ) (s : MemoryState) (l : AccountLease)
    → IsExact c
    → (acquire c fresh id owner (pos n) s).1 ≡ ok (some l)
    → Holds id l (acquire c fresh id owner (pos n) s).0 × (l.owner ≡ owner) × (l.token ≡ fresh)
unfolding acquire
acquire-Holds c fresh id owner n s l exact h =
    elim (Result-cases (validate_inputs id owner (pos n))) [
      | inl (e, bad) ↦ absurd (ground arith)
      | inr (u, good) ↦ elim (Option-cases (c.checked_add_signed s.now (pos n))) [
        | inl over ↦ absurd (ground arith)
        | inr (until, adds) ↦
            let sum = exact.exact s.now n until adds in
            let later = validate_inputs-positive id owner n good in
            let got = map_get-map_insert id id (granted id owner fresh until s.now) s.leases in
            (
              record { entry = ground (arith, got); live = ground (arith, sum, later) },
              ground arith,
              ground arith,
            )
      ]
    ]

Holds-acquire :
    (c : Clock) (fresh id : ℕ) (owner : Text) (lease_for : ℤ) (s : MemoryState) (l : AccountLease)
    → Holds id l s
    → validate_inputs id owner lease_for ≡ ok tt
    → acquire c fresh id owner lease_for s ≡ (s, ok none)
unfolding acquire any_live is_live_at
Holds-acquire c fresh id owner lease_for s l h valid = ground (arith, h.entry, h.live)

Holds-is_held :
    (id : ℕ) (s : MemoryState) (l : AccountLease)
    → Holds id l s
    → is_held id l.owner l.token s ≡ true
unfolding is_held any_matches matches is_live_at
Holds-is_held id s l h = ground (arith, h.entry, h.live, text_eq_iff l.owner l.owner)

-- A granted lease is exclusive: as long as the clock stays below its end and nobody else presents
-- its token, its holder still holds it after any history of calls, and every further acquisition
-- of the account with valid inputs is answered with no lease and changes nothing.
pub acquire_exclusive :
    (c : Clock) (fresh id : ℕ) (owner : Text) (n : ℕ) (s : MemoryState) (l : AccountLease)
    (xs : List LeaseCall) (token : ℕ) (other : Text) (lease_for : ℤ)
    → IsExact c
    → (acquire c fresh id owner (pos n) s).1 ≡ ok (some l)
    → All (IsOther l) xs
    → validate_inputs id other lease_for ≡ ok tt
    → let after = lease_run c xs (acquire c fresh id owner (pos n) s).0 in
      (is_held id owner fresh after ≡ true)
      × (acquire c token id other lease_for after ≡ (after, ok none))
acquire_exclusive c fresh id owner n s l xs token other lease_for exact h a valid =
    let (first, same_owner, same_token) = acquire-Holds c fresh id owner n s l exact h in
    let after = lease_run c xs (acquire c fresh id owner (pos n) s).0 in
    let held = lease_run-Holds c id l xs (acquire c fresh id owner (pos n) s).0 a first in
    (
      subst (λ t. is_held id owner t after ≡ true) same_token
          (subst (λ o. is_held id o l.token after ≡ true) same_owner
            (Holds-is_held id after l held)),
      Holds-acquire c token id other lease_for after l held valid,
    )

-- The token that a call issues, and whether it presents a token for an account.
abbrev issues : LeaseCall → Option ℕ
issues (acquires fresh id owner lease_for) = some fresh
issues _ = none

abbrev Presents : LeaseCall → ℕ → ℕ → Type 0
Presents (heartbeats i owner t lease_for) id token = (i ≡ id) × (t ≡ token)
Presents (releases i owner t) id token = (i ≡ id) × (t ≡ token)
Presents _ id token = ⊥

-- The token under which an account is leased, live or not.
abbrev token_at : ℕ → MemoryState → Option ℕ
token_at id s = elim (map_get id s.leases) [ none ↦ none | some l ↦ some l.token ]

lease_step-token_at :
    (c : Clock) (id token : ℕ) (x : LeaseCall) (s : MemoryState)
    → token_at id s ≢ some token
    → issues x ≢ some token
    → token_at id (lease_step c x s).0 ≢ some token
unfolding lease_step acquire heartbeat release set_now any_matches matches
lease_step-token_at c id token (acquires fresh i owner lease_for) s h n =
    elim (Option-cases (c.checked_add_signed s.now lease_for)) [
      | inl over ↦ ground arith
      | inr (until, adds) ↦
          ground (arith, map_get-map_insert i id (granted i owner fresh until s.now) s.leases)
    ]
lease_step-token_at c id token (heartbeats i owner t lease_for) s h n =
    elim (Option-cases (c.checked_add_signed s.now lease_for)) [
      | inl over ↦ ground arith
      | inr (until, adds) ↦
          ground (arith, map_get-map_insert i id (granted i owner t until s.now) s.leases)
    ]
lease_step-token_at c id token (releases i owner t) s h n =
    ground (arith, map_get-map_remove i id s.leases)
lease_step-token_at c id token (sets_now now) s h n = h

lease_run-token_at :
    (c : Clock) (id token : ℕ) (xs : List LeaseCall) (s : MemoryState)
    → token_at id s ≢ some token
    → All (λ x. issues x ≢ some token) xs
    → token_at id (lease_run c xs s) ≢ some token
unfolding lease_run
lease_run-token_at c id token [] s h a = h
lease_run-token_at c id token (x ∷ xs) s h a =
    lease_run-token_at c id token xs (lease_step c x s).0 (lease_step-token_at c id token x s h a.0)
      a.1

Presents-refused :
    (c : Clock) (id token : ℕ) (x : LeaseCall) (s : MemoryState)
    → token_at id s ≢ some token
    → Presents x id token
    → lease_step c x s ≡ (s, false)
unfolding lease_step heartbeat release any_matches matches
Presents-refused c id token (acquires fresh i owner lease_for) s h p = absurd p
Presents-refused c id token (heartbeats i owner t lease_for) s h p = ground arith
Presents-refused c id token (releases i owner t) s h p = ground arith
Presents-refused c id token (sets_now now) s h p = absurd p

-- A token that is not the account's, and that no later acquisition issues, is dead: after any
-- history, a heartbeat or a release that presents it is refused and changes nothing.
pub lease_run_stale :
    (c : Clock) (id token : ℕ) (xs : List LeaseCall) (x : LeaseCall) (s : MemoryState)
    → token_at id s ≢ some token
    → All (λ y. issues y ≢ some token) xs
    → Presents x id token
    → lease_step c x (lease_run c xs s) ≡ (lease_run c xs s, false)
lease_run_stale c id token xs x s h a p =
    Presents-refused c id token x (lease_run c xs s) (lease_run-token_at c id token xs s h a) p
