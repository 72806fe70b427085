-- ===== src/Tests/LeaseRuns.antt =====
-- Runs of the account leases, src/persistence/repositories/account_lease_repository.rs.
use werrss.Common.{
  ℕ, ◌≡◌, refl, ◌≢◌, ◌⊎◌, true, false, not, Option, none, some, List, [], ◌∷◌, All, pos, ok,
  map_get, arith,
}
use werrss.Persistence.AccountLeases.{MemoryState, AccountLease, any_live, is_held, acquire}
use werrss.Persistence.AccountLeases.Holding.{
  LeaseCall, acquires, heartbeats, releases, sets_now, lease_step, lease_run,
}
use werrss.Persistence.AccountLeases.Fencing.{acquire_exclusive, lease_run_stale}
use werrss.Tests.Data.{test_clock, test_clock-IsExact, worker_a, worker_b}

abbrev lease_a : AccountLease
lease_a = record {
  account_id = 5;
  owner = worker_a;
  token = 70;
  lease_until = 130;
  heartbeat_at = 100;
}

abbrev nothing_leased : MemoryState
nothing_leased = record { now = 100; leases = [] }

abbrev leased_a : MemoryState
leased_a = record { now = 110; leases = (5, lease_a) ∷ [] }

abbrev later_calls : List LeaseCall
later_calls =
    sets_now 120
    ∷ acquires 71 5 worker_b (pos 30)
    ∷ releases 5 worker_b 71
    ∷ heartbeats 5 worker_b 71 (pos 30)
    ∷ acquires 72 6 worker_b (pos 30)
    ∷ []

acquire_exclusive_example :
    let after =
      lease_run test_clock later_calls
        (acquire test_clock 70 5 worker_a (pos 30) nothing_leased).0 in
    (is_held 5 worker_a 70 after ≡ true)
    × (acquire test_clock 73 5 worker_b (pos 9) after ≡ (after, ok none))
unfolding acquire werrss.Persistence.AccountLeases.validate_inputs
    werrss.Persistence.AccountLeases.validate_account_and_owner
    werrss.Persistence.AccountLeases.validate_account_id werrss.Common.is_blank any_live map_get
acquire_exclusive_example =
    acquire_exclusive test_clock 70 5 worker_a 30 nothing_leased lease_a later_calls 73 worker_b
      (pos 9) test_clock-IsExact refl
      (omega arith, (tt, (λ e. ground arith, (λ e. ground arith, (tt, tt))))) refl

lease_run_stale_example :
    lease_step test_clock
      (heartbeats 5 worker_a 69 (pos 30))
      (lease_run test_clock later_calls leased_a)
    ≡ (lease_run test_clock later_calls leased_a, false)
unfolding map_get
lease_run_stale_example =
    lease_run_stale test_clock 5 69 later_calls (heartbeats 5 worker_a 69 (pos 30)) leased_a
      (λ e. ground arith)
      (
        λ e. ground arith,
        (λ e. ground arith, (λ e. ground arith, (λ e. ground arith, (λ e. ground arith, tt)))),
      )
      (refl, refl)
