-- ===== src/Application/AuthService/Waiting.antt =====
-- What happens while the authentication service awaits: its heartbeat task, of
-- src/acquisition/browser_pool.rs, and the calls of other tasks.
use werrss.Common.{true, none, some, List, [], ◌∷◌, ok, err}
use werrss.Persistence.AccountLeases.{AccountLease, heartbeat}
use werrss.Persistence.AccountLeases.Holding.{lease_step}
use werrss.Persistence.CredentialStore.Records.{credential_step}
use werrss.Application.AuthService.{World, Event, lease_call, account_call, ticks, Dependencies}

module _ (deps : Dependencies) where
  unfoldable pub tick : AccountLease → World → World
  tick lease w =
      let beat =
        heartbeat deps.clock lease.account_id lease.owner lease.token deps.config.lease_for
          w.leases in
      elim (beat.1) [
        | ok extended ↦ record w { leases = beat.0 }
        | err e ↦ record w {
          leases = beat.0;
          beating = none;
          cancelled = true;
          beat_error = some e;
        }
      ]

  unfoldable pub happen : Event → World → World
  happen (lease_call x) w = record w { leases = (lease_step deps.clock x w.leases).0 }
  happen (account_call x) w = record w { accounts = credential_step x w.accounts }
  happen ticks w = elim (w.beating) [ none ↦ w | some lease ↦ tick lease w ]

  unfoldable pub all_happen : List Event → World → World
  all_happen [] w = w
  all_happen (x ∷ xs) w = all_happen xs (happen x w)

  abbrev next_batch : List (List Event) → World → World
  next_batch [] w = w
  next_batch (batch ∷ rest) w = all_happen batch (record w { schedule = rest })

  unfoldable pub pause : World → World
  pause w = next_batch w.schedule w
