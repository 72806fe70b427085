-- ===== src/Tests/QrRuns.antt =====
-- Runs of the QR login manager, src/application/qr_login.rs.
use werrss.Common.{
  ℕ, ◌<◌, ◌≡◌, refl, false, Option, none, some, List, [], ◌∷◌, Text, codes, ok, err, pos, map_get,
  arith,
}
use werrss.Application.QrLogin.{
  QrLoginConfig, AttemptCell, Manager, transport_authenticated, waiting_for_scan, attempt_not_found,
  invalid_deadline, current, QrLoginPollResult, authenticated,
}
use werrss.Application.QrLogin.Operations.{
  Start, Poll, Cancel, prunes, admits, start_at, poll_at_with_clock, cancel_at, acts,
}
use werrss.Application.QrLogin.History.{QrCall, starts, polls, qr_run}
use werrss.Application.QrLogin.Capacity.{IsBounded, qr_run-IsBounded}
use werrss.Application.QrLogin.Attempts.{poll_single_use}
use werrss.Application.QrLogin.Outcomes.{Disposed, start_at-Disposed, poll-authenticated}
use werrss.Tests.Data.{test_clock}

abbrev qr_config : QrLoginConfig
qr_config = record { attempt_ttl = pos 300; max_active_attempts = 2 }

-- Challenges and sessions are numbers here.
abbrev pending : AttemptCell ℕ
pending = record {
  address = 900;
  locked = false;
  attempt = record {
    challenge = 31;
    account_id = 5;
    requested_display_name = some (codes "me");
    expires_at = 400;
    state = waiting_for_scan;
  };
}

abbrev one_attempt : Manager ℕ
one_attempt = record { attempts = (7, pending) ∷ []; released = [] }

abbrev draws : ℕ → Option Text
draws challenge = some (codes "svg")

abbrev start_call : Start ℕ
start_call = record {
  account_id = none;
  display_name = some (codes " you ");
  now = 200;
  new_account = 6;
  new_attempt = 8;
  address = 901;
  begin = ok 32;
  before_checking = [];
  while_beginning = prunes 210 ∷ [];
  while_pruning = [];
}

abbrev confirming : Poll ℕ ℕ
confirming = record {
  attempt_id = 7;
  now = 250;
  clock = 260;
  answer = ok (transport_authenticated 77);
  while_locking = [];
  while_polling = prunes 255 ∷ [];
  while_removing = [];
}

abbrev cancel_call : Cancel ℕ
cancel_call = record {
  attempt_id = 7;
  now = 270;
  answer = ok tt;
  while_locking = [];
  while_cancelling = [];
  while_removing = [];
}

abbrev qr_calls : List (QrCall ℕ ℕ)
qr_calls = starts start_call ∷ []

qr_run-IsBounded_example :
    IsBounded qr_config
      (qr_run qr_config test_clock draws (polls confirming ∷ qr_calls) one_attempt)
qr_run-IsBounded_example =
    qr_run-IsBounded qr_config test_clock draws (polls confirming ∷ qr_calls) one_attempt
      (omega arith)

poll_single_use_example :
    let after =
      qr_run qr_config test_clock draws qr_calls
        (poll_at_with_clock qr_config confirming one_attempt).0 in
    (poll_at_with_clock qr_config confirming after ≡ (after, err attempt_not_found))
    × (cancel_at qr_config cancel_call after ≡ (after, err attempt_not_found))
unfolding poll_at_with_clock map_get current acts werrss.Application.QrLogin.Operations.poll_locked
    werrss.Application.QrLogin.Operations.settle
poll_single_use_example =
    poll_single_use qr_config test_clock draws confirming confirming cancel_call
      (authenticated 5 (some (codes "me")) 77) qr_calls one_attempt (tt, tt)
      (record { locking = tt; polling = (tt, tt); removing = tt })
      (
        record {
          before = tt;
          beginning = (tt, tt);
          pruning = tt;
          own = λ challenge expires_at e. ground arith;
        },
        tt,
      )
      refl refl refl tt

start_at-Disposed_example :
    let end = start_at qr_config test_clock draws start_call one_attempt in Disposed 32 end.0 end.1
unfolding werrss.Application.QrLogin.is_full acts werrss.Application.QrLogin.prune_expired
    werrss.Application.QrLogin.unexpired
start_at-Disposed_example =
    start_at-Disposed qr_config test_clock draws start_call 32 one_attempt refl refl

poll-authenticated_example :
    (found : AttemptCell ℕ) × (cell : AttemptCell ℕ) × (map_get 7 one_attempt.attempts ≡ some found)
    × (current 7 found.address (acts qr_config [] one_attempt) ≡ some cell)
    × (confirming.answer ≡ ok (transport_authenticated 77))
    × (250 < cell.attempt.expires_at)
    × (260 < cell.attempt.expires_at)
    × (5 ≡ cell.attempt.account_id)
    × (some (codes "me") ≡ cell.attempt.requested_display_name)
unfolding poll_at_with_clock map_get current acts werrss.Application.QrLogin.Operations.poll_locked
    werrss.Application.QrLogin.Operations.settle
poll-authenticated_example =
    poll-authenticated qr_config confirming one_attempt 5 (some (codes "me")) 77 refl
