-- ===== src/Application/QrLogin/Operations.antt =====
-- `start_at`, `poll_at_with_clock` and `cancel_at` of `QrLoginManager`, with what other tasks do to
-- the manager while one of them waits, src/application/qr_login.rs.
use werrss.Common.{
  ℕ, Bool, true, false, Option, none, some, List, [], ◌∷◌, Text, trim, is_empty, leb, if◌then◌else◌,
  Result, ok, err, map_get,
}
use werrss.Domain.Job.{Clock}
use werrss.Application.QrLogin.{
  QrLoginConfig, QrLoginState, QrLoginTransportPoll, QrLoginTransportError, QrLoginError,
  QrLoginStatusResponse, QrLoginStarted, QrLoginPollResult, AttemptCell, Manager, waiting_for_scan,
  scanned, expired, cancelled, risk_controlled, transport_waiting, transport_scanned,
  transport_authenticated, transport_expired, transport_risk_controlled, attempt_not_found,
  too_many_active_attempts, transport, invalid_deadline, qr_code, status, authenticated, status_for,
  release_transport, prune_expired, current, remove_attempt, on_cell, lock, set_state, is_full,
  admit,
}

-- What another task does to the manager in one go.
pub data Action (Challenge : Type 0) : Type 0 where
  prunes : (now : ℕ) → Action Challenge
  admits : (attempt_id : ℕ) (cell : AttemptCell Challenge) → Action Challenge
  removes : (attempt_id address : ℕ) → Action Challenge
  locks : (attempt_id address : ℕ) (held : Bool) → Action Challenge
  sets : (attempt_id address : ℕ) (state : QrLoginState) → Action Challenge
  releases : (challenge : Challenge) → Action Challenge

-- What a start works with: the transport's answer, the drawn UUIDs, the address of the new cell,
-- and the actions of others while it waits for the transport: after each pruning, and to begin.
pub record Start (Challenge : Type 0) : Type 0 where
  pub account_id : Option ℕ
  pub display_name : Option Text
  pub now : ℕ
  pub new_account : ℕ
  pub new_attempt : ℕ
  pub address : ℕ
  pub begin : Result QrLoginTransportError Challenge
  pub before_checking : List (Action Challenge)
  pub while_beginning : List (Action Challenge)
  pub while_pruning : List (Action Challenge)

-- What a poll works with; `clock` is the instant at which the transport has answered.
pub record Poll (Challenge Session : Type 0) : Type 0 where
  pub attempt_id : ℕ
  pub now : ℕ
  pub clock : ℕ
  pub answer : Result QrLoginTransportError (QrLoginTransportPoll Session)
  pub while_locking : List (Action Challenge)
  pub while_polling : List (Action Challenge)
  pub while_removing : List (Action Challenge)

pub record Cancel (Challenge : Type 0) : Type 0 where
  pub attempt_id : ℕ
  pub now : ℕ
  pub answer : Result QrLoginTransportError (Unit {0})
  pub while_locking : List (Action Challenge)
  pub while_cancelling : List (Action Challenge)
  pub while_removing : List (Action Challenge)

abbrev pub trimmed_name : Option Text → Option Text
trimmed_name none = none
trimmed_name (some name) = if is_empty (trim name) then none else some (trim name)

abbrev pub or_new : Option ℕ → ℕ → ℕ
or_new none new = new
or_new (some id) new = id

-- The cell that a start makes.
abbrev pub new_cell : {Challenge : Type 0} → Start Challenge → Challenge → ℕ → AttemptCell Challenge
new_cell call challenge expires_at = record {
  address = call.address;
  locked = false;
  attempt = record {
    challenge = challenge;
    account_id = or_new call.account_id call.new_account;
    requested_display_name = trimmed_name call.display_name;
    expires_at = expires_at;
    state = waiting_for_scan;
  };
}

module _ {Challenge : Type 0} (config : QrLoginConfig) where
  unfoldable pub act : Action Challenge → Manager Challenge → Manager Challenge
  act (prunes now) m = prune_expired now m
  act (admits id cell) m = admit config id cell m
  act (removes id address) m = remove_attempt id address m
  act (locks id address held) m = on_cell id address (lock held) m
  act (sets id address state) m = on_cell id address (set_state state) m
  act (releases challenge) m = release_transport challenge m

  unfoldable pub acts : List (Action Challenge) → Manager Challenge → Manager Challenge
  acts [] m = m
  acts (x ∷ xs) m = acts xs (act x m)

  -- The last section of a start; it prunes once more, and admits the attempt if there is room.
  unfoldable pub finish_start :
      Start Challenge
      → Challenge
      → Text
      → ℕ
      → Manager Challenge
      → Manager Challenge × Result QrLoginError QrLoginStarted
  finish_start call challenge qr_svg expires_at m =
      let pruned = acts call.while_pruning (prune_expired call.now m) in
      let admitted = admit config call.new_attempt (new_cell call challenge expires_at) pruned in
      if is_full config pruned then (admitted, err too_many_active_attempts) else (
        admitted,
        ok (record {
          attempt_id = call.new_attempt;
          account_id = or_new call.account_id call.new_account;
          qr_svg = qr_svg;
          expires_at = expires_at;
        }),
      )

  unfoldable pub start_at :
      Clock
      → (Challenge → Option Text)
      → Start Challenge
      → Manager Challenge
      → Manager Challenge × Result QrLoginError QrLoginStarted
  start_at clock render_qr_svg call m =
      let pruned = acts call.before_checking (prune_expired call.now m) in
      if is_full config pruned
      then (pruned, err too_many_active_attempts)
      else let begun = acts call.while_beginning pruned in
        elim call.begin [
          | err e ↦ (begun, err (transport e))
          | ok challenge ↦ elim (render_qr_svg challenge) [
            | none ↦ (release_transport challenge begun, err qr_code)
            | some qr_svg ↦ elim (clock.checked_add_signed call.now config.attempt_ttl) [
              | none ↦ (release_transport challenge begun, err invalid_deadline)
              | some expires_at ↦ finish_start call challenge qr_svg expires_at begun
            ]
          ]
        ]

  -- The end of a poll that is through with its attempt: the mutex is dropped, and the attempt
  -- removed once the map is free.
  unfoldable pub consume : ℕ → ℕ → List (Action Challenge) → Manager Challenge → Manager Challenge
  consume id address others m =
      remove_attempt id address (acts others (on_cell id address (lock false) m))

  -- A cancellation that holds the mutex of its attempt.
  unfoldable pub cancel_locked :
      Cancel Challenge
      → AttemptCell Challenge
      → Manager Challenge
      → Manager Challenge × Result QrLoginError QrLoginStatusResponse
  cancel_locked call cell m =
      let state = if leb cell.attempt.expires_at call.now then expired else cancelled in
      let asked = acts call.while_cancelling (release_transport cell.attempt.challenge m) in
      elim call.answer [
        | err e ↦ (on_cell call.attempt_id cell.address (lock false) asked, err (transport e))
        | ok _ ↦ (
          consume call.attempt_id cell.address call.while_removing
              (on_cell call.attempt_id cell.address (set_state state) asked),
          ok (status_for call.attempt_id cell.attempt state),
        )
      ]

  unfoldable pub cancel_at :
      Cancel Challenge
      → Manager Challenge
      → Manager Challenge × Result QrLoginError QrLoginStatusResponse
  cancel_at call m = elim (map_get call.attempt_id m.attempts) [
    | none ↦ (m, err attempt_not_found)
    | some found ↦
        let waited = acts call.while_locking m in
        elim (current call.attempt_id found.address waited) [
          | none ↦ (waited, err attempt_not_found)
          | some cell ↦
              cancel_locked call cell (on_cell call.attempt_id cell.address (lock true) waited)
        ]
  ]

module _ {Challenge Session : Type 0} where
  -- The end of a poll that keeps the attempt, in a new state.
  unfoldable pub keep :
      ℕ
      → AttemptCell Challenge
      → QrLoginState
      → Manager Challenge
      → Manager Challenge × Result QrLoginError (QrLoginPollResult Session)
  keep id cell state m = (
    on_cell id cell.address (lock false) (on_cell id cell.address (set_state state) m),
    ok (status (status_for id cell.attempt state)),
  )

module _ {Challenge Session : Type 0} (config : QrLoginConfig) where
  -- `match result` of a poll.
  unfoldable pub settle :
      Poll Challenge Session
      → AttemptCell Challenge
      → QrLoginTransportPoll Session
      → Manager Challenge
      → Manager Challenge × Result QrLoginError (QrLoginPollResult Session)
  settle call cell transport_waiting m = keep call.attempt_id cell waiting_for_scan m
  settle call cell transport_scanned m = keep call.attempt_id cell scanned m
  settle call cell transport_expired m = (
    consume config call.attempt_id cell.address call.while_removing m,
    ok (status (status_for call.attempt_id cell.attempt expired)),
  )
  settle call cell transport_risk_controlled m = (
    consume config call.attempt_id cell.address call.while_removing m,
    ok (status (status_for call.attempt_id cell.attempt risk_controlled)),
  )
  settle call cell (transport_authenticated session) m = (
    consume config call.attempt_id cell.address call.while_removing m,
    ok (authenticated cell.attempt.account_id cell.attempt.requested_display_name session),
  )

  unfoldable pub expire :
      Poll Challenge Session
      → AttemptCell Challenge
      → Manager Challenge
      → Manager Challenge × Result QrLoginError (QrLoginPollResult Session)
  expire call cell m = (
    release_transport cell.attempt.challenge
        (consume config call.attempt_id cell.address call.while_removing m),
    ok (status (status_for call.attempt_id cell.attempt expired)),
  )

  -- A poll that holds the mutex of its attempt.
  unfoldable pub poll_locked :
      Poll Challenge Session
      → AttemptCell Challenge
      → Manager Challenge
      → Manager Challenge × Result QrLoginError (QrLoginPollResult Session)
  poll_locked call cell m =
      if leb cell.attempt.expires_at call.now
      then expire call cell m
      else let polled = acts config call.while_polling m in
        elim call.answer [
          | err e ↦ (on_cell call.attempt_id cell.address (lock false) polled, err (transport e))
          | ok result ↦
              if leb cell.attempt.expires_at call.clock
              then expire call cell polled
              else settle call cell result polled
        ]

  unfoldable pub poll_at_with_clock :
      Poll Challenge Session
      → Manager Challenge
      → Manager Challenge × Result QrLoginError (QrLoginPollResult Session)
  poll_at_with_clock call m = elim (map_get call.attempt_id m.attempts) [
    | none ↦ (m, err attempt_not_found)
    | some found ↦
        let waited = acts config call.while_locking m in
        elim (current call.attempt_id found.address waited) [
          | none ↦ (waited, err attempt_not_found)
          | some cell ↦
              poll_locked call cell (on_cell call.attempt_id cell.address (lock true) waited)
        ]
  ]
