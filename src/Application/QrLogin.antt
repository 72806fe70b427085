-- ===== src/Application/QrLogin.antt =====
-- QR login attempts, src/application/qr_login.rs. A manager is its map of attempts and the log of
-- the challenges that it asked the transport to cancel. An operation takes what the transport
-- answers, the values it draws (an attempt's UUID, its cell's address) and the actions of the other
-- tasks at each point where it waits. A challenge and a session are the transport's, and drawing a
-- QR code is left to the `qrcode` crate.
pub mod Operations
pub mod Invariants
pub mod History
pub mod Cells
pub mod Outcomes
pub mod Capacity
pub mod Attempts
use werrss.Common.{
  ℕ, ℤ, is_positive, Bool, true, false, not, ◌||◌, Option, none, some, List, [], ◌∷◌, ◌++◌, length,
  Text, trim, is_empty, ltb, leb, ◌==◌, if◌then◌else◌, Result, ok, err, HashMap, map_get,
  map_insert, map_remove,
}
use werrss.Domain.Job.{Clock}

pub data QrLoginConfigError : Type 0 where
  invalid_ttl invalid_capacity : QrLoginConfigError

pub record QrLoginConfig : Type 0 where
  pub attempt_ttl : ℤ
  pub max_active_attempts : ℕ

-- `QrLoginConfig::new`.
unfoldable pub new_config : ℤ → ℕ → Result QrLoginConfigError QrLoginConfig
new_config attempt_ttl max_active_attempts =
    if not (is_positive attempt_ttl)
    then err invalid_ttl
    else if max_active_attempts == 0
    then err invalid_capacity
    else ok (record { attempt_ttl = attempt_ttl; max_active_attempts = max_active_attempts })

pub data QrLoginState : Type 0 where
  waiting_for_scan scanned completed expired cancelled risk_controlled : QrLoginState

pub data QrLoginTransportPoll (Session : Type 0) : Type 0 where
  transport_waiting transport_scanned : QrLoginTransportPoll Session
  transport_authenticated : Session → QrLoginTransportPoll Session
  transport_expired transport_risk_controlled : QrLoginTransportPoll Session

pub data QrLoginTransportError : Type 0 where
  unavailable invalid_response refused_for_risk : QrLoginTransportError

pub data QrLoginError : Type 0 where
  attempt_not_found too_many_active_attempts : QrLoginError
  transport : QrLoginTransportError → QrLoginError
  invalid_deadline qr_code : QrLoginError

pub record QrLoginStatusResponse : Type 0 where
  pub attempt_id : ℕ
  pub status : QrLoginState
  pub expires_at : ℕ

pub record QrLoginStarted : Type 0 where
  pub attempt_id : ℕ
  pub account_id : ℕ
  pub qr_svg : Text
  pub expires_at : ℕ

pub data QrLoginPollResult (Session : Type 0) : Type 0 where
  status : QrLoginStatusResponse → QrLoginPollResult Session
  authenticated :
      (account_id : ℕ) (requested_display_name : Option Text) (session : Session)
      → QrLoginPollResult Session

pub record QrLoginAttempt (Challenge : Type 0) : Type 0 where
  pub challenge : Challenge
  pub account_id : ℕ
  pub requested_display_name : Option Text
  pub expires_at : ℕ
  pub state : QrLoginState

-- An `Arc<AttemptCell>`: its address, whether its mutex is held, and what the mutex guards.
pub record AttemptCell (Challenge : Type 0) : Type 0 where
  pub address : ℕ
  pub locked : Bool
  pub attempt : QrLoginAttempt Challenge

pub record Manager (Challenge : Type 0) : Type 0 where
  pub attempts : HashMap (AttemptCell Challenge)
  pub released : List Challenge

unfoldable pub status_for :
    {Challenge : Type 0} → ℕ → QrLoginAttempt Challenge → QrLoginState → QrLoginStatusResponse
status_for attempt_id attempt state = record {
  attempt_id = attempt_id;
  status = state;
  expires_at = attempt.expires_at;
}

module _ {Challenge : Type 0} where
  -- `retain` of `prune_expired`: a cell whose mutex is held stays.
  unfoldable pub unexpired : ℕ → HashMap (AttemptCell Challenge) → HashMap (AttemptCell Challenge)
  unexpired now [] = []
  unexpired now ((id, cell) ∷ attempts) =
      if cell.locked || ltb now cell.attempt.expires_at
      then (id, cell) ∷ unexpired now attempts
      else unexpired now attempts

  unfoldable pub expired_challenges : ℕ → HashMap (AttemptCell Challenge) → List Challenge
  expired_challenges now [] = []
  expired_challenges now ((id, cell) ∷ attempts) =
      if cell.locked || ltb now cell.attempt.expires_at
      then expired_challenges now attempts
      else cell.attempt.challenge ∷ expired_challenges now attempts

  unfoldable pub release_transport : Challenge → Manager Challenge → Manager Challenge
  release_transport challenge m = record m { released = m.released ++ (challenge ∷ []) }

  unfoldable pub prune_expired : ℕ → Manager Challenge → Manager Challenge
  prune_expired now m = record {
    attempts = unexpired now m.attempts;
    released = m.released ++ expired_challenges now m.attempts;
  }

  -- The cell of an attempt, if it is still the one at the address.
  unfoldable pub current : ℕ → ℕ → Manager Challenge → Option (AttemptCell Challenge)
  current attempt_id address m = elim (map_get attempt_id m.attempts) [
    | none ↦ none
    | some cell ↦ if cell.address == address then some cell else none
  ]

  unfoldable pub remove_attempt : ℕ → ℕ → Manager Challenge → Manager Challenge
  remove_attempt attempt_id address m = elim (current attempt_id address m) [
    | none ↦ m
    | some cell ↦ record m { attempts = map_remove attempt_id m.attempts }
  ]

  -- A write to the cell at the address.
  unfoldable pub on_cell :
      ℕ
      → ℕ
      → (AttemptCell Challenge → AttemptCell Challenge)
      → Manager Challenge
      → Manager Challenge
  on_cell attempt_id address f m = elim (current attempt_id address m) [
    | none ↦ m
    | some cell ↦ record m { attempts = map_insert attempt_id (f cell) m.attempts }
  ]

  abbrev pub lock : Bool → AttemptCell Challenge → AttemptCell Challenge
  lock b cell = record cell { locked = b }

  abbrev pub set_state : QrLoginState → AttemptCell Challenge → AttemptCell Challenge
  set_state s cell = record cell { attempt = record cell.attempt { state = s } }

  unfoldable pub is_full : QrLoginConfig → Manager Challenge → Bool
  is_full config m = leb config.max_active_attempts (length m.attempts)

  -- The last section of `start_at`, under the map's mutex.
  unfoldable pub admit :
      QrLoginConfig → ℕ → AttemptCell Challenge → Manager Challenge → Manager Challenge
  admit config attempt_id cell m =
      if is_full config m
      then release_transport cell.attempt.challenge m
      else record m { attempts = map_insert attempt_id cell m.attempts }
