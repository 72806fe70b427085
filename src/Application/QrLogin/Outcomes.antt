-- ===== src/Application/QrLogin/Outcomes.antt =====
-- What starts and polls of a QR login manager answer, src/application/qr_login.rs.
use werrss.Common.{
  ℕ, ◌<◌, ◌≡◌, refl, inl, inr, true, false, Option, some, List, [], ◌∷◌, ◌++◌, Text, Result, ok,
  err, Result-cases, Option-cases, Bool-cases, arith, map_get, map_get-map_insert, ap, ◌∙◌,
}
use werrss.Domain.Job.{Clock}
use werrss.Application.QrLogin.{
  QrLoginConfig, QrLoginError, QrLoginStarted, AttemptCell, Manager, release_transport,
  prune_expired, current, on_cell, is_full, admit, lock, transport_waiting, transport_scanned,
  transport_authenticated, transport_expired, transport_risk_controlled, authenticated,
  QrLoginTransportPoll,
}
use werrss.Application.QrLogin.Operations.{
  Start, Poll, acts, new_cell, finish_start, start_at, keep, settle, expire, poll_locked,
  poll_at_with_clock,
}

-- Where the challenge of a start ends up: kept with the attempt, or given back last of all.
abbrev pub Disposed :
    {Challenge : Type 0}
    → Challenge
    → Manager Challenge
    → Result QrLoginError QrLoginStarted
    → Type 0
Disposed {Challenge} challenge m (err e) =
    (log : List Challenge) × (m.released ≡ log ++ (challenge ∷ []))
Disposed {Challenge} challenge m (ok started) =
    (cell : AttemptCell Challenge) × (map_get started.attempt_id m.attempts ≡ some cell)
    × (cell.attempt.challenge ≡ challenge)
    × (cell.attempt.expires_at ≡ started.expires_at)
    × (cell.attempt.account_id ≡ started.account_id)

module _ {Challenge : Type 0} (config : QrLoginConfig) where
  finish_start-Disposed :
      (call : Start Challenge) (challenge : Challenge) (svg : Text) (until : ℕ)
      (m : Manager Challenge)
      → let end = finish_start config call challenge svg until m in Disposed challenge end.0 end.1
  unfolding finish_start admit release_transport
  finish_start-Disposed call challenge svg until m =
      let pruned = acts config call.while_pruning (prune_expired call.now m) in
      elim (Bool-cases (is_full config pruned)) [
        | inl full ↦ rw (full, finish_start, admit, release_transport) (pruned.released, refl)
        | inr room ↦
            let got =
              map_get-map_insert call.new_attempt call.new_attempt (new_cell call challenge until)
                pruned.attempts in
            rw (room, finish_start, admit)
              (new_cell call challenge until, ground arith, refl, refl, refl)
      ]

  -- A start that the transport has given a challenge does not lose it: with an attempt started, the
  -- attempt keeps it, with the deadline and account that are answered, and with an error it is the
  -- last that the transport is asked to cancel.
  pub start_at-Disposed :
      (clock : Clock) (render_qr_svg : Challenge → Option Text) (call : Start Challenge)
      (challenge : Challenge) (m : Manager Challenge)
      → call.begin ≡ ok challenge
      → is_full config (acts config call.before_checking (prune_expired call.now m)) ≡ false
      → let end = start_at config clock render_qr_svg call m in Disposed challenge end.0 end.1
  unfolding start_at release_transport
  start_at-Disposed clock render call challenge m got room =
      let begun =
        acts config call.while_beginning
          (acts config call.before_checking (prune_expired call.now m)) in
      elim (Option-cases (render challenge)) [
        | inl bad ↦ rw (room, got, bad, start_at, release_transport) (begun.released, refl)
        | inr (svg, drawn) ↦
            elim (Option-cases (clock.checked_add_signed call.now config.attempt_ttl)) [
              | inl over ↦
                  rw (room, got, drawn, over, start_at, release_transport) (begun.released, refl)
              | inr (until, adds) ↦
                  rw (room, got, drawn, adds, start_at)
                    (finish_start-Disposed call challenge svg until begun)
            ]
      ]

module _ {Challenge Session : Type 0} (config : QrLoginConfig) where
  settle-authenticated :
      (call : Poll Challenge Session) (cell : AttemptCell Challenge)
      (result : QrLoginTransportPoll Session) (m : Manager Challenge) (account : ℕ)
      (name : Option Text) (session : Session)
      → (settle config call cell result m).1 ≡ ok (authenticated account name session)
      → (result ≡ transport_authenticated session)
        × (account ≡ cell.attempt.account_id)
        × (name ≡ cell.attempt.requested_display_name)
  unfolding settle keep
  settle-authenticated call cell transport_waiting m account name session h = absurd (ground arith)
  settle-authenticated call cell transport_scanned m account name session h = absurd (ground arith)
  settle-authenticated call cell transport_expired m account name session h = absurd (ground arith)
  settle-authenticated call cell transport_risk_controlled m account name session h =
      absurd (ground arith)
  settle-authenticated call cell (transport_authenticated s) m account name session h =
      (ground arith, ground arith, ground arith)

  poll_locked-authenticated :
      (call : Poll Challenge Session) (cell : AttemptCell Challenge) (m : Manager Challenge)
      (account : ℕ) (name : Option Text) (session : Session)
      → (poll_locked config call cell m).1 ≡ ok (authenticated account name session)
      → (call.answer ≡ ok (transport_authenticated session))
        × (call.now < cell.attempt.expires_at)
        × (call.clock < cell.attempt.expires_at)
        × (account ≡ cell.attempt.account_id)
        × (name ≡ cell.attempt.requested_display_name)
  unfolding poll_locked expire
  poll_locked-authenticated call cell m account name session h = elim (Result-cases call.answer) [
    | inl (e, failed) ↦ absurd (ground arith)
    | inr (result, got) ↦
        let early : call.now < cell.attempt.expires_at = ground arith in
        let timely : call.clock < cell.attempt.expires_at = ground arith in
        let same : (settle config call cell result (acts config call.while_polling m)).1
            ≡ ok (authenticated account name session) =
          ground arith in
        let (sent, owner, named) =
          settle-authenticated call cell result (acts config call.while_polling m) account name
            session same in
        (got ∙ ap ok sent, early, timely, owner, named)
  ]

  -- A session that a poll answers is the transport's answer, for the account and the name of the
  -- attempt that the poll held, whose deadline lies beyond both the poll's instant and the one at
  -- which the transport answered.
  pub poll-authenticated :
      (call : Poll Challenge Session) (m : Manager Challenge) (account : ℕ) (name : Option Text)
      (session : Session)
      → (poll_at_with_clock config call m).1 ≡ ok (authenticated account name session)
      → (found : AttemptCell Challenge) × (cell : AttemptCell Challenge) × (map_get call.attempt_id
            m.attempts
          ≡ some found)
        × (current call.attempt_id found.address (acts config call.while_locking m) ≡ some cell)
        × (call.answer ≡ ok (transport_authenticated session))
        × (call.now < cell.attempt.expires_at)
        × (call.clock < cell.attempt.expires_at)
        × (account ≡ cell.attempt.account_id)
        × (name ≡ cell.attempt.requested_display_name)
  unfolding poll_at_with_clock
  poll-authenticated call m account name session h =
      elim (Option-cases (map_get call.attempt_id m.attempts)) [
        | inl gone ↦ absurd (ground arith)
        | inr (found, here) ↦
            let waited = acts config call.while_locking m in
            elim (Option-cases (current call.attempt_id found.address waited)) [
              | inl lost ↦ absurd (ground arith)
              | inr (cell, still) ↦
                  let held = on_cell call.attempt_id cell.address (lock true) waited in
                  let locked : (poll_locked config call cell held).1
                      ≡ ok (authenticated account name session) =
                    ground arith in
                  let (sent, early, timely, owner, named) =
                    poll_locked-authenticated call cell held account name session locked in
                  (found, cell, here, still, sent, early, timely, owner, named)
            ]
      ]
