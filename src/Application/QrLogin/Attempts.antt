-- ===== src/Application/QrLogin/Attempts.antt =====
-- What becomes of one QR login attempt, src/application/qr_login.rs.
use werrss.Common.{
  ◌∙◌, sym, ap, subst, Lacks, Distinct, Lacks-map_get, Distinct-map_get, ◌≡◌, refl, ◌⊎◌, inl, inr,
  true, false, Option, none, some, List, All, leb, Text, ok, err, Result-cases, Option-cases,
  Bool-cases, arith, map_get,
}
use werrss.Domain.Job.{Clock}
use werrss.Application.QrLogin.{
  QrLoginConfig, QrLoginPollResult, AttemptCell, Manager, release_transport, current, on_cell, lock,
  status_for, transport_waiting, transport_scanned, transport_authenticated, transport_expired,
  transport_risk_controlled, expired, risk_controlled, status, authenticated, attempt_not_found,
  QrLoginTransportPoll,
}
use werrss.Application.QrLogin.Operations.{
  Poll, Cancel, acts, keep, settle, expire, poll_locked, poll_at_with_clock, cancel_at,
}
use werrss.Application.QrLogin.Invariants.{Admits, PollAdmits, acts_invariant}
use werrss.Application.QrLogin.History.{QrCall, CallAdmits, qr_run, qr_run_invariant}
use werrss.Application.QrLogin.Cells.{
  Entries, Other, Only, NotAgain, Entries-IsInvariant, Only-IsInvariant, consume-Lacks,
  current-address,
}

-- An answer after which the attempt is over.
abbrev pub IsOver : {Session : Type 0} → QrLoginPollResult Session → Type 0
IsOver (authenticated account name session) = Unit
IsOver (status response) = (response.status ≡ expired) ⊎ (response.status ≡ risk_controlled)

module _ {Challenge Session : Type 0} (config : QrLoginConfig) where
  settle_over :
      (call : Poll Challenge Session) (cell : AttemptCell Challenge)
      (result : QrLoginTransportPoll Session) (r : QrLoginPollResult Session)
      (m : Manager Challenge)
      → All (Admits (NotAgain call.attempt_id)) call.while_removing
      → Entries (Only call.attempt_id cell.address) m
      → (settle config call cell result m).1 ≡ ok r
      → IsOver r
      → Lacks call.attempt_id (settle config call cell result m).0.attempts
  unfolding settle keep status_for
  settle_over call cell transport_waiting (status x) m a o h over = absurd (ground arith)
  settle_over call cell transport_waiting (authenticated x n s) m a o h over = absurd (ground arith)
  settle_over call cell transport_scanned (status x) m a o h over = absurd (ground arith)
  settle_over call cell transport_scanned (authenticated x n s) m a o h over = absurd (ground arith)
  settle_over call cell transport_expired r m a o h over =
      consume-Lacks config call.attempt_id cell.address call.while_removing m a o
  settle_over call cell transport_risk_controlled r m a o h over =
      consume-Lacks config call.attempt_id cell.address call.while_removing m a o
  settle_over call cell (transport_authenticated session) r m a o h over =
      consume-Lacks config call.attempt_id cell.address call.while_removing m a o

  poll_locked-settle :
      (call : Poll Challenge Session) (cell : AttemptCell Challenge)
      (result : QrLoginTransportPoll Session) (m : Manager Challenge)
      → leb cell.attempt.expires_at call.now ≡ false
      → call.answer ≡ ok result
      → leb cell.attempt.expires_at call.clock ≡ false
      → poll_locked config call cell m
        ≡ settle config call cell result (acts config call.while_polling m)
  unfolding poll_locked settle
  poll_locked-settle call cell result m early got timely = rw (early, got, timely, poll_locked) refl

  poll_locked_over :
      (call : Poll Challenge Session) (cell : AttemptCell Challenge) (r : QrLoginPollResult Session)
      (m : Manager Challenge)
      → PollAdmits (NotAgain call.attempt_id) call
      → Entries (Only call.attempt_id cell.address) m
      → (poll_locked config call cell m).1 ≡ ok r
      → IsOver r
      → Lacks call.attempt_id (poll_locked config call cell m).0.attempts
  unfolding poll_locked expire release_transport
  poll_locked_over call cell r m a o h over =
      let id = call.attempt_id in
      let gone = consume-Lacks config id cell.address call.while_removing m a.removing o in
      let inv = Only-IsInvariant config id cell.address in
      let polled : Entries (Only id cell.address) (acts config call.while_polling m) =
        acts_invariant config (Entries (Only id cell.address)) (NotAgain id) inv call.while_polling
          m a.polling o in
      elim (Bool-cases (leb cell.attempt.expires_at call.now)) [
        | inl late ↦ rw (late, poll_locked, expire, release_transport) gone
        | inr early ↦ elim (Result-cases call.answer) [
          | inl (e, failed) ↦ absurd (ground arith)
          | inr (result, got) ↦ elim (Bool-cases (leb cell.attempt.expires_at call.clock)) [
            | inl late ↦
                rw (early, got, late, poll_locked, expire, release_transport)
                  (consume-Lacks config id cell.address call.while_removing
                    (acts config call.while_polling m) a.removing polled)
            | inr timely ↦
                let same = poll_locked-settle call cell result m early got timely in
                subst (λ x. Lacks id x.0.attempts) (sym same)
                  (settle_over call cell result r (acts config call.while_polling m) a.removing
                    polled (sym (ap (λ x. x.1) same) ∙ h) over)
          ]
        ]
      ]

  poll-poll_locked :
      (call : Poll Challenge Session) (found cell : AttemptCell Challenge) (m : Manager Challenge)
      → map_get call.attempt_id m.attempts ≡ some found
      → current call.attempt_id found.address (acts config call.while_locking m) ≡ some cell
      → poll_at_with_clock config call m
        ≡ poll_locked config call cell
            (on_cell call.attempt_id cell.address (lock true) (acts config call.while_locking m))
  unfolding poll_at_with_clock
  poll-poll_locked call found cell m here still = rw (here, still, poll_at_with_clock) refl

  poll_over :
      (call : Poll Challenge Session) (r : QrLoginPollResult Session) (m : Manager Challenge)
      → PollAdmits (NotAgain call.attempt_id) call
      → Distinct m.attempts
      → (poll_at_with_clock config call m).1 ≡ ok r
      → IsOver r
      → Lacks call.attempt_id (poll_at_with_clock config call m).0.attempts
  unfolding poll_at_with_clock
  poll_over call r m a d h over = elim (Option-cases (map_get call.attempt_id m.attempts)) [
    | inl gone ↦ absurd (ground arith)
    | inr (found, here) ↦
        let id = call.attempt_id in
        let waited = acts config call.while_locking m in
        elim (Option-cases (current id found.address waited)) [
          | inl lost ↦ absurd (ground arith)
          | inr (cell, still) ↦
              let at = current-address id found.address cell waited still in
              let inv = Only-IsInvariant config id cell.address in
              let first =
                Distinct-map_get (λ c. c.address ≡ cell.address) id found m.attempts d here
                  (sym at) in
              let only : Entries (Only id cell.address) waited =
                acts_invariant config (Entries (Only id cell.address)) (NotAgain id) inv
                  call.while_locking m a.locking first in
              let held = inv.locked id cell.address true waited only in
              let same = poll-poll_locked call found cell m here still in
              subst (λ x. Lacks id x.0.attempts) (sym same)
                (poll_locked_over call cell r (on_cell id cell.address (lock true) waited) a held
                  (sym (ap (λ x. x.1) same) ∙ h) over)
        ]
  ]

-- A poll that answers with a session, or that its attempt has expired or is refused for risk,
-- consumes the attempt: unless its identifier is drawn again, whatever calls follow, every later
-- poll or cancellation of it finds no attempt and changes nothing.
pub poll_single_use :
    {Challenge Session : Type 0} (config : QrLoginConfig) (clock : Clock)
    (render_qr_svg : Challenge → Option Text) (call again : Poll Challenge Session)
    (cancel : Cancel Challenge) (r : QrLoginPollResult Session)
    (xs : List (QrCall Challenge Session)) (m : Manager Challenge)
    → Distinct m.attempts
    → PollAdmits (NotAgain call.attempt_id) call
    → All (CallAdmits (NotAgain call.attempt_id)) xs
    → again.attempt_id ≡ call.attempt_id
    → cancel.attempt_id ≡ call.attempt_id
    → (poll_at_with_clock config call m).1 ≡ ok r
    → IsOver r
    → let after = qr_run config clock render_qr_svg xs (poll_at_with_clock config call m).0 in
      (poll_at_with_clock config again after ≡ (after, err attempt_not_found))
      × (cancel_at config cancel after ≡ (after, err attempt_not_found))
unfolding poll_at_with_clock cancel_at
poll_single_use config clock render call again cancel r xs m d a b e f h over =
    let id = call.attempt_id in
    let gone = poll_over config call r m a d h over in
    let final = qr_run config clock render xs (poll_at_with_clock config call m).0 in
    let lacks =
      qr_run_invariant config clock render (Entries (Other id)) (NotAgain id)
        (Entries-IsInvariant config (Other id)) xs (poll_at_with_clock config call m).0 b gone in
    let none_left = Lacks-map_get id final.attempts lacks in
    let none_again : map_get again.attempt_id final.attempts ≡ none = rw e none_left in
    let none_cancelled : map_get cancel.attempt_id final.attempts ≡ none = rw f none_left in
    (rw (none_again, poll_at_with_clock) refl, rw (none_cancelled, cancel_at) refl)
