-- ===== src/Application/QrLogin/Invariants.antt =====
-- Properties of a QR login manager that its actions keep, and the operations with them,
-- src/application/qr_login.rs.
use werrss.Common.{
  ℕ, Bool, true, false, Option, List, [], ◌∷◌, All, Text, if◌then◌else◌, Result-cases, Option-cases,
  Bool-cases, inl, inr, map_get, leb,
}
use werrss.Domain.Job.{Clock}
use werrss.Application.QrLogin.{
  QrLoginConfig, QrLoginState, AttemptCell, Manager, release_transport, prune_expired, current,
  remove_attempt, on_cell, is_full, admit, lock, set_state, QrLoginTransportPoll, transport_waiting,
  transport_scanned, transport_authenticated, transport_expired, transport_risk_controlled,
  waiting_for_scan, scanned, expired, cancelled,
}
use werrss.Application.QrLogin.Operations.{
  Action, prunes, admits, removes, locks, sets, releases, Start, Poll, Cancel, act, acts,
  finish_start, start_at, consume, keep, settle, expire, poll_locked, poll_at_with_clock,
  cancel_locked, cancel_at, new_cell,
}

-- `P` is kept by every action, by an admission if `Adm` holds of what it admits.
pub record IsInvariant {Challenge : Type 0} (config : QrLoginConfig)
    (P : Manager Challenge → Type 0) (Adm : ℕ → AttemptCell Challenge → Type 0) : Type 0 where
  pub pruned : (now : ℕ) (m : Manager Challenge) → P m → P (prune_expired now m)
  pub removed : (id address : ℕ) (m : Manager Challenge) → P m → P (remove_attempt id address m)
  pub locked :
      (id address : ℕ) (held : Bool) (m : Manager Challenge)
      → P m
      → P (on_cell id address (lock held) m)
  pub moved :
      (id address : ℕ) (state : QrLoginState) (m : Manager Challenge)
      → P m
      → P (on_cell id address (set_state state) m)
  pub released :
      (challenge : Challenge) (m : Manager Challenge) → P m → P (release_transport challenge m)
  pub admitted :
      (id : ℕ) (cell : AttemptCell Challenge) (m : Manager Challenge)
      → Adm id cell
      → P m
      → P (admit config id cell m)

-- What an action admits satisfies `Adm`.
abbrev pub Admits :
    {Challenge : Type 0} → (ℕ → AttemptCell Challenge → Type 0) → Action Challenge → Type 0
Admits Adm (admits id cell) = Adm id cell
Admits Adm _ = Unit

-- The tasks admit only what satisfies `Adm` during a call.
module _ {Challenge : Type 0} (Adm : ℕ → AttemptCell Challenge → Type 0) where
  pub record StartAdmits (call : Start Challenge) : Type 0 where
    pub before : All (Admits Adm) call.before_checking
    pub beginning : All (Admits Adm) call.while_beginning
    pub pruning : All (Admits Adm) call.while_pruning
    pub own :
        (challenge : Challenge) (expires_at : ℕ)
        → Adm call.new_attempt (new_cell call challenge expires_at)

  pub record PollAdmits {Session : Type 0} (call : Poll Challenge Session) : Type 0 where
    pub locking : All (Admits Adm) call.while_locking
    pub polling : All (Admits Adm) call.while_polling
    pub removing : All (Admits Adm) call.while_removing

  pub record CancelAdmits (call : Cancel Challenge) : Type 0 where
    pub locking : All (Admits Adm) call.while_locking
    pub cancelling : All (Admits Adm) call.while_cancelling
    pub removing : All (Admits Adm) call.while_removing

module _ {Challenge : Type 0} (config : QrLoginConfig) (P : Manager Challenge → Type 0)
    (Adm : ℕ → AttemptCell Challenge → Type 0) (inv : IsInvariant config P Adm) where
  act_invariant :
      (x : Action Challenge) (m : Manager Challenge) → Admits Adm x → P m → P (act config x m)
  unfolding act
  act_invariant (prunes now) m a p = inv.pruned now m p
  act_invariant (admits id cell) m a p = inv.admitted id cell m a p
  act_invariant (removes id address) m a p = inv.removed id address m p
  act_invariant (locks id address held) m a p = inv.locked id address held m p
  act_invariant (sets id address state) m a p = inv.moved id address state m p
  act_invariant (releases challenge) m a p = inv.released challenge m p

  pub acts_invariant :
      (xs : List (Action Challenge)) (m : Manager Challenge)
      → All (Admits Adm) xs
      → P m
      → P (acts config xs m)
  unfolding acts
  acts_invariant [] m a p = p
  acts_invariant (x ∷ xs) m a p = acts_invariant xs (act config x m) a.1 (act_invariant x m a.0 p)

  pub consume_invariant :
      (id address : ℕ) (xs : List (Action Challenge)) (m : Manager Challenge)
      → All (Admits Adm) xs
      → P m
      → P (consume config id address xs m)
  unfolding consume
  consume_invariant id address xs m a p =
      let free = inv.locked id address false m p in
      inv.removed id address _ (acts_invariant xs _ a free)

  finish_start_invariant :
      (call : Start Challenge) (challenge : Challenge) (qr_svg : Text) (expires_at : ℕ)
      (m : Manager Challenge)
      → StartAdmits Adm call
      → P m
      → P (finish_start config call challenge qr_svg expires_at m).0
  unfolding finish_start
  finish_start_invariant call challenge qr_svg expires_at m a p =
      let pruned = acts_invariant call.while_pruning _ a.pruning (inv.pruned call.now m p) in
      let done =
        inv.admitted call.new_attempt (new_cell call challenge expires_at) _
          (a.own challenge expires_at) pruned in
      elim (Bool-cases
        (is_full config (acts config call.while_pruning (prune_expired call.now m)))) [
          | inl full ↦ rw (full, finish_start) done
          | inr room ↦ rw (room, finish_start) done
        ]

  pub start_at_invariant :
      (clock : Clock) (render_qr_svg : Challenge → Option Text) (call : Start Challenge)
      (m : Manager Challenge)
      → StartAdmits Adm call
      → P m
      → P (start_at config clock render_qr_svg call m).0
  unfolding start_at
  start_at_invariant clock render call m a p =
      let ready = acts_invariant call.before_checking _ a.before (inv.pruned call.now m p) in
      let begun = acts_invariant call.while_beginning _ a.beginning ready in
      elim (Bool-cases
        (is_full config (acts config call.before_checking (prune_expired call.now m)))) [
          | inl full ↦ rw (full, start_at) ready
          | inr room ↦ elim (Result-cases call.begin) [
            | inl (e, failed) ↦ rw (room, failed, start_at) begun
            | inr (challenge, got) ↦ elim (Option-cases (render challenge)) [
              | inl bad ↦ rw (room, got, bad, start_at) (inv.released challenge _ begun)
              | inr (svg, drawn) ↦
                  elim (Option-cases (clock.checked_add_signed call.now config.attempt_ttl)) [
                    | inl over ↦
                        rw (room, got, drawn, over, start_at) (inv.released challenge _ begun)
                    | inr (until, adds) ↦
                        rw (room, got, drawn, adds, start_at)
                          (finish_start_invariant call challenge svg until _ a begun)
                  ]
            ]
          ]
        ]

  cancel_locked_invariant :
      (call : Cancel Challenge) (cell : AttemptCell Challenge) (m : Manager Challenge)
      → CancelAdmits Adm call
      → P m
      → P (cancel_locked config call cell m).0
  unfolding cancel_locked
  cancel_locked_invariant call cell m a p =
      let asked =
        acts_invariant call.while_cancelling _ a.cancelling
          (inv.released cell.attempt.challenge m p) in
      let state = if leb cell.attempt.expires_at call.now then expired else cancelled in
      elim (Result-cases call.answer) [
        | inl (e, failed) ↦
            rw (failed, cancel_locked) (inv.locked call.attempt_id cell.address false _ asked)
        | inr (u, agreed) ↦
            rw (agreed, cancel_locked)
              (consume_invariant call.attempt_id cell.address call.while_removing _ a.removing
                (inv.moved call.attempt_id cell.address state _ asked))
      ]

  pub cancel_at_invariant :
      (call : Cancel Challenge) (m : Manager Challenge)
      → CancelAdmits Adm call
      → P m
      → P (cancel_at config call m).0
  unfolding cancel_at
  cancel_at_invariant call m a p = elim (Option-cases (map_get call.attempt_id m.attempts)) [
    | inl gone ↦ rw (gone, cancel_at) p
    | inr (found, here) ↦
        let waited = acts_invariant call.while_locking m a.locking p in
        elim (Option-cases
          (current call.attempt_id found.address (acts config call.while_locking m))) [
            | inl lost ↦ rw (here, lost, cancel_at) waited
            | inr (cell, still) ↦
                rw (here, still, cancel_at)
                  (cancel_locked_invariant call cell _ a
                    (inv.locked call.attempt_id cell.address true _ waited))
          ]
  ]

module _ {Challenge Session : Type 0} (config : QrLoginConfig) (P : Manager Challenge → Type 0)
    (Adm : ℕ → AttemptCell Challenge → Type 0) (inv : IsInvariant config P Adm) where
  expire_invariant :
      (call : Poll Challenge Session) (cell : AttemptCell Challenge) (m : Manager Challenge)
      → PollAdmits Adm call
      → P m
      → P (expire config call cell m).0
  unfolding expire
  expire_invariant call cell m a p = inv.released cell.attempt.challenge _ (
      consume_invariant config P Adm inv call.attempt_id cell.address call.while_removing m
        a.removing p)

  settle_invariant :
      (call : Poll Challenge Session) (cell : AttemptCell Challenge)
      (result : QrLoginTransportPoll Session) (m : Manager Challenge)
      → PollAdmits Adm call
      → P m
      → P (settle config call cell result m).0
  unfolding settle keep
  settle_invariant call cell transport_waiting m a p =
      inv.locked call.attempt_id cell.address false _
        (inv.moved call.attempt_id cell.address waiting_for_scan m p)
  settle_invariant call cell transport_scanned m a p =
      inv.locked call.attempt_id cell.address false _
        (inv.moved call.attempt_id cell.address scanned m p)
  settle_invariant call cell transport_expired m a p =
      consume_invariant config P Adm inv call.attempt_id cell.address call.while_removing m
        a.removing p
  settle_invariant call cell transport_risk_controlled m a p =
      consume_invariant config P Adm inv call.attempt_id cell.address call.while_removing m
        a.removing p
  settle_invariant call cell (transport_authenticated session) m a p =
      consume_invariant config P Adm inv call.attempt_id cell.address call.while_removing m
        a.removing p

  poll_locked_invariant :
      (call : Poll Challenge Session) (cell : AttemptCell Challenge) (m : Manager Challenge)
      → PollAdmits Adm call
      → P m
      → P (poll_locked config call cell m).0
  unfolding poll_locked
  poll_locked_invariant call cell m a p =
      let polled = acts_invariant config P Adm inv call.while_polling m a.polling p in
      elim (Bool-cases (leb cell.attempt.expires_at call.now)) [
        | inl late ↦ rw (late, poll_locked) (expire_invariant call cell m a p)
        | inr early ↦ elim (Result-cases call.answer) [
          | inl (e, failed) ↦
              rw (early, failed, poll_locked)
                (inv.locked call.attempt_id cell.address false _ polled)
          | inr (result, got) ↦ elim (Bool-cases (leb cell.attempt.expires_at call.clock)) [
            | inl late ↦ rw (early, got, late, poll_locked) (expire_invariant call cell _ a polled)
            | inr timely ↦
                rw (early, got, timely, poll_locked) (settle_invariant call cell result _ a polled)
          ]
        ]
      ]

  pub poll_at_with_clock_invariant :
      (call : Poll Challenge Session) (m : Manager Challenge)
      → PollAdmits Adm call
      → P m
      → P (poll_at_with_clock config call m).0
  unfolding poll_at_with_clock
  poll_at_with_clock_invariant call m a p =
      elim (Option-cases (map_get call.attempt_id m.attempts)) [
        | inl gone ↦ rw (gone, poll_at_with_clock) p
        | inr (found, here) ↦
            let waited = acts_invariant config P Adm inv call.while_locking m a.locking p in
            elim (Option-cases
              (current call.attempt_id found.address (acts config call.while_locking m))) [
                | inl lost ↦ rw (here, lost, poll_at_with_clock) waited
                | inr (cell, still) ↦
                    rw (here, still, poll_at_with_clock)
                      (poll_locked_invariant call cell _ a
                        (inv.locked call.attempt_id cell.address true _ waited))
              ]
      ]
