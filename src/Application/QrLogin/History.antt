-- ===== src/Application/QrLogin/History.antt =====
-- Histories of calls to a QR login manager, src/application/qr_login.rs.
use werrss.Common.{ℕ, List, [], ◌∷◌, All, Option, Text}
use werrss.Domain.Job.{Clock}
use werrss.Application.QrLogin.{QrLoginConfig, AttemptCell, Manager}
use werrss.Application.QrLogin.Operations.{
  Start, Poll, Cancel, start_at, poll_at_with_clock, cancel_at,
}
use werrss.Application.QrLogin.Invariants.{
  IsInvariant, StartAdmits, PollAdmits, CancelAdmits, start_at_invariant,
  poll_at_with_clock_invariant, cancel_at_invariant,
}

pub data QrCall (Challenge Session : Type 0) : Type 0 where
  starts : (call : Start Challenge) → QrCall Challenge Session
  polls : (call : Poll Challenge Session) → QrCall Challenge Session
  cancels : (call : Cancel Challenge) → QrCall Challenge Session

module _ {Challenge Session : Type 0} (config : QrLoginConfig) (clock : Clock)
    (render_qr_svg : Challenge → Option Text) where
  unfoldable pub qr_step : QrCall Challenge Session → Manager Challenge → Manager Challenge
  qr_step (starts call) m = (start_at config clock render_qr_svg call m).0
  qr_step (polls call) m = (poll_at_with_clock config call m).0
  qr_step (cancels call) m = (cancel_at config call m).0

  unfoldable pub qr_run : List (QrCall Challenge Session) → Manager Challenge → Manager Challenge
  qr_run [] m = m
  qr_run (x ∷ xs) m = qr_run xs (qr_step x m)

-- The tasks admit only what satisfies `Adm` during a call.
abbrev pub CallAdmits :
    {Challenge Session : Type 0}
    → (ℕ → AttemptCell Challenge → Type 0)
    → QrCall Challenge Session
    → Type 0
CallAdmits Adm (starts call) = StartAdmits Adm call
CallAdmits Adm (polls call) = PollAdmits Adm call
CallAdmits Adm (cancels call) = CancelAdmits Adm call

module _ {Challenge Session : Type 0} (config : QrLoginConfig) (clock : Clock)
    (render_qr_svg : Challenge → Option Text) (P : Manager Challenge → Type 0)
    (Adm : ℕ → AttemptCell Challenge → Type 0) (inv : IsInvariant config P Adm) where
  qr_step_invariant :
      (x : QrCall Challenge Session) (m : Manager Challenge)
      → CallAdmits Adm x
      → P m
      → P (qr_step config clock render_qr_svg x m)
  unfolding qr_step
  qr_step_invariant (starts call) m a p =
      start_at_invariant config P Adm inv clock render_qr_svg call m a p
  qr_step_invariant (polls call) m a p = poll_at_with_clock_invariant config P Adm inv call m a p
  qr_step_invariant (cancels call) m a p = cancel_at_invariant config P Adm inv call m a p

  pub qr_run_invariant :
      (xs : List (QrCall Challenge Session)) (m : Manager Challenge)
      → All (CallAdmits Adm) xs
      → P m
      → P (qr_run config clock render_qr_svg xs m)
  unfolding qr_run
  qr_run_invariant [] m a p = p
  qr_run_invariant (x ∷ xs) m a p =
      qr_run_invariant xs (qr_step config clock render_qr_svg x m) a.1 (qr_step_invariant x m a.0 p)
