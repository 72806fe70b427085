-- ===== src/Application/QrLogin/Capacity.antt =====
-- The number of QR login attempts that a manager keeps, src/application/qr_login.rs.
use werrss.Common.{
  ℕ, suc, ◌≤◌, ◌≡◌, refl, ◌||◌, Option, some, List, [], ◌∷◌, All, length, ltb, ◌==◌, Text,
  Option-cases, Bool-cases, inl, inr, arith, HashMap, map_get, map_insert, map_remove, leb,
}
use werrss.Domain.Job.{Clock}
use werrss.Application.QrLogin.{
  QrLoginConfig, AttemptCell, Manager, unexpired, release_transport, prune_expired, current,
  remove_attempt, on_cell, is_full, admit, lock, set_state,
}
use werrss.Application.QrLogin.Invariants.{IsInvariant, Admits}
use werrss.Application.QrLogin.Operations.{Action, prunes, admits, removes, locks, sets, releases}
use werrss.Application.QrLogin.History.{
  QrCall, starts, polls, cancels, CallAdmits, qr_run, qr_run_invariant,
}

module _ {V : Type 0} where
  length-map_insert : (id : ℕ) (v : V) (m : HashMap V) → length (map_insert id v m) ≤ suc (length m)
  unfolding map_insert
  length-map_insert id v [] = omega arith
  length-map_insert id v ((k, x) ∷ m) = elim (Bool-cases (k == id)) [
    | inl hit ↦ rw hit (omega arith)
    | inr miss ↦ rw miss (omega (arith, length-map_insert id v m))
  ]

  length-map_update :
      (id : ℕ) (v w : V) (m : HashMap V)
      → map_get id m ≡ some w
      → length (map_insert id v m) ≡ length m
  unfolding map_insert map_get
  length-map_update id v w [] h = absurd (cc)
  length-map_update id v w ((k, x) ∷ m) h = elim (Bool-cases (k == id)) [
    | inl hit ↦ rw hit refl
    | inr miss ↦ rw miss (omega (arith, length-map_update id v w m (ground arith)))
  ]

  length-map_remove : (id : ℕ) (m : HashMap V) → length (map_remove id m) ≤ length m
  unfolding map_remove
  length-map_remove id [] = omega arith
  length-map_remove id ((k, x) ∷ m) = elim (Bool-cases (k == id)) [
    | inl hit ↦ rw hit (omega (arith, length-map_remove id m))
    | inr miss ↦ rw miss (omega (arith, length-map_remove id m))
  ]

module _ {Challenge : Type 0} (config : QrLoginConfig) where
  -- There are no more attempts than the configuration allows.
  abbrev pub IsBounded : Manager Challenge → Type 0
  IsBounded m = length m.attempts ≤ config.max_active_attempts

  length-unexpired :
      (now : ℕ) (attempts : HashMap (AttemptCell Challenge))
      → length (unexpired now attempts) ≤ length attempts
  unfolding unexpired
  length-unexpired now [] = omega arith
  length-unexpired now ((id, cell) ∷ attempts) =
      elim (Bool-cases (cell.locked || ltb now cell.attempt.expires_at)) [
        | inl stays ↦ rw stays (omega (arith, length-unexpired now attempts))
        | inr goes ↦ rw goes (omega (arith, length-unexpired now attempts))
      ]

  prune_expired-IsBounded :
      (now : ℕ) (m : Manager Challenge) → IsBounded m → IsBounded (prune_expired now m)
  unfolding prune_expired
  prune_expired-IsBounded now m b = omega (arith, length-unexpired now m.attempts)

  remove_attempt-IsBounded :
      (id address : ℕ) (m : Manager Challenge)
      → IsBounded m
      → IsBounded (remove_attempt id address m)
  unfolding remove_attempt
  remove_attempt-IsBounded id address m b = elim (Option-cases (current id address m)) [
    | inl gone ↦ rw (gone, remove_attempt) b
    | inr (cell, found) ↦
        rw (found, remove_attempt) (omega (arith, length-map_remove id m.attempts))
  ]

  on_cell-IsBounded :
      (id address : ℕ) (f : AttemptCell Challenge → AttemptCell Challenge) (m : Manager Challenge)
      → IsBounded m
      → IsBounded (on_cell id address f m)
  unfolding on_cell current
  on_cell-IsBounded id address f m b = elim (Option-cases (map_get id m.attempts)) [
    | inl gone ↦ rw (gone, on_cell, current) b
    | inr (cell, found) ↦ elim (Bool-cases (cell.address == address)) [
      | inl same ↦
          rw (found, same, on_cell, current)
            (omega (arith, length-map_update id (f cell) cell m.attempts found))
      | inr other ↦ rw (found, other, on_cell, current) b
    ]
  ]

  admit-IsBounded :
      (id : ℕ) (cell : AttemptCell Challenge) (m : Manager Challenge)
      → IsBounded m
      → IsBounded (admit config id cell m)
  unfolding admit is_full release_transport
  admit-IsBounded id cell m b =
      let grown = length-map_insert id cell m.attempts in
      elim (Bool-cases (leb config.max_active_attempts (length m.attempts))) [
        | inl full ↦ rw (full, admit, is_full) b
        | inr room ↦
            let spare : suc (length m.attempts) ≤ config.max_active_attempts = ground arith in
            rw (room, admit, is_full) (omega arith)
      ]

  IsBounded-IsInvariant : IsInvariant config IsBounded (λ id cell. Unit)
  unfolding release_transport
  IsBounded-IsInvariant = record {
    pruned = prune_expired-IsBounded;
    removed = remove_attempt-IsBounded;
    locked = λ id address held m b. on_cell-IsBounded id address (lock held) m b;
    moved = λ id address state m b. on_cell-IsBounded id address (set_state state) m b;
    released = λ challenge m b. b;
    admitted = λ id cell m allowed b. admit-IsBounded id cell m b;
  }

-- Nothing is asked of what the tasks admit.
abbrev Anything : {Challenge : Type 0} → ℕ → AttemptCell Challenge → Type 0
Anything id cell = Unit

actions_free : {Challenge : Type 0} (xs : List (Action Challenge)) → All (Admits Anything) xs
actions_free [] = tt
actions_free (prunes now ∷ xs) = (tt, actions_free xs)
actions_free (admits id cell ∷ xs) = (tt, actions_free xs)
actions_free (removes id address ∷ xs) = (tt, actions_free xs)
actions_free (locks id address held ∷ xs) = (tt, actions_free xs)
actions_free (sets id address state ∷ xs) = (tt, actions_free xs)
actions_free (releases challenge ∷ xs) = (tt, actions_free xs)

calls_free :
    {Challenge Session : Type 0} (xs : List (QrCall Challenge Session))
    → All (CallAdmits Anything) xs
calls_free [] = tt
calls_free (starts call ∷ xs) = (
  record {
    before = actions_free call.before_checking;
    beginning = actions_free call.while_beginning;
    pruning = actions_free call.while_pruning;
    own = λ challenge expires_at. tt;
  },
  calls_free xs,
)
calls_free (polls call ∷ xs) = (
  record {
    locking = actions_free call.while_locking;
    polling = actions_free call.while_polling;
    removing = actions_free call.while_removing;
  },
  calls_free xs,
)
calls_free (cancels call ∷ xs) = (
  record {
    locking = actions_free call.while_locking;
    cancelling = actions_free call.while_cancelling;
    removing = actions_free call.while_removing;
  },
  calls_free xs,
)

-- However starts, polls and cancellations interleave, a manager never keeps more attempts than its
-- configuration allows, if it began within that bound.
pub qr_run-IsBounded :
    {Challenge Session : Type 0} (config : QrLoginConfig) (clock : Clock)
    (render_qr_svg : Challenge → Option Text) (xs : List (QrCall Challenge Session))
    (m : Manager Challenge)
    → IsBounded config m
    → IsBounded config (qr_run config clock render_qr_svg xs m)
qr_run-IsBounded config clock render xs m b =
    qr_run_invariant config clock render (IsBounded config) Anything (IsBounded-IsInvariant config)
      xs m (calls_free xs) b
