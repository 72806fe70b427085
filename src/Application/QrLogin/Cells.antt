-- ===== src/Application/QrLogin/Cells.antt =====
-- The cells of QR login attempts under their keys, src/application/qr_login.rs.
use werrss.Common.{
  sym, subst, All-map_get, All-map_insert, All-map_remove, Lacks, map_get-Lacks, map_remove-Lacks,
  ℕ, ◌≡◌, refl, ◌≢◌, ◌⊎◌, inl, inr, true, false, ◌||◌, some, List, [], ◌∷◌, All, ltb, ◌==◌,
  Option-cases, Bool-cases, arith, HashMap, map_get,
}
use werrss.Application.QrLogin.{
  QrLoginConfig, AttemptCell, Manager, unexpired, release_transport, prune_expired, current,
  remove_attempt, on_cell, is_full, admit, lock, set_state,
}
use werrss.Application.QrLogin.Operations.{Action, consume}
use werrss.Application.QrLogin.Invariants.{IsInvariant, Admits, acts_invariant}

-- Every entry's key and cell address are related.
abbrev pub Entries : {Challenge : Type 0} → (ℕ → ℕ → Type 0) → Manager Challenge → Type 0
Entries Q m = All (λ e. Q e.0 e.1.address) m.attempts

-- The entry is not the attempt's, and, if it is, it is the cell at the address.
abbrev pub Other : ℕ → ℕ → ℕ → Type 0
Other id k a = k ≢ id

-- Nobody admits the identifier again.
abbrev pub NotAgain : {Challenge : Type 0} → ℕ → ℕ → AttemptCell Challenge → Type 0
NotAgain id i cell = i ≢ id

abbrev pub Only : ℕ → ℕ → ℕ → ℕ → Type 0
Only id address k a = (k ≢ id) ⊎ (a ≡ address)

module _ {Challenge : Type 0} where
  All-unexpired :
      (Q : ℕ → ℕ → Type 0) (now : ℕ) (attempts : HashMap (AttemptCell Challenge))
      → All (λ e. Q e.0 e.1.address) attempts
      → All (λ e. Q e.0 e.1.address) (unexpired now attempts)
  unfolding unexpired
  All-unexpired Q now [] a = tt
  All-unexpired Q now ((id, cell) ∷ attempts) a =
      elim (Bool-cases (cell.locked || ltb now cell.attempt.expires_at)) [
        | inl stays ↦ rw stays (a.0, All-unexpired Q now attempts a.1)
        | inr goes ↦ rw goes (All-unexpired Q now attempts a.1)
      ]

  on_cell-Entries :
      (Q : ℕ → ℕ → Type 0) (id address : ℕ) (f : AttemptCell Challenge → AttemptCell Challenge)
      (m : Manager Challenge)
      → ((cell : AttemptCell Challenge) → (f cell).address ≡ cell.address)
      → Entries Q m
      → Entries Q (on_cell id address f m)
  unfolding on_cell current
  on_cell-Entries Q id address f m same a = elim (Option-cases (map_get id m.attempts)) [
    | inl gone ↦ rw (gone, on_cell, current) a
    | inr (cell, found) ↦ elim (Bool-cases (cell.address == address)) [
      | inr other ↦ rw (found, other, on_cell, current) a
      | inl hit ↦
          let old : Q id cell.address =
            All-map_get (λ e. Q e.0 e.1.address) id cell m.attempts a found in
          rw (found, hit, on_cell, current)
            (All-map_insert (λ e. Q e.0 e.1.address) id (f cell) m.attempts
              (subst (λ x. Q id x) (sym (same cell)) old) a)
    ]
  ]

  pub Entries-IsInvariant :
      (config : QrLoginConfig) (Q : ℕ → ℕ → Type 0)
      → IsInvariant {Challenge = Challenge} config (Entries Q) (λ id cell. Q id cell.address)
  unfolding prune_expired remove_attempt release_transport admit
  Entries-IsInvariant config Q = record {
    pruned = λ now m a. All-unexpired Q now m.attempts a;
    removed = λ id address m a. elim (Option-cases (current id address m)) [
      | inl gone ↦ rw (gone, remove_attempt) a
      | inr (cell, found) ↦
          rw (found, remove_attempt) (All-map_remove (λ e. Q e.0 e.1.address) id m.attempts a)
    ];
    locked = λ id address held m a. on_cell-Entries Q id address (lock held) m (λ cell. refl) a;
    moved =
        λ id address state m a. on_cell-Entries Q id address (set_state state) m (λ cell. refl) a;
    released = λ challenge m a. a;
    admitted = λ id cell m q a. elim (Bool-cases (is_full config m)) [
      | inl full ↦ rw (full, admit) a
      | inr room ↦ rw (room, admit) (All-map_insert (λ e. Q e.0 e.1.address) id cell m.attempts q a)
    ];
  }

  -- Once a call has let go of the only cell of an attempt, the attempt is gone.
  pub remove_attempt-Lacks :
      (id address : ℕ) (m : Manager Challenge)
      → Entries (Only id address) m
      → Lacks id (remove_attempt id address m).attempts
  unfolding remove_attempt current
  remove_attempt-Lacks id address m a = elim (Option-cases (map_get id m.attempts)) [
    | inl gone ↦ rw (gone, remove_attempt, current) (map_get-Lacks id m.attempts gone)
    | inr (cell, found) ↦
        let at : Only id address id cell.address =
          All-map_get (λ e. Only id address e.0 e.1.address) id cell m.attempts a found in
        let hit : (cell.address == address) ≡ true = ground arith in
        rw (found, hit, remove_attempt, current) (map_remove-Lacks id m.attempts)
  ]

  pub Only-IsInvariant :
      (config : QrLoginConfig) (id address : ℕ)
      → IsInvariant {Challenge = Challenge} config (Entries (Only id address)) (NotAgain id)
  Only-IsInvariant config id address =
      let base = Entries-IsInvariant config (Only id address) in
      record {
        pruned = base.pruned;
        removed = base.removed;
        locked = base.locked;
        moved = base.moved;
        released = base.released;
        admitted = λ i cell m n a. base.admitted i cell m (inl n) a;
      }

  pub consume-Lacks :
      (config : QrLoginConfig) (id address : ℕ) (xs : List (Action Challenge))
      (m : Manager Challenge)
      → All (Admits (NotAgain id)) xs
      → Entries (Only id address) m
      → Lacks id (consume config id address xs m).attempts
  unfolding consume
  consume-Lacks config id address xs m a o =
      let inv = Only-IsInvariant config id address in
      remove_attempt-Lacks id address _ (
        acts_invariant config (Entries (Only id address)) (NotAgain id) inv xs _ a
          (inv.locked id address false m o))

  pub current-address :
      (id address : ℕ) (cell : AttemptCell Challenge) (m : Manager Challenge)
      → current id address m ≡ some cell
      → cell.address ≡ address
  unfolding current
  current-address id address cell m h = ground arith
