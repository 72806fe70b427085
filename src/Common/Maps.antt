-- ===== src/Common/Maps.antt =====
-- Rust's `HashMap` under numeric keys, as an association list in the order of its iteration.
use Prim.Native.Nat.{ℕ}
use mathlib.Core.Path.{◌≡◌, refl, sym, subst}
use mathlib.Core.Logic.{◌≢◌, ◌⊎◌, inl, inr}
use mathlib.Core.Option.{Option, none, some}
use mathlib.Core.List.{List, [], ◌∷◌}
use native.Mathlib.Omega.{arith}
use werrss.Common.Tests.{◌==◌, if◌then◌else◌, Bool-cases}
use werrss.Common.Lists.{All, All-map}

abbrev pub HashMap : Type 0 → Type 0
HashMap V = List (ℕ × V)

module _ {V : Type 0} where
  -- `HashMap::get`.
  unfoldable pub map_get : ℕ → HashMap V → Option V
  map_get id [] = none
  map_get id ((k, v) ∷ m) = if k == id then some v else map_get id m

  -- `HashMap::insert`.
  unfoldable pub map_insert : ℕ → V → HashMap V → HashMap V
  map_insert id new [] = (id, new) ∷ []
  map_insert id new ((k, v) ∷ m) = if k == id then (k, new) ∷ m else (k, v) ∷ map_insert id new m

  -- `HashMap::remove`.
  unfoldable pub map_remove : ℕ → HashMap V → HashMap V
  map_remove id [] = []
  map_remove id ((k, v) ∷ m) = if k == id then map_remove id m else (k, v) ∷ map_remove id m

  pub map_get-map_insert :
      (id i : ℕ) (v : V) (m : HashMap V)
      → map_get i (map_insert id v m) ≡ (if id == i then some v else map_get i m)
  unfolding map_get map_insert
  map_get-map_insert id i v [] = refl
  map_get-map_insert id i v ((k, x) ∷ m) = ground (arith, map_get-map_insert id i v m)

  pub map_get-map_remove :
      (id i : ℕ) (m : HashMap V)
      → map_get i (map_remove id m) ≡ (if id == i then none else map_get i m)
  unfolding map_get map_remove
  map_get-map_remove id i [] = ground arith
  map_get-map_remove id i ((k, x) ∷ m) = ground (arith, map_get-map_remove id i m)

  pub All-map_get {κ} :
      (P : ℕ × V → Type κ) (id : ℕ) (v : V) (m : HashMap V)
      → All P m
      → map_get id m ≡ some v
      → P (id, v)
  unfolding map_get
  All-map_get P id v [] a h = absurd (cc)
  All-map_get P id v ((k, x) ∷ m) a h = elim (Bool-cases (k == id)) [
    | inl hit ↦ subst P (let e : k ≡ id = ground arith in let f : x ≡ v = ground arith in cc) a.0
    | inr miss ↦ All-map_get P id v m a.1 (ground arith)
  ]

  pub All-map_insert {κ} :
      (P : ℕ × V → Type κ) (id : ℕ) (new : V) (m : HashMap V)
      → P (id, new)
      → All P m
      → All P (map_insert id new m)
  unfolding map_insert
  All-map_insert P id new [] p a = (p, tt)
  All-map_insert P id new ((k, x) ∷ m) p a = elim (Bool-cases (k == id)) [
    | inl hit ↦ rw hit (subst P (let e : id ≡ k = ground arith in cc) p, a.1)
    | inr miss ↦ rw miss (a.0, All-map_insert P id new m p a.1)
  ]

  pub All-map_remove {κ} :
      (P : ℕ × V → Type κ) (id : ℕ) (m : HashMap V) → All P m → All P (map_remove id m)
  unfolding map_remove
  All-map_remove P id [] a = tt
  All-map_remove P id ((k, x) ∷ m) a = elim (Bool-cases (k == id)) [
    | inl hit ↦ rw hit (All-map_remove P id m a.1)
    | inr miss ↦ rw miss (a.0, All-map_remove P id m a.1)
  ]

  -- No entry stands under the key.
  abbrev pub Lacks : ℕ → HashMap V → Type 0
  Lacks id m = All (λ e. e.0 ≢ id) m

  pub map_get-Lacks : (id : ℕ) (m : HashMap V) → map_get id m ≡ none → Lacks id m
  unfolding map_get
  map_get-Lacks id [] h = tt
  map_get-Lacks id ((k, v) ∷ m) h = (ground arith, map_get-Lacks id m (ground arith))

  pub Lacks-map_get : (id : ℕ) (m : HashMap V) → Lacks id m → map_get id m ≡ none
  unfolding map_get
  Lacks-map_get id [] a = refl
  Lacks-map_get id ((k, v) ∷ m) a = let rest = Lacks-map_get id m a.1 in ground (arith, a.0, rest)

  pub map_remove-Lacks : (id : ℕ) (m : HashMap V) → Lacks id (map_remove id m)
  unfolding map_remove
  map_remove-Lacks id [] = tt
  map_remove-Lacks id ((k, v) ∷ m) = elim (Bool-cases (k == id)) [
    | inl hit ↦ rw hit (map_remove-Lacks id m)
    | inr miss ↦ rw miss (ground arith, map_remove-Lacks id m)
  ]

  -- A map has every key once.
  abbrev pub Distinct : HashMap V → Type 0
  Distinct [] = Unit
  Distinct ((k, v) ∷ m) = Lacks k m × Distinct m

  -- The one entry under a key is the one that is found.
  pub Distinct-map_get :
      (P : V → Type 0) (id : ℕ) (v : V) (m : HashMap V)
      → Distinct m
      → map_get id m ≡ some v
      → P v
      → All (λ e. (e.0 ≢ id) ⊎ P e.1) m
  unfolding map_get
  Distinct-map_get P id v [] d h p = tt
  Distinct-map_get P id v ((k, x) ∷ m) d h p = elim (Bool-cases (k == id)) [
    | inr miss ↦ (inl (ground arith), Distinct-map_get P id v m d.1 (ground arith) p)
    | inl hit ↦
        let same : k ≡ id = ground arith in
        let here : x ≡ v = ground arith in
        (
          inr (subst P (sym here) p),
          All-map (λ e. e.0 ≢ k) (λ e. (e.0 ≢ id) ⊎ P e.1)
              (λ e n. inl (subst (λ y. e.0 ≢ y) same n)) m d.0,
        )
  ]
