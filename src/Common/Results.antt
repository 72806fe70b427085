-- ===== src/Common/Results.antt =====
-- Rust's `Result`, and methods on `&mut self`: a state is passed in, and comes back beside the
-- result whether or not the method fails.
use mathlib.Core.Path.{◌≡◌, refl}
use mathlib.Core.Logic.{◌⊎◌, inl, inr}
use mathlib.Core.Bool.{Bool, true, false}
use mathlib.Core.Option.{Option, none, some}

pub data Result (E A : Type 0) : Type 0 where
  ok : A → Result E A
  err : E → Result E A

abbrev pub is_ok : {E A : Type 0} → Result E A → Bool
is_ok (ok a) = true
is_ok (err e) = false

abbrev pub Method : Type 0 → Type 0 → Type 0 → Type 0
Method S E A = S → S × Result E A

-- `?`: an error ends the method with the state as it stands.
infixl 5 ◌>>=◌ ◌>>◌
abbrev pub ◌>>=◌ : {S E A B : Type 0} → Method S E A → (A → Method S E B) → Method S E B
◌>>=◌ m f s = elim ((m s).1) [ ok a ↦ f a (m s).0 | err e ↦ ((m s).0, err e) ]

abbrev pub ◌>>◌ : {S E B : Type 0} → Method S E (Unit {0}) → Method S E B → Method S E B
m >> k = m >>= λ _. k

abbrev pub return : {S E A : Type 0} → A → Method S E A
return a s = (s, ok a)

abbrev pub throw : {S E A : Type 0} → E → Method S E A
throw e s = (s, err e)

-- A check that leaves the state alone.
abbrev pub try : {S E A : Type 0} → Result E A → Method S E A
try r s = (s, r)

abbrev pub get : {S E : Type 0} → Method S E S
get s = (s, ok s)

abbrev pub modify : {S E : Type 0} → (S → S) → Method S E (Unit {0})
modify f s = (f s, ok tt)

-- `if bad { return Err(e) }`.
abbrev pub refuse_if : {S E : Type 0} → Bool → E → Method S E (Unit {0})
refuse_if true e s = (s, err e)
refuse_if false e s = (s, ok tt)

-- `option.ok_or(e)`.
abbrev pub ok_or : {E A : Type 0} → Option A → E → Result E A
ok_or none e = err e
ok_or (some a) e = ok a

-- To split on a computed result and keep the equation.
pub Result-cases :
    {E A : Type 0} (r : Result E A) → ((e : E) × (r ≡ err e)) ⊎ ((a : A) × (r ≡ ok a))
Result-cases (ok a) = inr (a, refl)
Result-cases (err e) = inl (e, refl)
