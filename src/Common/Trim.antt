-- ===== src/Common/Trim.antt =====
-- The laws of `str::trim`.
use mathlib.Core.Path.{◌≡◌, refl, sym, ap, subst, ◌∙◌}
use mathlib.Core.Bool.{false}
use mathlib.Core.Logic.{inl, inr}
use mathlib.Core.List.{[], ◌∷◌, ◌++◌, reverse, reverse-append, reverse-reverse}
use werrss.Common.Tests.{Bool-cases}
use werrss.Common.Texts.{Text, is_whitespace, trim_start, trim, is_blank, is_empty}

-- The text does not begin with white space.
abbrev StartsBlack : Text → Type 0
StartsBlack [] = Unit {0}
StartsBlack (c ∷ s) = is_whitespace c ≡ false

trim_start-StartsBlack : (s : Text) → StartsBlack (trim_start s)
unfolding trim_start
trim_start-StartsBlack [] = tt
trim_start-StartsBlack (c ∷ s) = elim (Bool-cases (is_whitespace c)) [
  | inl white ↦ rw white (trim_start-StartsBlack s)
  | inr black ↦ rw black black
]

trim_start_of_StartsBlack : (s : Text) → StartsBlack s → trim_start s ≡ s
unfolding trim_start
trim_start_of_StartsBlack [] h = refl
trim_start_of_StartsBlack (c ∷ s) h = rw h refl

trim_start-suffix : (s : Text) → (p : Text) × (s ≡ p ++ trim_start s)
unfolding trim_start
trim_start-suffix [] = ([], refl)
trim_start-suffix (c ∷ s) = elim (Bool-cases (is_whitespace c)) [
  | inl white ↦ let (p, e) = trim_start-suffix s in (c ∷ p, rw white (ap (◌∷◌ c) e))
  | inr black ↦ ([], rw black refl)
]

StartsBlack-prefix : (s t : Text) → StartsBlack (s ++ t) → StartsBlack s
StartsBlack-prefix [] t h = tt
StartsBlack-prefix (c ∷ s) t h = h

-- The text that `trim` makes begins and ends with no white space.
trim-parts : (s : Text) → StartsBlack (trim s) × StartsBlack (reverse (trim s))
unfolding trim
trim-parts s =
    let u = trim_start s in
    let v = trim_start (reverse u) in
    let (p, e) = trim_start-suffix (reverse u) in
    let split : u ≡ reverse v ++ reverse p =
      sym (reverse-reverse u) ∙ (ap reverse e ∙ reverse-append p v) in
    (
      StartsBlack-prefix (reverse v) (reverse p)
          (subst StartsBlack split (trim_start-StartsBlack s)),
      subst StartsBlack (sym (reverse-reverse v)) (trim_start-StartsBlack (reverse u)),
    )

trim_of_parts : (t : Text) → StartsBlack t × StartsBlack (reverse t) → trim t ≡ t
unfolding trim
trim_of_parts t h =
    ap (λ u. reverse (trim_start (reverse u))) (trim_start_of_StartsBlack t h.0)
    ∙ (ap reverse (trim_start_of_StartsBlack (reverse t) h.1) ∙ reverse-reverse t)

-- Trimming twice is trimming once.
pub trim-trim : (s : Text) → trim (trim s) ≡ trim s
trim-trim s = trim_of_parts (trim s) (trim-parts s)

-- A trimmed text that is not empty is not blank.
pub is_blank-trim : (s : Text) → is_blank (trim s) ≡ is_empty (trim s)
unfolding is_blank
is_blank-trim s = ap is_empty (trim-trim s)
