-- ===== src/Archive/UrlRewriter/Scanning.antt =====
-- The scan for `src` attributes, src/archive/url_rewriter.rs.
use werrss.Common.{
  ℕ, ◌≤◌, ◌≡◌, refl, none, some, [], ◌∷◌, ◌++◌, Text, length, length-append, ◌==◌, Option-cases,
  Bool-cases, inl, inr, arith, ap,
}
use mathlib.Core.Option
use werrss.Archive.UrlRewriter.{strip_prefix, split_match}

pub append_assoc : (a b c : Text) → (a ++ b) ++ c ≡ a ++ (b ++ c)
append_assoc [] b c = refl
append_assoc (x ∷ a) b c = ap (◌∷◌ x) (append_assoc a b c)

strip_prefix_sound : (needle s r : Text) → strip_prefix needle s ≡ some r → s ≡ needle ++ r
unfolding strip_prefix
strip_prefix_sound [] s r h = cc
strip_prefix_sound (n ∷ needle) [] r h = absurd (cc)
strip_prefix_sound (n ∷ needle) (c ∷ s) r h = elim (Bool-cases (n == c)) [
  | inl hit ↦
      let same : c ≡ n = ground arith in
      let rest : s ≡ needle ++ r = strip_prefix_sound needle s r (ground arith) in cc
  | inr miss ↦ absurd (ground arith)
]

strip_prefix_self : (needle r : Text) → strip_prefix needle (needle ++ r) ≡ some r
unfolding strip_prefix
strip_prefix_self [] r = refl
strip_prefix_self (n ∷ needle) r = ground (arith, strip_prefix_self needle r)

-- A prefix that reaches over the needle decides.
strip_prefix-append :
    (needle x v : Text)
    → length needle ≤ length x
    → strip_prefix needle (x ++ v) ≡ Option.map (λ r. r ++ v) (strip_prefix needle x)
unfolding strip_prefix
strip_prefix-append [] x v h = refl
strip_prefix-append (n ∷ needle) [] v h = absurd (omega arith)
strip_prefix-append (n ∷ needle) (c ∷ x) v h =
    ground (arith, strip_prefix-append needle x v (omega arith))

strip_prefix-none :
    (needle x v v' : Text)
    → length needle ≤ length x
    → strip_prefix needle (x ++ v) ≡ none
    → strip_prefix needle (x ++ v') ≡ none
strip_prefix-none needle x v v' h e = elim (Option-cases (strip_prefix needle x)) [
  | inl absent ↦ rw (strip_prefix-append needle x v' h, absent) refl
  | inr (r, found) ↦ absurd (ground (arith, strip_prefix-append needle x v h))
]

pub split_match_sound :
    (needle s before rest : Text)
    → split_match needle s ≡ some (before, rest)
    → s ≡ before ++ (needle ++ rest)
unfolding split_match
split_match_sound needle [] before rest h = absurd (cc)
split_match_sound needle (c ∷ s) before rest h = elim (Option-cases (strip_prefix needle (c ∷ s))) [
  | inr (r, found) ↦
      let whole = strip_prefix_sound needle (c ∷ s) r found in
      let first : before ≡ [] = ground arith in
      let same : rest ≡ r = ground arith in rw (first, same) whole
  | inl absent ↦ elim (Option-cases (split_match needle s)) [
    | inl nowhere ↦ absurd (ground arith)
    | inr ((b, r), later) ↦
        let first : before ≡ c ∷ b = ground arith in
        let same : rest ≡ r = ground arith in
        rw (first, same) (ap (◌∷◌ c) (split_match_sound needle s b r later))
  ]
]

-- What stands behind the first match may change.
pub split_match-tail :
    (n : ℕ) (needle before rest rest' : Text)
    → split_match (n ∷ needle) (before ++ ((n ∷ needle) ++ rest)) ≡ some (before, rest)
    → split_match (n ∷ needle) (before ++ ((n ∷ needle) ++ rest')) ≡ some (before, rest')
unfolding split_match
split_match-tail n needle [] rest rest' h =
    let found = strip_prefix_self (n ∷ needle) rest' in ground (arith, found)
split_match-tail n needle (d ∷ before) rest rest' h =
    let whole : Text = n ∷ needle in
    let x : Text = d ∷ (before ++ whole) in
    let long : length whole ≤ length x = omega (arith, length-append before whole) in
    let shape = ap (◌∷◌ d) (append_assoc before whole rest) in
    let shape' = ap (◌∷◌ d) (append_assoc before whole rest') in
    elim (Option-cases (strip_prefix whole (d ∷ (before ++ (whole ++ rest))))) [
      | inr (r, found) ↦ absurd (ground arith)
      | inl absent ↦
          let none' : strip_prefix whole (d ∷ (before ++ (whole ++ rest'))) ≡ none =
            rw (← shape') (strip_prefix-none whole x rest rest' long (rw shape absent)) in
          elim (Option-cases (split_match whole (before ++ (whole ++ rest)))) [
            | inl nowhere ↦ absurd (ground arith)
            | inr ((b, r), later) ↦
                let again = split_match-tail n needle before rest rest' (ground arith) in
                ground (arith, none', again)
          ]
    ]
