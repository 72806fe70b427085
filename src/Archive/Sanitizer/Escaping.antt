-- ===== src/Archive/Sanitizer/Escaping.antt =====
-- Escaped texts and attributes, src/archive/sanitizer.rs.
use werrss.Common.{
  ℕ, ◌≡◌, refl, sym, ◌∙◌, ◌≢◌, inl, inr, Bool, true, false, not, ◌&&◌, ◌||◌, List, [], ◌∷◌, ◌++◌,
  All, Text, ◌==◌, Bool-cases, arith,
}
use mathlib.Core.List.{append_assoc, append-nil}
use werrss.Archive.Sanitizer.{escaped, append_escaped, is_allowed_html_character}

-- No character of the text opens or closes a tag.
abbrev pub IsPlain : Text → Type 0
IsPlain t = All (λ c. (c ≢ 60) × (c ≢ 62)) t

-- Nor a quoted value.
abbrev pub IsQuoted : Text → Type 0
IsQuoted t = All (λ c. ((c ≢ 60) × (c ≢ 62)) × ((c ≢ 34) × (c ≢ 39))) t

unfoldable pub escape : Bool → Text → Text
escape attribute [] = []
escape attribute (c ∷ value) = escaped attribute c ++ escape attribute value

pub append_escaped-escape :
    (output : Text) (attribute : Bool) (value : Text)
    → append_escaped output attribute value ≡ output ++ escape attribute value
unfolding append_escaped escape
append_escaped-escape output attribute [] = sym (append-nil output)
append_escaped-escape output attribute (c ∷ value) =
    append_escaped-escape (output ++ escaped attribute c) attribute value
    ∙ append_assoc output (escaped attribute c) (escape attribute value)

All-append {ℓ κ} :
    {A : Type ℓ} (P : A → Type κ) (xs ys : List A) → All P xs → All P ys → All P (xs ++ ys)
All-append P [] ys a b = b
All-append P (x ∷ xs) ys a b = (a.0, All-append P xs ys a.1 b)

-- The test behind the two predicates; `quoted` is whether quotes count.
unfoldable is_harmless : Bool → Text → Bool
is_harmless quoted [] = true
is_harmless quoted (c ∷ t) =
    let rest = is_harmless quoted t in
    not (c == 60) && (not (c == 62) && (not (quoted && (c == 34 || c == 39)) && rest))

is_harmless-IsPlain : (t : Text) → is_harmless false t ≡ true → IsPlain t
unfolding is_harmless
is_harmless-IsPlain [] h = tt
is_harmless-IsPlain (c ∷ t) h = ((ground arith, ground arith), is_harmless-IsPlain t (ground arith))

is_harmless-IsQuoted : (t : Text) → is_harmless true t ≡ true → IsQuoted t
unfolding is_harmless
is_harmless-IsQuoted [] h = tt
is_harmless-IsQuoted (c ∷ t) h = (
  ((ground arith, ground arith), (ground arith, ground arith)),
  is_harmless-IsQuoted t (ground arith),
)

escaped_harmless : (quoted : Bool) (c : ℕ) → is_harmless quoted (escaped quoted c) ≡ true
unfolding escaped is_harmless
escaped_harmless quoted c = elim (Bool-cases (c == 38)) [
  | inl amp ↦ rw amp (ground arith)
  | inr a ↦ elim (Bool-cases (c == 60)) [
    | inl less ↦ rw (a, less) (ground arith)
    | inr l ↦ elim (Bool-cases (c == 62)) [
      | inl greater ↦ rw (a, l, greater) (ground arith)
      | inr g ↦ elim (Bool-cases (c == 34 && quoted)) [
        | inl double ↦ rw (a, l, g, double) (ground arith)
        | inr d ↦ elim (Bool-cases (c == 39 && quoted)) [
          | inl single ↦ rw (a, l, g, d, single) (ground arith)
          | inr s ↦ elim (Bool-cases (is_allowed_html_character c)) [
            | inr bad ↦ rw (a, l, g, d, s, bad) refl
            | inl good ↦ rw (a, l, g, d, s, good) (ground arith)
          ]
        ]
      ]
    ]
  ]
]

pub escape-IsPlain : (value : Text) → IsPlain (escape false value)
unfolding escape
escape-IsPlain [] = tt
escape-IsPlain (c ∷ value) =
    All-append (λ x. (x ≢ 60) × (x ≢ 62)) (escaped false c) (escape false value)
      (is_harmless-IsPlain (escaped false c) (escaped_harmless false c)) (escape-IsPlain value)

pub escape-IsQuoted : (value : Text) → IsQuoted (escape true value)
unfolding escape
escape-IsQuoted [] = tt
escape-IsQuoted (c ∷ value) =
    All-append (λ x. ((x ≢ 60) × (x ≢ 62)) × ((x ≢ 34) × (x ≢ 39))) (escaped true c)
      (escape true value) (is_harmless-IsQuoted (escaped true c) (escaped_harmless true c))
      (escape-IsQuoted value)
