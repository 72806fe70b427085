-- ===== src/Archive/AssetStore/Keys.antt =====
-- Where a blob key leads, src/archive/asset_store.rs: a key is read as a relative path below a root
-- directory, the way a file system resolves it.
use mathlib.Core.List.{reverse, reverse_aux, reverse_aux-eq, reverse-reverse, append_cancel_right}
use werrss.Common.{
  split, cons_first, ℕ, Bool, true, false, ◌||◌, List, [], ◌∷◌, ◌++◌, Text, codes, text_eq,
  is_empty, ◌==◌, if◌then◌else◌, Bool-cases, ok, ◌≡◌, refl, sym, ap, ◌∙◌, inl, inr, arith,
}
use werrss.Domain.UrlPolicy.{any}
use werrss.Archive.AssetStore.{starts_with, contains, is_invalid_component, new_blob_key}

-- One step of path resolution from a directory, the innermost name first: an empty name and `.` stay,
-- `..` goes up.
abbrev parent : List Text → List Text
parent [] = []
parent (n ∷ names) = names

unfoldable pub enter : List Text → Text → List Text
enter directory name =
    if is_empty name || text_eq name (codes ".")
    then directory
    else if text_eq name (codes "..")
    then parent directory
    else name ∷ directory

unfoldable pub resolve : List Text → List Text → List Text
resolve directory [] = directory
resolve directory (name ∷ names) = resolve (enter directory name) names

enter-valid :
    (directory : List Text) (name : Text)
    → is_invalid_component name ≡ false
    → enter directory name ≡ name ∷ directory
unfolding enter
enter-valid directory name h = ground arith

or_left : (a b : Bool) → a || b ≡ false → a ≡ false
or_left a b h = ground arith

or_right : (a b : Bool) → a || b ≡ false → b ≡ false
or_right a b h = ground arith

-- Each valid name goes one directory down.
resolve_valid :
    (directory names : List Text)
    → any is_invalid_component names ≡ false
    → resolve directory names ≡ reverse_aux names directory
unfolding resolve any
resolve_valid directory [] h = refl
resolve_valid directory (name ∷ names) h =
    ap (λ d. resolve d names) (enter-valid directory name (or_left _ _ h))
    ∙ resolve_valid (name ∷ directory) names (or_right _ _ h)

-- The names joined by `d`.
abbrev join : ℕ → List Text → Text
join d [] = []
join d (s ∷ []) = s
join d (s ∷ t ∷ names) = s ++ (d ∷ join d (t ∷ names))

split-parts : (d : ℕ) (s : Text) → (t : Text) × ((names : List Text) × (split d s ≡ t ∷ names))
unfolding split
split-parts d [] = ([], ([], refl))
split-parts d (c ∷ s) = elim (Bool-cases (c == d)) [
  | inl e ↦ ([], (split d s, rw e refl))
  | inr e ↦ let (t, (names, parts)) = split-parts d s in (c ∷ t, (names, rw (e, parts) refl))
]

equal : (c d : ℕ) → c == d ≡ true → d ≡ c
equal c d e = ground arith

join-cons_first :
    (d c : ℕ) (t : Text) (names : List Text)
    → join d (cons_first c (t ∷ names)) ≡ c ∷ join d (t ∷ names)
join-cons_first d c t [] = refl
join-cons_first d c t (u ∷ names) = refl

join-split : (d : ℕ) (s : Text) → join d (split d s) ≡ s
unfolding split
join-split d [] = refl
join-split d (c ∷ s) =
    let (t, (names, parts)) = split-parts d s in
    let joined : join d (t ∷ names) ≡ s = ap (join d) (sym parts) ∙ join-split d s in
    elim (Bool-cases (c == d)) [
      | inl e ↦ rw (e, parts) (ap (◌∷◌ d) joined ∙ ap (λ (n : ℕ). n ∷ s) (equal c d e))
      | inr e ↦ rw (e, parts) (join-cons_first d c t names ∙ ap (◌∷◌ c) joined)
    ]

-- What the checks say of an accepted key.
new_blob_key_checks :
    (value key : Text)
    → new_blob_key value ≡ ok key
    → (key ≡ value)
      × ((any is_invalid_component (split 47 key) ≡ false)
          × ((starts_with 47 key ≡ false) × ((contains 0 key ≡ false) × (contains 92 key ≡ false))))
unfolding new_blob_key
new_blob_key_checks value key h = ground arith

-- Below a root directory an accepted key leads to exactly the names between its slashes; it is the
-- given text, does not begin with a slash, and has no backslash and no NUL.
pub resolve-new_blob_key :
    (root : List Text) (value key : Text)
    → new_blob_key value ≡ ok key
    → (key ≡ value)
      × ((resolve root (split 47 key) ≡ reverse (split 47 key) ++ root)
          × ((starts_with 47 key ≡ false) × ((contains 0 key ≡ false) × (contains 92 key ≡ false))))
resolve-new_blob_key root value key h =
    let (same, (valid, rest)) = new_blob_key_checks value key h in
    (same, (resolve_valid root (split 47 key) valid ∙ reverse_aux-eq (split 47 key) root, rest))

-- Two accepted keys that lead to one place are equal.
pub new_blob_key-distinct :
    (root : List Text) (value key other_value other : Text)
    → new_blob_key value ≡ ok key
    → new_blob_key other_value ≡ ok other
    → resolve root (split 47 key) ≡ resolve root (split 47 other)
    → key ≡ other
new_blob_key-distinct root value key other_value other h g same =
    let key_parts = resolve-new_blob_key root value key h in
    let other_parts = resolve-new_blob_key root other_value other g in
    let parts : reverse (split 47 key) ≡ reverse (split 47 other) =
      append_cancel_right (reverse (split 47 key)) (reverse (split 47 other)) root
        (sym key_parts.1.0 ∙ (same ∙ other_parts.1.0)) in
    let names : split 47 key ≡ split 47 other =
      sym (reverse-reverse (split 47 key))
      ∙ (ap reverse parts ∙ reverse-reverse (split 47 other)) in
    sym (join-split 47 key) ∙ (ap (join 47) names ∙ join-split 47 other)
