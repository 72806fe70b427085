-- ===== src/Archive/UrlRewriter.antt =====
-- Rewriting of image URLs in sanitized HTML, src/archive/url_rewriter.rs. A slice from the cursor on
-- is the text that is left; `none` of a loop is fuel that has run out.
pub mod Scanning
pub mod Pieces
pub mod Rewriting
pub mod Urls
use werrss.Common.{
  ℕ, zero, suc, Bool, true, false, ◌||◌, Option, none, some, List, [], ◌∷◌, ◌++◌, Text, codes,
  text_eq, is_empty, length, ◌==◌, if◌then◌else◌, is_some,
}

-- `str::strip_prefix`.
unfoldable pub strip_prefix : Text → Text → Option Text
strip_prefix [] s = some s
strip_prefix (n ∷ needle) [] = none
strip_prefix (n ∷ needle) (c ∷ s) =
    let rest = strip_prefix needle s in if n == c then rest else none

-- `str::find`, with the slices before and after the first match.
unfoldable pub split_match : Text → Text → Option (Text × Text)
split_match needle [] = none
split_match needle (c ∷ s) =
    let later = split_match needle s in
    elim (strip_prefix needle (c ∷ s)) [
      | some rest ↦ some ([], rest)
      | none ↦ elim later [ none ↦ none | some (before, rest) ↦ some (c ∷ before, rest) ]
    ]

abbrev pub src_attribute : Text
src_attribute = codes " src=\""

abbrev pub quote : Text
quote = codes "\""

abbrev pub escape_char : ℕ → Text
escape_char c =
    if c == 38
    then codes "&amp;"
    else if c == 60
    then codes "&lt;"
    else if c == 62
    then codes "&gt;"
    else if c == 34
    then codes "&quot;"
    else if c == 39
    then codes "&#39;"
    else c ∷ []

unfoldable pub escape_attribute : Text → Text
escape_attribute [] = []
escape_attribute (c ∷ s) = escape_char c ++ escape_attribute s

-- The next attribute: the text before it, its value, and the text after its closing quote.
unfoldable pub next_attribute : Text → Option (Text × Text × Text)
unfolding split_match
next_attribute html = elim (split_match src_attribute html) [
  | none ↦ none
  | some (before, value_on) ↦ elim (split_match quote value_on) [
    | none ↦ none
    | some (value, rest) ↦ some (before, value, rest)
  ]
]

unfoldable pub has_src_loop : ℕ → (Text → Bool) → Text → Option Bool
has_src_loop zero predicate html = none
has_src_loop (suc fuel) predicate html = elim (next_attribute html) [
  | none ↦ some false
  | some (before, value, rest) ↦
      let later = has_src_loop fuel predicate rest in if predicate value then some true else later
]

unfoldable pub has_src_matching : (Text → Bool) → Text → Option Bool
unfolding has_src_loop
has_src_matching predicate html = has_src_loop (suc (length html)) predicate html

-- What is pushed for a value.
abbrev pub replaced : (Text → Option Text) → Text → Text
replaced replacement value = elim (replacement value) [
  | some target ↦ escape_attribute target
  | none ↦ value
]

abbrev pub push : Text → Option Text → Option Text
push s none = none
push s (some rest) = some (s ++ rest)

unfoldable pub rewrite_loop : ℕ → (Text → Option Text) → Text → Option Text
rewrite_loop zero replacement html = none
rewrite_loop (suc fuel) replacement html = elim (next_attribute html) [
  | none ↦ some html
  | some (before, value, rest) ↦
      push (before ++ (src_attribute ++ (replaced replacement value ++ quote)))
        (rewrite_loop fuel replacement rest)
]

unfoldable pub rewrite_src_attributes : (Text → Option Text) → Text → Option Text
unfolding rewrite_loop
rewrite_src_attributes replacement html =
    if is_empty html then some html else rewrite_loop (suc (length html)) replacement html

-- The map that the replacements are collected into: the last of equal keys stays.
unfoldable pub replacement_for : List (Text × Text) → Text → Option Text
unfolding escape_attribute text_eq
replacement_for [] value = none
replacement_for ((source, target) ∷ replacements) value =
    let later = replacement_for replacements value in
    if is_some later
    then later
    else if text_eq (escape_attribute source) value
    then some target
    else none

unfoldable pub rewrite_sanitized_html : Text → List (Text × Text) → Option Text
unfolding rewrite_src_attributes replacement_for
rewrite_sanitized_html html [] = some html
rewrite_sanitized_html html (r ∷ replacements) =
    if is_empty html
    then some html
    else rewrite_src_attributes (replacement_for (r ∷ replacements)) html

abbrev contains_char : ℕ → Text → Bool
contains_char c [] = false
contains_char c (d ∷ s) = if d == c then true else contains_char c s

-- `is_uuid` is the uuid crate's parser: whether the text is one.
module _ (is_uuid : Text → Bool) where
  unfoldable pub stable_asset_id_segment : Text → Option Text
  stable_asset_id_segment asset_id =
      if is_empty asset_id
        || (contains_char 47 asset_id || (contains_char 63 asset_id || contains_char 35 asset_id))
      then none
      else if is_uuid asset_id
      then some asset_id
      else none

  unfoldable pub stable_asset_id : Text → Option Text
  unfolding stable_asset_id_segment strip_prefix
  stable_asset_id source = elim (strip_prefix (codes "/assets/") source) [
    | none ↦ none
    | some asset_id ↦ stable_asset_id_segment asset_id
  ]

  unfoldable pub contains_relative_asset_urls : Text → Option Bool
  unfolding has_src_matching stable_asset_id
  contains_relative_asset_urls html =
      has_src_matching (λ source. is_some (stable_asset_id source)) html

  -- `asset_base` is `asset_url_base` with the url crate's `join` on it: the text of the joined URL.
  abbrev pub absolute_url : (Text → Option Text) → Text → Option Text
  absolute_url join source = elim (stable_asset_id source) [
    | none ↦ none
    | some asset_id ↦ join asset_id
  ]

  unfoldable pub absolutize_asset_urls : Option (Text → Option Text) → Text → Option Text
  unfolding rewrite_src_attributes
  absolutize_asset_urls none html = some html
  absolutize_asset_urls (some join) html = rewrite_src_attributes (absolute_url join) html
