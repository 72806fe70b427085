-- ===== src/Archive/UrlRewriter/Pieces.antt =====
-- HTML as pieces around its `src` attributes, src/archive/url_rewriter.rs.
use werrss.Common.{
  ℕ, ◌<◌, ◌≡◌, refl, ◌≢◌, Bool, true, false, Option, none, some, List, [], ◌∷◌, ◌++◌, Text, length,
  length-append, if◌then◌else◌, All, Option-cases, inl, inr, arith, ap, sym, ◌∙◌, subst, codes,
}
use werrss.Archive.UrlRewriter.{
  strip_prefix, split_match, src_attribute, quote, next_attribute, escape_char, escape_attribute,
  replaced,
}
use werrss.Archive.UrlRewriter.Scanning.{split_match_sound, split_match-tail}

-- The pieces of a text, each the text before an attribute and the attribute's value, and the text
-- after the last attribute.
abbrev pub render : List (Text × Text) → Text → Text
render [] tail = tail
render ((before, value) ∷ pieces) tail =
    before ++ (src_attribute ++ (value ++ (quote ++ render pieces tail)))

-- The scan finds exactly these pieces.
abbrev pub Scans : List (Text × Text) → Text → Type 0
Scans [] tail = next_attribute tail ≡ none
Scans ((before, value) ∷ pieces) tail =
    (next_attribute (render ((before, value) ∷ pieces) tail)
      ≡ some (before, value, render pieces tail))
    × Scans pieces tail

abbrev pub replace_values : (Text → Option Text) → List (Text × Text) → List (Text × Text)
replace_values f [] = []
replace_values f ((before, value) ∷ pieces) = (before, replaced f value) ∷ replace_values f pieces

abbrev pub any_value : (Text → Bool) → List (Text × Text) → Bool
any_value p [] = false
any_value p ((before, value) ∷ pieces) = if p value then true else any_value p pieces

-- The two matches of a step.
next_attribute-parts :
    (html before value rest : Text)
    → next_attribute html ≡ some (before, value, rest)
    → (on : Text) × (split_match src_attribute html ≡ some (before, on))
      × (split_match quote on ≡ some (value, rest))
unfolding next_attribute
next_attribute-parts html before value rest h =
    elim (Option-cases (split_match src_attribute html)) [
      | inl nowhere ↦ absurd (ground arith)
      | inr ((b, on), found) ↦ elim (Option-cases (split_match quote on)) [
        | inl endless ↦ absurd (ground arith)
        | inr ((v, r), closed) ↦
            let same : b ≡ before = ground arith in
            let same' : v ≡ value = ground arith in
            let same'' : r ≡ rest = ground arith in
            (on, rw (← same) found, rw (← same', ← same'') closed)
      ]
    ]

next_attribute-made :
    (html before on value rest : Text)
    → split_match src_attribute html ≡ some (before, on)
    → split_match quote on ≡ some (value, rest)
    → next_attribute html ≡ some (before, value, rest)
unfolding next_attribute
next_attribute-made html before on value rest a b = rw (a, b, next_attribute) refl

pub next_attribute_sound :
    (html before value rest : Text)
    → next_attribute html ≡ some (before, value, rest)
    → html ≡ before ++ (src_attribute ++ (value ++ (quote ++ rest)))
next_attribute_sound html before value rest h =
    let (on, a, b) = next_attribute-parts html before value rest h in
    split_match_sound src_attribute html before on a
    ∙ ap (λ t. before ++ (src_attribute ++ t)) (split_match_sound quote on value rest b)

-- Each step leaves a shorter text.
pub next_attribute-shorter :
    (html before value rest : Text)
    → next_attribute html ≡ some (before, value, rest)
    → length rest < length html
next_attribute-shorter html before value rest h =
    let size = ap length (next_attribute_sound html before value rest h) in
    omega (
      arith,
      size,
      length-append before (src_attribute ++ (value ++ (quote ++ rest))),
      length-append value (quote ++ rest),
    )

-- A text without the closing quote.
abbrev NoQuote : Text → Type 0
NoQuote s = All (λ c. c ≢ 34) s

NoQuote-append : (s t : Text) → NoQuote s → NoQuote t → NoQuote (s ++ t)
NoQuote-append [] t a b = b
NoQuote-append (c ∷ s) t a b = (a.0, NoQuote-append s t a.1 b)

escape_char-NoQuote : (c : ℕ) → NoQuote (escape_char c)
escape_char-NoQuote c = ground arith

escape_attribute-NoQuote : (s : Text) → NoQuote (escape_attribute s)
unfolding escape_attribute
escape_attribute-NoQuote [] = tt
escape_attribute-NoQuote (c ∷ s) =
    NoQuote-append (escape_char c) (escape_attribute s) (escape_char-NoQuote c)
      (escape_attribute-NoQuote s)

split_quote : (u r : Text) → NoQuote u → split_match quote (u ++ (quote ++ r)) ≡ some (u, r)
unfolding split_match strip_prefix
split_quote [] r n = refl
split_quote (c ∷ u) r n = ground (arith, split_quote u r n.1)

abbrev EndsAt : Text → Text → Type 0
EndsAt rest value = split_match quote (value ++ (quote ++ rest)) ≡ some (value, rest)

-- The value ends where its quote stands, whether it is kept or replaced.
replaced-split :
    (f : Text → Option Text) (value rest rest' : Text)
    → split_match quote (value ++ (quote ++ rest)) ≡ some (value, rest)
    → split_match quote (replaced f value ++ (quote ++ rest')) ≡ some (replaced f value, rest')
replaced-split f value rest rest' h = elim (Option-cases (f value)) [
  | inl kept ↦
      let same : replaced f value ≡ value = rw (kept, replaced) refl in
      subst (EndsAt rest') (sym same) (split_match-tail 34 [] value rest rest' h)
  | inr (target, given) ↦
      let same : replaced f value ≡ escape_attribute target = rw (given, replaced) refl in
      subst (EndsAt rest') (sym same)
        (split_quote (escape_attribute target) rest' (escape_attribute-NoQuote target))
]

-- A step on the text with its value replaced, and with another text behind it.
pub next_attribute-replaced :
    (f : Text → Option Text) (before value rest rest' : Text)
    → next_attribute (before ++ (src_attribute ++ (value ++ (quote ++ rest))))
      ≡ some (before, value, rest)
    → next_attribute (before ++ (src_attribute ++ (replaced f value ++ (quote ++ rest'))))
      ≡ some (before, replaced f value, rest')
next_attribute-replaced f before value rest rest' h =
    let html = before ++ (src_attribute ++ (value ++ (quote ++ rest))) in
    let (on, a, b) = next_attribute-parts html before value rest h in
    let same : on ≡ value ++ (quote ++ rest) = split_match_sound quote on value rest b in
    let a' : split_match src_attribute html ≡ some (before, value ++ (quote ++ rest)) =
      subst (λ w. split_match src_attribute html ≡ some (before, w)) same a in
    let b' : split_match quote (value ++ (quote ++ rest)) ≡ some (value, rest) =
      subst (λ w. split_match quote w ≡ some (value, rest)) same b in
    let behind = replaced f value ++ (quote ++ rest') in
    next_attribute-made (before ++ (src_attribute ++ behind)) before behind (replaced f value) rest'
      (split_match-tail 32 (codes "src=\"") before (value ++ (quote ++ rest)) behind a')
      (replaced-split f value rest rest' b')
