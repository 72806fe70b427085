-- ===== src/Archive/UrlRewriter/Rewriting.antt =====
-- What rewriting does to HTML, src/archive/url_rewriter.rs.
use werrss.Common.{
  ℕ, zero, suc, ◌<◌, ◌≡◌, refl, Bool, Option, some, List, [], ◌∷◌, ◌++◌, Text, length, Option-cases,
  Bool-cases, inl, inr, arith, ap, sym, ◌∙◌, subst,
}
use werrss.Archive.UrlRewriter.{
  split_match, src_attribute, quote, next_attribute, has_src_loop, has_src_matching, replaced,
  rewrite_loop, rewrite_src_attributes,
}
use werrss.Archive.UrlRewriter.Scanning.{append_assoc}
use werrss.Archive.UrlRewriter.Pieces.{
  render, Scans, replace_values, any_value, next_attribute_sound, next_attribute-shorter,
  next_attribute-replaced,
}

-- Every text falls into pieces.
pieces-of :
    (fuel : ℕ) (html : Text)
    → length html < fuel
    → (pieces : List (Text × Text)) × (tail : Text) × (html ≡ render pieces tail)
      × Scans pieces tail
pieces-of zero html h = absurd (omega arith)
pieces-of (suc fuel) html h = elim (Option-cases (next_attribute html)) [
  | inl last ↦ ([], html, refl, last)
  | inr ((before, value, rest), found) ↦
      let whole = next_attribute_sound html before value rest found in
      let (pieces, tail, cut, scans) =
        pieces-of fuel rest (omega (arith, next_attribute-shorter html before value rest found)) in
      let all : html ≡ render ((before, value) ∷ pieces) tail = rw (← cut) whole in
      ((before, value) ∷ pieces, tail, all, (rw (← all, ← cut) found, scans))
]

-- The pieces with new values are found again.
replaced-Scans :
    (f : Text → Option Text) (pieces : List (Text × Text)) (tail : Text)
    → Scans pieces tail
    → Scans (replace_values f pieces) tail
replaced-Scans f [] tail s = s
replaced-Scans f ((before, value) ∷ pieces) tail s = (
  next_attribute-replaced f before value (render pieces tail)
      (render (replace_values f pieces) tail) s.0,
  replaced-Scans f pieces tail s.1,
)

piece_assoc :
    (a b c d rest : Text) → (a ++ (b ++ (c ++ d))) ++ rest ≡ a ++ (b ++ (c ++ (d ++ rest)))
piece_assoc a b c d rest =
    append_assoc a (b ++ (c ++ d)) rest
    ∙ ap (λ t. a ++ t) (append_assoc b (c ++ d) rest ∙ ap (λ t. b ++ t) (append_assoc c d rest))

rewrite_loop-render :
    (fuel : ℕ) (f : Text → Option Text) (pieces : List (Text × Text)) (tail : Text)
    → Scans pieces tail
    → length (render pieces tail) < fuel
    → rewrite_loop fuel f (render pieces tail) ≡ some (render (replace_values f pieces) tail)
unfolding rewrite_loop
rewrite_loop-render zero f pieces tail s h = absurd (omega arith)
rewrite_loop-render (suc fuel) f [] tail s h = rw (s, rewrite_loop) refl
rewrite_loop-render (suc fuel) f ((before, value) ∷ pieces) tail s h =
    let html = render ((before, value) ∷ pieces) tail in
    let rest = render pieces tail in
    let shorter = next_attribute-shorter html before value rest s.0 in
    let later = rewrite_loop-render fuel f pieces tail s.1 (omega (arith, shorter)) in
    rw (s.0, later, rewrite_loop)
      (ap some (
        piece_assoc before src_attribute (replaced f value) quote
          (render (replace_values f pieces) tail)))

has_src_loop-render :
    (fuel : ℕ) (p : Text → Bool) (pieces : List (Text × Text)) (tail : Text)
    → Scans pieces tail
    → length (render pieces tail) < fuel
    → has_src_loop fuel p (render pieces tail) ≡ some (any_value p pieces)
unfolding has_src_loop
has_src_loop-render zero p pieces tail s h = absurd (omega arith)
has_src_loop-render (suc fuel) p [] tail s h = rw (s, has_src_loop) refl
has_src_loop-render (suc fuel) p ((before, value) ∷ pieces) tail s h =
    let html = render ((before, value) ∷ pieces) tail in
    let rest = render pieces tail in
    let shorter = next_attribute-shorter html before value rest s.0 in
    let later = has_src_loop-render fuel p pieces tail s.1 (omega (arith, shorter)) in
    elim (Bool-cases (p value)) [
      | inl hit ↦ rw (s.0, hit, has_src_loop) refl
      | inr miss ↦ rw (s.0, miss, later, has_src_loop) refl
    ]

rewrite_src_attributes-loop :
    (f : Text → Option Text) (html : Text)
    → rewrite_src_attributes f html ≡ rewrite_loop (suc (length html)) f html
unfolding rewrite_src_attributes rewrite_loop next_attribute split_match
rewrite_src_attributes-loop f [] = refl
rewrite_src_attributes-loop f (c ∷ html) = refl

-- Rewriting always ends. The text falls into pieces around its attributes; the result has the same
-- pieces with each value kept or replaced by the escaped target, and the scan of the result finds
-- just these pieces again, whatever the targets contain.
pub rewrite_src_attributes-render :
    (f : Text → Option Text) (html : Text)
    → (pieces : List (Text × Text)) × (tail : Text) × (html ≡ render pieces tail)
      × Scans pieces tail
      × (rewrite_src_attributes f html ≡ some (render (replace_values f pieces) tail))
      × Scans (replace_values f pieces) tail
rewrite_src_attributes-render f html =
    let (pieces, tail, cut, scans) = pieces-of (suc (length html)) html (omega arith) in
    let short : length (render pieces tail) < suc (length html) = rw (← cut) (omega arith) in
    let result : rewrite_loop (suc (length html)) f html
        ≡ some (render (replace_values f pieces) tail) =
      subst
        (λ t. rewrite_loop (suc (length html)) f t ≡ some (render (replace_values f pieces) tail))
        (sym cut) (rewrite_loop-render (suc (length html)) f pieces tail scans short) in
    (
      pieces,
      tail,
      cut,
      scans,
      rewrite_src_attributes-loop f html ∙ result,
      replaced-Scans f pieces tail scans,
    )

-- The search always ends, and tells whether a value of the text's pieces satisfies the test.
pub has_src_matching-render :
    (p : Text → Bool) (pieces : List (Text × Text)) (tail : Text)
    → Scans pieces tail
    → has_src_matching p (render pieces tail) ≡ some (any_value p pieces)
unfolding has_src_matching
has_src_matching-render p pieces tail s =
    has_src_loop-render (suc (length (render pieces tail))) p pieces tail s (omega arith)
