-- ===== src/Archive/UrlRewriter/Urls.antt =====
-- Asset URLs made absolute and replaced, src/archive/url_rewriter.rs.
use werrss.Common.{
  ℕ, ◌≡◌, refl, ◌≢◌, ◌⊎◌, Bool, true, false, Option, none, some, List, [], ◌∷◌, Text, Option-cases,
  Bool-cases, inl, inr, arith, ap, sym, ◌∙◌, subst, is_some,
}
use werrss.Archive.UrlRewriter.{
  strip_prefix, escape_attribute, replaced, rewrite_src_attributes, has_src_matching,
  replacement_for, rewrite_sanitized_html, stable_asset_id_segment, stable_asset_id,
  contains_relative_asset_urls, absolute_url, absolutize_asset_urls,
}
use werrss.Archive.UrlRewriter.Pieces.{render, replace_values, any_value}
use werrss.Archive.UrlRewriter.Rewriting.{rewrite_src_attributes-render, has_src_matching-render}

-- Values that fail the test have no replacement, so pieces without a match stay.
replace_values-kept :
    (p : Text → Bool) (f : Text → Option Text) (pieces : List (Text × Text))
    → ((v : Text) → p v ≡ false → f v ≡ none)
    → any_value p pieces ≡ false
    → replace_values f pieces ≡ pieces
replace_values-kept p f [] k h = refl
replace_values-kept p f ((before, value) ∷ pieces) k h =
    let miss : p value ≡ false = ground arith in
    let rest = replace_values-kept p f pieces k (ground arith) in
    let same : replaced f value ≡ value = rw (k value miss, replaced) refl in rw (same, rest) refl

-- The search and the rewriting agree: where no value satisfies the test, and only values that do are
-- replaced, the text stays as it is.
pub rewrite-has_src_matching :
    (p : Text → Bool) (f : Text → Option Text) (html : Text)
    → ((v : Text) → p v ≡ false → f v ≡ none)
    → has_src_matching p html ≡ some false
    → rewrite_src_attributes f html ≡ some html
rewrite-has_src_matching p f html k h =
    let (pieces, tail, cut, scans, result, scans') = rewrite_src_attributes-render f html in
    let found : has_src_matching p html ≡ some (any_value p pieces) =
      subst (λ t. has_src_matching p t ≡ some (any_value p pieces)) (sym cut)
        (has_src_matching-render p pieces tail scans) in
    let nothing : any_value p pieces ≡ false = ground arith in
    let same = ap (λ ps. render ps tail) (replace_values-kept p f pieces k nothing) in
    result ∙ ap some (same ∙ sym cut)

any_value-never : (pieces : List (Text × Text)) → any_value (λ v. false) pieces ≡ false
any_value-never [] = refl
any_value-never ((before, value) ∷ pieces) = any_value-never pieces

-- Without replacements and without text the early returns give what the rewriting gives.
pub rewrite_sanitized_html-rewrite :
    (html : Text) (replacements : List (Text × Text))
    → rewrite_sanitized_html html replacements
      ≡ rewrite_src_attributes (replacement_for replacements) html
unfolding rewrite_sanitized_html replacement_for
rewrite_sanitized_html-rewrite html [] =
    let (pieces, tail, cut, scans, result, scans') =
      rewrite_src_attributes-render (replacement_for []) html in
    let same =
      ap (λ ps. render ps tail)
        (replace_values-kept (λ v. false) (replacement_for []) pieces (λ v q. refl)
          (any_value-never pieces)) in
    sym (result ∙ ap some (same ∙ sym cut))
rewrite_sanitized_html-rewrite [] (r ∷ replacements) = refl
rewrite_sanitized_html-rewrite (c ∷ html) (r ∷ replacements) = refl

-- What the url crate documents of a join with an asset identifier: it succeeds, and the URL begins
-- with its scheme, so not with a slash.
abbrev pub BeginsWithout : ℕ → Text → Type 0
BeginsWithout c [] = ⊥
BeginsWithout c (d ∷ s) = d ≢ c

pub record JoinsAbsolute (is_uuid : Text → Bool) (join : Text → Option Text) : Type 0 where
  pub total : (id : Text) → is_uuid id ≡ true → is_some (join id) ≡ true
  pub schemed : (id url : Text) → join id ≡ some url → BeginsWithout 47 url

module _ (is_uuid : Text → Bool) (join : Text → Option Text)
    (lawful : JoinsAbsolute is_uuid join) where
  escaped-not_stable :
      (url : Text) → BeginsWithout 47 url → stable_asset_id is_uuid (escape_attribute url) ≡ none
  unfolding stable_asset_id escape_attribute strip_prefix
  escaped-not_stable [] b = absurd b
  escaped-not_stable (c ∷ url) b = ground arith

  stable-uuid : (v id : Text) → stable_asset_id is_uuid v ≡ some id → is_uuid id ≡ true
  unfolding stable_asset_id stable_asset_id_segment
  stable-uuid v id h = ground arith

  plain_kept :
      (v : Text) → is_some (stable_asset_id is_uuid v) ≡ false → absolute_url is_uuid join v ≡ none
  plain_kept v h = elim (Option-cases (stable_asset_id is_uuid v)) [
    | inl plain ↦ rw (plain, absolute_url) refl
    | inr (id, stable) ↦ absurd (ground arith)
  ]

  value_clean :
      (v : Text)
      → is_some (stable_asset_id is_uuid (replaced (absolute_url is_uuid join) v)) ≡ false
  value_clean v = elim (Option-cases (stable_asset_id is_uuid v)) [
    | inl plain ↦
        let same : replaced (absolute_url is_uuid join) v ≡ v =
          rw (plain, replaced, absolute_url) refl in
        rw (same, plain) refl
    | inr (id, stable) ↦ elim (Option-cases (join id)) [
      | inl failed ↦ absurd (ground (arith, lawful.total id (stable-uuid v id stable)))
      | inr (url, joined) ↦
          let same : replaced (absolute_url is_uuid join) v ≡ escape_attribute url =
            rw (stable, joined, replaced, absolute_url) refl in
          rw (same, escaped-not_stable url (lawful.schemed id url joined)) refl
    ]
  ]

  values_clean :
      (pieces : List (Text × Text))
      → any_value
          (λ v. is_some (stable_asset_id is_uuid v))
          (replace_values (absolute_url is_uuid join) pieces)
        ≡ false
  values_clean [] = refl
  values_clean ((before, value) ∷ pieces) = rw (value_clean value, values_clean pieces) refl

  -- With a lawful join, making the asset URLs absolute always ends, leaves no relative asset URL
  -- behind, and leaves text without one as it is.
  pub absolutize_asset_urls-clean :
      (html : Text)
      → (result : Text) × (absolutize_asset_urls is_uuid (some join) html ≡ some result)
        × (contains_relative_asset_urls is_uuid result ≡ some false)
        × ((contains_relative_asset_urls is_uuid html ≡ some true) ⊎ (result ≡ html))
  unfolding absolutize_asset_urls contains_relative_asset_urls
  absolutize_asset_urls-clean html =
      let f = absolute_url is_uuid join in
      let p = λ (v : Text). is_some (stable_asset_id is_uuid v) in
      let (pieces, tail, cut, scans, result, scans') = rewrite_src_attributes-render f html in
      let after = render (replace_values f pieces) tail in
      let clean : has_src_matching p after ≡ some false =
        has_src_matching-render p (replace_values f pieces) tail scans'
        ∙ ap some (values_clean pieces) in
      let found : has_src_matching p html ≡ some (any_value p pieces) =
        subst (λ t. has_src_matching p t ≡ some (any_value p pieces)) (sym cut)
          (has_src_matching-render p pieces tail scans) in
      (
        after,
        result,
        clean,
        elim (Bool-cases (any_value p pieces)) [
          | inl hit ↦ inl (found ∙ ap some hit)
          | inr miss ↦
              inr (
                ap (λ ps. render ps tail) (replace_values-kept p f pieces plain_kept miss)
                ∙ sym cut)
        ],
      )
