-- ===== src/Archive/Sanitizer/Attributes.antt =====
-- The attributes that the renderer writes, src/archive/sanitizer.rs.
use werrss.Common.{
  ◌≡◌, refl, sym, ap, ◌∙◌, subst, inl, inr, Bool, true, false, ◌||◌, Option, none, some, List, [],
  ◌∷◌, ◌++◌, Text, codes, text_eq, text_eq_iff, Bool-cases, Option-cases, arith, trim,
}
use mathlib.Core.List.{append_assoc, append-nil}
use werrss.Domain.UrlPolicy.{Url, has_provider_signature}
use werrss.Archive.Sanitizer.{append_attribute, allowed_attribute, starts_with, approved, attr}
use werrss.Archive.Sanitizer.Rendering.{
  Urls, approved_http_url, first_approved, append_one, append_each, append_attributes, append_link,
}
use werrss.Archive.Sanitizer.Escaping.{escape, escape-IsQuoted, append_escaped-escape}
use werrss.Archive.Sanitizer.Markup.{
  IsApproved, IsAttribute, ordinary, linked, sourced, written, IsAttributes, no_attributes,
  one_more,
}

approved-IsApproved :
    (strip_fragment : Bool) (url u : Url) → approved strip_fragment url ≡ some u → IsApproved u
unfolding approved
approved-IsApproved strip_fragment url u h = record {
  scheme =
      ground (arith, text_eq_iff url.scheme (codes "http"), text_eq_iff url.scheme (codes "https"));
  host = ground arith;
  username = ground arith;
  password = ground arith;
}

append_attribute-written :
    (output n v : Text) → append_attribute output n v ≡ output ++ written n (escape true v)
unfolding append_attribute
append_attribute-written output n v =
    rw (append_escaped-escape (output ++ (codes " " ++ (n ++ codes "=\""))) true v)
      (simp append_assoc refl)

href_of_a : (name n : Text) → n ≡ codes "href" → allowed_attribute name n ≡ true → name ≡ codes "a"
unfolding allowed_attribute text_eq
href_of_a name n h allowed =
    let at : allowed_attribute name (codes "href") ≡ true =
      subst (λ x. allowed_attribute name x ≡ true) h allowed in
    (text_eq_iff name (codes "a")).0 at

module _ (urls : Urls) where
  approved_http_url-IsApproved :
      (value : Text) (strip_fragment : Bool) (u : Url)
      → approved_http_url urls value strip_fragment ≡ some u
      → IsApproved u
  unfolding approved_http_url
  approved_http_url-IsApproved value strip_fragment u h =
      elim (Option-cases (urls.parse (trim value))) [
        | inl bad ↦ absurd (ground arith)
        | inr (url, parsed) ↦ approved-IsApproved strip_fragment url u (ground arith)
      ]

  pub first_approved-IsApproved :
      (names : List Text) (attrs : List (Text × Text)) (u : Url)
      → first_approved urls names attrs ≡ some u
      → IsApproved u
  unfolding first_approved
  first_approved-IsApproved [] attrs u h = absurd (ground arith)
  first_approved-IsApproved (n ∷ names) attrs u h = elim (Option-cases (attr n attrs)) [
    | inl missing ↦ first_approved-IsApproved names attrs u (ground arith)
    | inr (value, given) ↦ elim (Option-cases (approved_http_url urls value true)) [
      | inl refused ↦ first_approved-IsApproved names attrs u (ground arith)
      | inr (url, allowed) ↦ approved_http_url-IsApproved value true u (ground arith)
    ]
  ]

  -- What an element's attributes append to a text.
  abbrev pub Appended : Text → Text → Text → Type 0
  Appended name base output =
      (attrs : Text) × (output ≡ base ++ attrs) × IsAttributes urls name attrs

  append_attribute-Appended :
      (name base output n v : Text)
      → IsAttribute urls name n (escape true v)
      → Appended name base output
      → Appended name base (append_attribute output n v)
  append_attribute-Appended name base output n v a (attrs, same, good) = (
    attrs ++ written n (escape true v),
    append_attribute-written output n v
        ∙ (ap (λ t. t ++ written n (escape true v)) same
            ∙ append_assoc base attrs (written n (escape true v))),
    one_more attrs n (escape true v) good a,
  )

  append_link-Appended :
      (name base output n : Text) (o : Option Url)
      → n ≡ codes "href"
      → allowed_attribute name n ≡ true
      → ((u : Url) → o ≡ some u → IsApproved u)
      → Appended name base output
      → Appended name base (append_link urls output n o)
  append_link-Appended name base output n none h allowed good a = a
  append_link-Appended name base output n (some url) h allowed good a =
      elim (Bool-cases (has_provider_signature url)) [
        | inl signed ↦ rw signed a
        | inr plain ↦ rw plain (
            append_attribute-Appended name base output n (urls.as_str url)
              (linked url h (href_of_a name n h allowed) (good url refl) plain refl
                (escape-IsQuoted (urls.as_str url)))
              a)
      ]

  append_one-Appended :
      (name base output : Text) (a : Text × Text)
      → Appended name base output
      → Appended name base (append_one urls name output a)
  unfolding append_one
  append_one-Appended name base output (n, v) h =
      elim (Bool-cases (text_eq n (codes "src") || starts_with n (codes "data-"))) [
        | inl source ↦ rw source h
        | inr rest ↦ elim (Bool-cases (allowed_attribute name n)) [
          | inr refused ↦ rw (rest, refused) h
          | inl allowed ↦ elim (Bool-cases (text_eq n (codes "href"))) [
            | inl link ↦
                rw (rest, allowed, link)
                  (append_link-Appended name base output n (approved_http_url urls v false)
                    ((text_eq_iff n (codes "href")).0 link) allowed
                    (λ u e. approved_http_url-IsApproved v false u e) h)
            | inr other ↦
                rw (rest, allowed, other)
                  (append_attribute-Appended name base output n v
                    (ordinary allowed (λ e. ground (arith, text_eq_iff n (codes "href")))
                      (escape-IsQuoted v))
                    h)
          ]
        ]
      ]

  append_each-Appended :
      (name base output : Text) (attrs : List (Text × Text))
      → Appended name base output
      → Appended name base (append_each urls name output attrs)
  unfolding append_each
  append_each-Appended name base output [] h = h
  append_each-Appended name base output (a ∷ attrs) h =
      append_each-Appended name base (append_one urls name output a) attrs
        (append_one-Appended name base output a h)

  pub append_attributes-unsourced :
      (name base : Text) (attrs : List (Text × Text))
      → Appended name base (append_attributes urls name attrs none base)
  unfolding append_attributes
  append_attributes-unsourced name base attrs =
      append_each-Appended name base base attrs ([], sym (append-nil base), no_attributes)

  pub append_attributes-sourced :
      (name base : Text) (attrs : List (Text × Text)) (source : Url)
      → name ≡ codes "img"
      → IsApproved source
      → has_provider_signature source ≡ false
      → Appended name base (append_attributes urls name attrs (some source) base)
  unfolding append_attributes
  append_attributes-sourced name base attrs source image good plain =
      append_attribute-Appended name base (append_each urls name base attrs) (codes "src")
        (urls.as_str source)
        (sourced source refl image good plain refl (escape-IsQuoted (urls.as_str source)))
        (append_each-Appended name base base attrs ([], sym (append-nil base), no_attributes))
