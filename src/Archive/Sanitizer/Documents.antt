-- ===== src/Archive/Sanitizer/Documents.antt =====
-- What sanitizing makes of a tree, src/archive/sanitizer.rs.
use werrss.Common.{
  ◌≡◌, refl, sym, ap, ◌∙◌, subst, inl, inr, true, false, Option, none, some, List, [], ◌++◌, Text,
  codes, text_eq, text_eq_iff, if◌then◌else◌, Bool-cases, arith,
}
use mathlib.Core.List.{append_assoc, append-nil}
use werrss.Domain.UrlPolicy.{Url, has_provider_signature}
use werrss.Archive.Sanitizer.{
  is_safe, is_dropped, is_void, element, text, other, Renderer, append_text, contains,
}
use werrss.Archive.Sanitizer.Rendering.{
  Urls, image_source, note_asset, open_image, render_open_element, close_node,
}
use werrss.Archive.Sanitizer.Trees.{
  Tree, Forest, node, leaf, grow, render_image, render_element, render_tree, render_forest,
  sanitize, fresh_renderer,
}
use werrss.Archive.Sanitizer.Traversal.{sanitize-render_tree}
use werrss.Archive.Sanitizer.Escaping.{escape, escape-IsPlain, append_escaped-escape}
use werrss.Archive.Sanitizer.Markup.{
  IsApproved, IsAttributes, IsHtml, nothing, plain_text, sequence, void_tag, around,
}
use werrss.Archive.Sanitizer.Attributes.{
  append_attributes-unsourced, append_attributes-sourced, first_approved-IsApproved,
}

-- A tag as it is written, and as one piece.
tag_written :
    (out html base name attrs end : Text)
    → html ≡ base
    → out ≡ (html ++ (codes "<" ++ name)) ++ attrs
    → out ++ end ≡ base ++ (codes "<" ++ (name ++ (attrs ++ end)))
tag_written out html base name attrs end same written = rw (written, same) (simp append_assoc refl)

module _ (urls : Urls) where
  -- Only sanitized HTML was written between the two states.
  abbrev Extends : Renderer → Renderer → Type 0
  Extends r s = (h : Text) × (s.html ≡ r.html ++ h) × IsHtml urls h

  Extends-none : (r : Renderer) → Extends r r
  Extends-none r = ([], sym (append-nil r.html), nothing)

  Extends-then : (r s t : Renderer) → Extends r s → Extends s t → Extends r t
  Extends-then r s t (a, first, good) (b, second, fine) =
      (a ++ b, second ∙ (ap (λ x. x ++ b) first ∙ append_assoc r.html a b), sequence a b good fine)

  note_asset-html : (source : Url) (r : Renderer) → (note_asset urls source r).html ≡ r.html
  unfolding note_asset
  note_asset-html source r = ground arith

  text-Extends :
      (value : Text) (r : Renderer) → Extends r (record r { html = append_text r.html value })
  unfolding append_text
  text-Extends value r = (
    escape false value,
    append_escaped-escape r.html false value,
    plain_text (escape false value) (escape-IsPlain value),
  )

  -- What is asked of the children.
  abbrev Writes : (Renderer → Renderer) → Type 0
  Writes c = (r : Renderer) → Extends r (c r)

  open_image-Extends :
      (name : Text) (attrs : List (Text × Text)) (source : Url) (r : Renderer)
      → is_safe name ≡ true
      → is_dropped name ≡ false
      → is_void name ≡ true
      → name ≡ codes "img"
      → IsApproved source
      → has_provider_signature source ≡ false
      → Extends r (open_image urls name attrs (some source) r)
  unfolding open_image
  open_image-Extends name attrs source r s d v image good plain =
      let same = note_asset-html source r in
      let (written, out, fine) =
        append_attributes-sourced urls name ((note_asset urls source r).html ++ (codes "<" ++ name))
          attrs source image good plain in
      rw (plain, open_image)
        (
          codes "<" ++ (name ++ (written ++ codes " />")),
          tag_written _ (note_asset urls source r).html r.html name written (codes " />") same out,
          void_tag name written s d v fine,
        )

  render_image-Extends :
      (name : Text) (attrs : List (Text × Text)) (c : Renderer → Renderer) (o : Option Url)
      (r : Renderer)
      → Writes c
      → is_safe name ≡ true
      → is_dropped name ≡ false
      → is_void name ≡ true
      → name ≡ codes "img"
      → ((u : Url) → o ≡ some u → IsApproved u)
      → Extends r (render_image urls name attrs c o r)
  render_image-Extends name attrs c none r w s d v image good = Extends-none r
  render_image-Extends name attrs c (some source) r w s d v image good =
      elim (Bool-cases (has_provider_signature source)) [
        | inl signed ↦ rw signed ([], note_asset-html source r ∙ sym (append-nil r.html), nothing)
        | inr plain ↦
            let opened = open_image urls name attrs (some source) r in
            rw plain (
              Extends-then r opened (c opened)
                (open_image-Extends name attrs source r s d v image (good source refl) plain)
                (w opened))
      ]

  -- An element that is no image.
  render_open_element-html :
      (name : Text) (attrs : List (Text × Text)) (r : Renderer)
      → text_eq name (codes "img") ≡ false
      → (written : Text) × ((render_open_element urls name attrs r).html
          ≡ r.html
            ++ (codes "<"
                ++ (name ++ (written ++ (if is_void name then codes " />" else codes ">")))))
        × IsAttributes urls name written
  unfolding render_open_element
  render_open_element-html name attrs r other_name =
      let (written, out, fine) =
        append_attributes-unsourced urls name (r.html ++ (codes "<" ++ name)) attrs in
      rw (other_name, render_open_element)
        (
          written,
          tag_written _ r.html r.html name written (if is_void name then codes " />" else codes ">")
              refl out,
          fine,
        )

  closed-Extends :
      (name : Text) (attrs : List (Text × Text)) (c : Renderer → Renderer) (r : Renderer)
      → Writes c
      → is_safe name ≡ true
      → is_dropped name ≡ false
      → text_eq name (codes "img") ≡ false
      → Extends r (close_node urls (element name attrs) (c (render_open_element urls name attrs r)))
  unfolding close_node
  closed-Extends name attrs c r w s d other_name =
      let opened = render_open_element urls name attrs r in
      let (written, out, fine) = render_open_element-html name attrs r other_name in
      let (inner, grown, html) = w opened in
      elim (Bool-cases (is_void name)) [
        | inl void ↦
            let tag = codes "<" ++ (name ++ (written ++ codes " />")) in
            let out_void : opened.html ≡ r.html ++ tag = out ∙ rw void refl in
            rw (s, void, close_node)
              (
                tag ++ inner,
                grown ∙ (ap (λ x. x ++ inner) out_void ∙ append_assoc r.html tag inner),
                sequence tag inner (void_tag name written s d void fine) html,
              )
        | inr holds ↦
            let tag = codes "<" ++ (name ++ (written ++ codes ">")) in
            let close = codes "</" ++ (name ++ codes ">") in
            let out_open : opened.html ≡ r.html ++ tag = out ∙ rw holds refl in
            rw (s, holds, close_node)
              (
                tag ++ (inner ++ close),
                ap (λ x. x ++ close) grown
                    ∙ (append_assoc opened.html inner close
                        ∙ (ap (λ x. x ++ (inner ++ close)) out_open
                            ∙ append_assoc r.html tag (inner ++ close))),
                around name written inner s d holds fine html,
              )
      ]

  pub image_source-IsApproved :
      (attrs : List (Text × Text)) (u : Url) → image_source urls attrs ≡ some u → IsApproved u
  unfolding image_source
  image_source-IsApproved attrs u h = first_approved-IsApproved urls _ attrs u h

  image_facts :
      (name : Text)
      → text_eq name (codes "img") ≡ true
      → (name ≡ codes "img") × (is_void name ≡ true)
  unfolding is_void contains werrss.Domain.UrlPolicy.any text_eq
  image_facts name h =
      let same = (text_eq_iff name (codes "img")).0 h in
      (same, subst (λ n. is_void n ≡ true) (sym same) refl)

  render_element-Extends :
      (name : Text) (attrs : List (Text × Text)) (c : Renderer → Renderer) (r : Renderer)
      → Writes c
      → Extends r (render_element urls name attrs c r)
  unfolding render_element
  render_element-Extends name attrs c r w = elim (Bool-cases (is_dropped name)) [
    | inl dropped ↦ rw (dropped, render_element) (Extends-none r)
    | inr kept ↦ elim (Bool-cases (is_safe name)) [
      | inr unsafe ↦ rw (kept, unsafe, render_element) (w r)
      | inl safe ↦ elim (Bool-cases (text_eq name (codes "img"))) [
        | inl image ↦
            let (same, void) = image_facts name image in
            rw (kept, safe, image, render_element)
              (render_image-Extends name attrs c (image_source urls attrs) r w safe kept void same
                (λ u e. image_source-IsApproved attrs u e))
        | inr plain ↦
            rw (kept, safe, plain, render_element) (closed-Extends name attrs c r w safe kept plain)
      ]
    ]
  ]

  mutual
    unfolding render_tree

    tree-Extends : (t : Tree) (r : Renderer) → Extends r (render_tree urls t r)
    tree-Extends (node other children) r = forest-Extends children r
    tree-Extends (node (text value) children) r =
        let after = record r { html = append_text r.html value } in
        Extends-then r after (render_forest urls children after) (text-Extends value r)
          (forest-Extends children after)
    tree-Extends (node (element name attrs) children) r =
        render_element-Extends name attrs (λ x. render_forest urls children x) r
          (λ x. forest-Extends children x)

    forest-Extends : (ts : Forest) (r : Renderer) → Extends r (render_forest urls ts r)
    forest-Extends leaf r = Extends-none r
    forest-Extends (grow t ts) r =
        let after = render_tree urls t r in
        Extends-then r after (render_forest urls ts after) (tree-Extends t r)
          (forest-Extends ts after)

-- Whatever tree the parser makes, the HTML that is left is plain escaped text and safe elements,
-- closed where they are not void, with allowed attributes whose values are escaped. Links and image
-- sources are absolute HTTP(S) URLs without credentials or a provider's signature.
pub sanitize-IsHtml : (urls : Urls) (root : Tree) → IsHtml urls (sanitize urls root).html
sanitize-IsHtml urls root =
    let (h, same, good) = tree-Extends urls root fresh_renderer in
    subst (λ x. IsHtml urls x.html) (sym (sanitize-render_tree urls root).0)
      (subst (IsHtml urls) (sym same) good)
