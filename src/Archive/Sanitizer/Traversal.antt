-- ===== src/Archive/Sanitizer/Traversal.antt =====
-- Rendering the edges of a tree and recursion on the tree, src/archive/sanitizer.rs.
use werrss.Common.{
  ◌≡◌, refl, sym, ap, ◌∙◌, subst, true, false, not, ◌&&◌, Option, none, some, List, Text, codes,
  text_eq, text_eq_iff, Bool-cases, inl, inr, arith,
}
use werrss.Domain.UrlPolicy.{Url, has_provider_signature}
use werrss.Archive.Sanitizer.{
  is_safe, is_dropped, is_void, element, text, other, Edge, Renderer, append_text, contains,
}
use werrss.Archive.Sanitizer.Rendering.{
  Urls, image_source, note_asset, open_image, render_open_element, open_node, close_node,
  render_edges,
}
use werrss.Archive.Sanitizer.Trees.{
  Tree, Forest, node, leaf, grow, tree_edges, forest_edges, render_image, render_element,
  render_tree, render_forest, sanitize, fresh_renderer,
}
use werrss.Archive.Sanitizer.Edges.{
  forest_omitted, IsOpen, Children, omitted, whole, render_edges-leaf, render_edges-grow,
  render_edges-tree, note_asset-IsOpen, whole_shown, whole_hidden, close_node-IsOpen,
}

module _ (urls : Urls) where
  -- An element that is not safe, or void, has no closing tag.
  close_node_silent :
      (name : Text) (attrs : List (Text × Text)) (r : Renderer)
      → (is_safe name && not (is_void name)) ≡ false
      → close_node urls (element name attrs) r ≡ r
  unfolding close_node
  close_node_silent name attrs r h = rw (h, close_node) refl

  img_void : (name : Text) → text_eq name (codes "img") ≡ true → is_void name ≡ true
  unfolding is_void contains werrss.Domain.UrlPolicy.any text_eq
  img_void name h = subst (λ n. is_void n ≡ true) (sym ((text_eq_iff name (codes "img")).0 h)) refl

  open_image-IsOpen :
      (name : Text) (attrs : List (Text × Text)) (source : Url) (r : Renderer)
      → has_provider_signature source ≡ false
      → IsOpen urls r
      → IsOpen urls (open_image urls name attrs (some source) r)
  unfolding open_image
  open_image-IsOpen name attrs source r plain h =
      rw (plain, open_image) (note_asset-IsOpen urls source r h)

  open_image-signed :
      (name : Text) (attrs : List (Text × Text)) (source : Url) (r : Renderer)
      → has_provider_signature source ≡ true
      → open_image urls name attrs (some source) r ≡ omitted urls (note_asset urls source r)
  unfolding open_image
  open_image-signed name attrs source r signed = rw (signed, open_image) refl

  open_image-unsourced :
      (name : Text) (attrs : List (Text × Text)) (r : Renderer)
      → open_image urls name attrs none r ≡ omitted urls r
  unfolding open_image
  open_image-unsourced name attrs r = refl

  -- An image that is safe and not dropped.
  render_image-whole :
      (edges : List Edge) (c : Renderer → Renderer) (name : Text) (attrs : List (Text × Text))
      (o : Option Url) (r : Renderer)
      → Children urls edges c
      → IsOpen urls r
      → is_void name ≡ true
      → open_node urls (element name attrs) r ≡ open_image urls name attrs o r
      → (whole urls edges (element name attrs) r ≡ render_image urls name attrs c o r)
        × IsOpen urls (render_image urls name attrs c o r)
  render_image-whole edges c name attrs none r children h void opens = (
    whole_hidden urls edges c (element name attrs) r r children h
        (opens ∙ open_image-unsourced name attrs r) h,
    h,
  )
  render_image-whole edges c name attrs (some source) r children h void opens =
      let noted = note_asset-IsOpen urls source r h in
      elim (Bool-cases (has_provider_signature source)) [
        | inl signed ↦ rw signed (
          whole_hidden urls edges c (element name attrs) r (note_asset urls source r) children h
              (opens ∙ open_image-signed name attrs source r signed) noted,
          noted,
        )
        | inr plain ↦
            let shown = open_image-IsOpen name attrs source r plain h in
            let (same, still) =
              whole_shown urls edges c (element name attrs) r
                (open_image urls name attrs (some source) r) children h opens shown in
            let silent =
              close_node_silent name attrs (c (open_image urls name attrs (some source) r))
                (ground arith) in
            rw plain (same ∙ silent, still)
      ]

  open_node-dropped :
      (name : Text) (attrs : List (Text × Text)) (r : Renderer)
      → is_dropped name ≡ true
      → open_node urls (element name attrs) r ≡ omitted urls r
  unfolding open_node
  open_node-dropped name attrs r d = rw (d, open_node) refl

  open_node-unsafe :
      (name : Text) (attrs : List (Text × Text)) (r : Renderer)
      → is_dropped name ≡ false
      → is_safe name ≡ false
      → open_node urls (element name attrs) r ≡ r
  unfolding open_node
  open_node-unsafe name attrs r d s = rw (d, s, open_node) refl

  open_node-safe :
      (name : Text) (attrs : List (Text × Text)) (r : Renderer)
      → is_dropped name ≡ false
      → is_safe name ≡ true
      → open_node urls (element name attrs) r ≡ render_open_element urls name attrs r
  unfolding open_node
  open_node-safe name attrs r d s = rw (d, s, open_node) refl

  render_open_element-image :
      (name : Text) (attrs : List (Text × Text)) (r : Renderer)
      → text_eq name (codes "img") ≡ true
      → render_open_element urls name attrs r
        ≡ open_image urls name attrs (image_source urls attrs) r
  unfolding render_open_element
  render_open_element-image name attrs r i = rw (i, render_open_element) refl

  render_open_element-IsOpen :
      (name : Text) (attrs : List (Text × Text)) (r : Renderer)
      → text_eq name (codes "img") ≡ false
      → IsOpen urls r
      → IsOpen urls (render_open_element urls name attrs r)
  unfolding render_open_element
  render_open_element-IsOpen name attrs r i h = rw (i, render_open_element) h

  render_element-whole :
      (edges : List Edge) (c : Renderer → Renderer) (name : Text) (attrs : List (Text × Text))
      (r : Renderer)
      → Children urls edges c
      → IsOpen urls r
      → (whole urls edges (element name attrs) r ≡ render_element urls name attrs c r)
        × IsOpen urls (render_element urls name attrs c r)
  unfolding render_element
  render_element-whole edges c name attrs r children h = elim (Bool-cases (is_dropped name)) [
    | inl dropped ↦
        rw (dropped, render_element)
          (
            whole_hidden urls edges c (element name attrs) r r children h
                (open_node-dropped name attrs r dropped) h,
            h,
          )
    | inr kept ↦ elim (Bool-cases (is_safe name)) [
      | inr unsafe ↦
          let (same, still) =
            whole_shown urls edges c (element name attrs) r r children h
              (open_node-unsafe name attrs r kept unsafe) h in
          rw (kept, unsafe, render_element)
            (same ∙ close_node_silent name attrs (c r) (ground arith), still)
      | inl safe ↦ elim (Bool-cases (text_eq name (codes "img"))) [
        | inl image ↦
            rw (kept, safe, image, render_element)
              (render_image-whole edges c name attrs (image_source urls attrs) r children h
                (img_void name image)
                (open_node-safe name attrs r kept safe
                  ∙ render_open_element-image name attrs r image))
        | inr plain ↦
            let (same, still) =
              whole_shown urls edges c (element name attrs) r
                (render_open_element urls name attrs r) children h
                (open_node-safe name attrs r kept safe)
                (render_open_element-IsOpen name attrs r plain h) in
            rw (kept, safe, plain, render_element)
              (same, close_node-IsOpen urls (element name attrs) _ still)
      ]
    ]
  ]

  -- Texts and the other nodes have no edges of their own to show.
  open_node-other : (r : Renderer) → open_node urls other r ≡ r
  unfolding open_node
  open_node-other r = refl

  close_node-other : (r : Renderer) → close_node urls other r ≡ r
  unfolding close_node
  close_node-other r = refl

  open_node-text :
      (value : Text) (r : Renderer)
      → open_node urls (text value) r ≡ record r { html = append_text r.html value }
  unfolding open_node
  open_node-text value r = refl

  close_node-text : (value : Text) (r : Renderer) → close_node urls (text value) r ≡ r
  unfolding close_node
  close_node-text value r = refl

  mutual
    unfolding render_tree

    tree_shown :
        (t : Tree) (r : Renderer)
        → IsOpen urls r
        → (render_edges urls (tree_edges t) r ≡ render_tree urls t r)
          × IsOpen urls (render_tree urls t r)
    tree_shown (node other children) r h =
        let (same, still) =
          whole_shown urls (forest_edges children) (λ x. render_forest urls children x) other r r
            (record {
              shown = λ x k. forest_shown children x k;
              hidden = λ x k. forest_omitted urls children x k;
            })
            h (open_node-other r) h in
        (render_edges-tree urls other children r ∙ (same ∙ close_node-other _), still)
    tree_shown (node (text value) children) r h =
        let (same, still) =
          whole_shown urls (forest_edges children) (λ x. render_forest urls children x) (text value)
            r (record r { html = append_text r.html value })
            (record {
              shown = λ x k. forest_shown children x k;
              hidden = λ x k. forest_omitted urls children x k;
            })
            h (open_node-text value r) h in
        (render_edges-tree urls (text value) children r ∙ (same ∙ close_node-text value _), still)
    tree_shown (node (element name attrs) children) r h =
        let (same, still) =
          render_element-whole (forest_edges children) (λ x. render_forest urls children x) name
            attrs r
            (record {
              shown = λ x k. forest_shown children x k;
              hidden = λ x k. forest_omitted urls children x k;
            })
            h in
        (render_edges-tree urls (element name attrs) children r ∙ same, still)

    forest_shown :
        (ts : Forest) (r : Renderer)
        → IsOpen urls r
        → (render_edges urls (forest_edges ts) r ≡ render_forest urls ts r)
          × IsOpen urls (render_forest urls ts r)
    forest_shown leaf r h = (render_edges-leaf urls r, h)
    forest_shown (grow t ts) r h =
        let (same, still) = tree_shown t r h in
        let (rest, end) = forest_shown ts (render_tree urls t r) still in
        (
          render_edges-grow urls t ts r ∙ (ap (render_edges urls (forest_edges ts)) same ∙ rest),
          end,
        )

  -- Sanitizing, which counts omitted urls levels along the edges of the tree, gives what recursion on the
  -- tree gives, and ends outside of every omitted urls node.
  pub sanitize-render_tree :
      (root : Tree)
      → let r = render_tree urls root fresh_renderer in
        (sanitize urls root ≡ record { html = r.html; external_assets = r.external_assets })
        × ((render_edges urls (tree_edges root) fresh_renderer).omitted_depth ≡ 0)
  unfolding sanitize
  sanitize-render_tree root =
      let (same, still) = tree_shown root fresh_renderer refl in
      (
        ap (λ x. record { html = x.html; external_assets = x.external_assets }) same,
        ap (λ x. x.omitted_depth) same ∙ still,
      )
