-- ===== src/Archive/Sanitizer/Trees.antt =====
-- Trees of nodes, `sanitize`, and rendering by recursion on the tree, src/archive/sanitizer.rs.
use werrss.Common.{
  not, Option, none, some, List, [], ◌∷◌, ◌++◌, Text, codes, text_eq, if◌then◌else◌,
}
use werrss.Domain.UrlPolicy.{Url, has_provider_signature}
use werrss.Archive.Sanitizer.{
  is_safe, is_dropped, Node, element, text, other, Edge, open_edge, close_edge, Renderer,
  append_text,
}
use werrss.Archive.Sanitizer.Rendering.{
  Urls, image_source, note_asset, open_image, render_open_element, close_node, render_edges,
}

mutual
  pub data Tree : Type 0 where
    node : Node → Forest → Tree

  pub data Forest : Type 0 where
    leaf : Forest
    grow : Tree → Forest → Forest

-- `traverse`: a node opens, its children follow, and it closes.
unfoldable mutual
  pub tree_edges : Tree → List Edge
  tree_edges (node n children) = open_edge n ∷ (forest_edges children ++ (close_edge n ∷ []))

  pub forest_edges : Forest → List Edge
  forest_edges leaf = []
  forest_edges (grow t ts) = tree_edges t ++ forest_edges ts

abbrev pub fresh_renderer : Renderer
fresh_renderer = record { html = []; external_assets = []; seen_assets = []; omitted_depth = 0 }

pub record SanitizedHtml : Type 0 where
  pub html : Text
  pub external_assets : List Url

module _ (urls : Urls) where
  unfoldable pub sanitize : Tree → SanitizedHtml
  sanitize root =
      let renderer = render_edges urls (tree_edges root) fresh_renderer in
      record { html = renderer.html; external_assets = renderer.external_assets }

  -- The same by recursion on the tree, without a count of omitted levels: a dropped element, an
  -- image without an approved source and a signed image give nothing of themselves or of what is
  -- in them.
  abbrev pub render_image :
      Text → List (Text × Text) → (Renderer → Renderer) → Option Url → Renderer → Renderer
  render_image name attrs children none r = r
  render_image name attrs children (some source) r =
      if has_provider_signature source
      then note_asset urls source r
      else children (open_image urls name attrs (some source) r)

  unfoldable pub render_element :
      Text → List (Text × Text) → (Renderer → Renderer) → Renderer → Renderer
  render_element name attrs children r =
      if is_dropped name
      then r
      else if not (is_safe name)
      then children r
      else if text_eq name (codes "img")
      then render_image name attrs children (image_source urls attrs) r
      else close_node urls (element name attrs) (children (render_open_element urls name attrs r))

  unfoldable mutual
    pub render_tree : Tree → Renderer → Renderer
    render_tree (node other children) r = render_forest children r
    render_tree (node (text value) children) r =
        render_forest children (record r { html = append_text r.html value })
    render_tree (node (element name attrs) children) r =
        render_element name attrs (λ x. render_forest children x) r

    pub render_forest : Forest → Renderer → Renderer
    render_forest leaf r = r
    render_forest (grow t ts) r = render_forest ts (render_tree t r)
