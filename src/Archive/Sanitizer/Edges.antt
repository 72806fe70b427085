-- ===== src/Archive/Sanitizer/Edges.antt =====
-- Rendering the edges of a tree one after the other, src/archive/sanitizer.rs.
use werrss.Common.{◌<◌, ◌+◌, ◌-◌, ◌≡◌, refl, ap, ◌∙◌, true, false, List, [], ◌∷◌, ◌++◌, ltb, arith}
use werrss.Domain.UrlPolicy.{Url}
use werrss.Archive.Sanitizer.{Node, element, text, other, Edge, open_edge, close_edge, Renderer}
use werrss.Archive.Sanitizer.Rendering.{
  Urls, note_asset, open_node, close_node, render_edge, render_edges,
}
use werrss.Archive.Sanitizer.Trees.{Tree, Forest, node, leaf, grow, tree_edges, forest_edges}

module _ (urls : Urls) where
  render_edges-append :
      (xs ys : List Edge) (r : Renderer)
      → render_edges urls (xs ++ ys) r ≡ render_edges urls ys (render_edges urls xs r)
  unfolding render_edges
  render_edges-append [] ys r = refl
  render_edges-append (x ∷ xs) ys r = render_edges-append xs ys (render_edge urls x r)

  pub render_edges-leaf : (r : Renderer) → render_edges urls (forest_edges leaf) r ≡ r
  unfolding render_edges forest_edges
  render_edges-leaf r = refl

  pub render_edges-grow :
      (t : Tree) (ts : Forest) (r : Renderer)
      → render_edges urls (forest_edges (grow t ts)) r
        ≡ render_edges urls (forest_edges ts) (render_edges urls (tree_edges t) r)
  unfolding forest_edges
  render_edges-grow t ts r = render_edges-append (tree_edges t) (forest_edges ts) r

  -- Within an omitted node.
  abbrev pub IsOmitted : Renderer → Type 0
  IsOmitted r = 0 < r.omitted_depth

  abbrev deeper : Renderer → Renderer
  deeper r = record r { omitted_depth = r.omitted_depth + 1 }

  render_edge-deeper :
      (n : Node) (r : Renderer) → IsOmitted r → render_edge urls (open_edge n) r ≡ deeper r
  unfolding render_edge
  render_edge-deeper n r h =
      let omitted : ltb 0 r.omitted_depth ≡ true = ground arith in rw (omitted, render_edge) refl

  deeper-render_edge : (n : Node) (r : Renderer) → render_edge urls (close_edge n) (deeper r) ≡ r
  unfolding render_edge
  deeper-render_edge n r =
      let omitted : ltb 0 (r.omitted_depth + 1) ≡ true = ground arith in
      let back : r.omitted_depth + 1 - 1 ≡ r.omitted_depth = omega arith in
      rw (omitted, back, render_edge) refl

  -- The edges of a tree are its opening, those of its children, and its closing.
  pub render_edges-tree :
      (n : Node) (children : Forest) (r : Renderer)
      → render_edges urls (tree_edges (node n children)) r
        ≡ render_edge urls
            (close_edge n)
            (render_edges urls (forest_edges children) (render_edge urls (open_edge n) r))
  unfolding render_edges tree_edges
  render_edges-tree n children r =
      render_edges-append (forest_edges children) (close_edge n ∷ [])
        (render_edge urls (open_edge n) r)

  -- Below an omitted node nothing happens.
  mutual
    tree_omitted : (t : Tree) (r : Renderer) → IsOmitted r → render_edges urls (tree_edges t) r ≡ r
    tree_omitted (node n children) r h =
        render_edges-tree n children r
        ∙ (ap (λ x. render_edge urls (close_edge n) (render_edges urls (forest_edges children) x))
              (render_edge-deeper n r h)
            ∙ (ap (render_edge urls (close_edge n))
                  (forest_omitted children (deeper r) (omega arith))
                ∙ deeper-render_edge n r))

    pub forest_omitted :
        (ts : Forest) (r : Renderer) → IsOmitted r → render_edges urls (forest_edges ts) r ≡ r
    forest_omitted leaf r h = render_edges-leaf r
    forest_omitted (grow t ts) r h =
        render_edges-grow t ts r
        ∙ (ap (render_edges urls (forest_edges ts)) (tree_omitted t r h) ∙ forest_omitted ts r h)

  -- Outside of every omitted node.
  abbrev pub IsOpen : Renderer → Type 0
  IsOpen r = r.omitted_depth ≡ 0

  render_edge-open :
      (n : Node) (r : Renderer) → IsOpen r → render_edge urls (open_edge n) r ≡ open_node urls n r
  unfolding render_edge
  render_edge-open n r h =
      let shown : ltb 0 r.omitted_depth ≡ false = ground arith in rw (shown, render_edge) refl

  render_edge-close :
      (n : Node) (r : Renderer) → IsOpen r → render_edge urls (close_edge n) r ≡ close_node urls n r
  unfolding render_edge
  render_edge-close n r h =
      let shown : ltb 0 r.omitted_depth ≡ false = ground arith in rw (shown, render_edge) refl

  abbrev pub omitted : Renderer → Renderer
  omitted r = record r { omitted_depth = 1 }

  render_edge-omitted :
      (n : Node) (r : Renderer) → IsOpen r → render_edge urls (close_edge n) (omitted r) ≡ r
  unfolding render_edge
  render_edge-omitted n r h = ground arith

  pub note_asset-IsOpen :
      (source : Url) (r : Renderer) → IsOpen r → IsOpen (note_asset urls source r)
  unfolding note_asset
  note_asset-IsOpen source r h = ground arith

  -- What is asked of the children: that they render as `c` where they show, and not where they do
  -- not.
  pub record Children (edges : List Edge) (c : Renderer → Renderer) : Type 0 where
    pub shown : (r : Renderer) → IsOpen r → (render_edges urls edges r ≡ c r) × IsOpen (c r)
    pub hidden : (r : Renderer) → IsOmitted r → render_edges urls edges r ≡ r

  abbrev pub whole : List Edge → Node → Renderer → Renderer
  whole edges n r =
      render_edge urls (close_edge n) (render_edges urls edges (render_edge urls (open_edge n) r))

  pub whole_shown :
      (edges : List Edge) (c : Renderer → Renderer) (n : Node) (r o : Renderer)
      → Children edges c
      → IsOpen r
      → open_node urls n r ≡ o
      → IsOpen o
      → (whole edges n r ≡ close_node urls n (c o)) × IsOpen (c o)
  whole_shown edges c n r o children h opens shows =
      let (same, still) = children.shown o shows in
      (
        ap (λ x. render_edge urls (close_edge n) (render_edges urls edges x))
              (render_edge-open n r h ∙ opens)
            ∙ (ap (render_edge urls (close_edge n)) same ∙ render_edge-close n (c o) still),
        still,
      )

  pub whole_hidden :
      (edges : List Edge) (c : Renderer → Renderer) (n : Node) (r x : Renderer)
      → Children edges c
      → IsOpen r
      → open_node urls n r ≡ omitted x
      → IsOpen x
      → whole edges n r ≡ x
  whole_hidden edges c n r x children h opens shows =
      ap (λ y. render_edge urls (close_edge n) (render_edges urls edges y))
        (render_edge-open n r h ∙ opens)
      ∙ (ap (render_edge urls (close_edge n)) (children.hidden (omitted x) (omega arith))
          ∙ render_edge-omitted n x shows)

  pub close_node-IsOpen : (n : Node) (r : Renderer) → IsOpen r → IsOpen (close_node urls n r)
  unfolding close_node
  close_node-IsOpen other r h = h
  close_node-IsOpen (text value) r h = h
  close_node-IsOpen (element name attrs) r h = ground arith
