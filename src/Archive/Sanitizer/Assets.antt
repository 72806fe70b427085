-- ===== src/Archive/Sanitizer/Assets.antt =====
-- The external assets that sanitizing collects, src/archive/sanitizer.rs.
use werrss.Common.{
  ◌≡◌, refl, sym, subst, ◌≢◌, true, false, Option, none, some, List, [], ◌∷◌, ◌++◌, All, All-map,
  Text, codes, text_eq, text_eq_iff, ltb, Bool-cases, inl, inr, arith,
}
use werrss.Domain.UrlPolicy.{Url, has_provider_signature, any}
use werrss.Archive.Sanitizer.{
  contains, Node, element, text, other, Edge, open_edge, close_edge, Renderer, is_safe, is_dropped,
}
use werrss.Archive.Sanitizer.Rendering.{
  Urls, image_source, note_asset, open_image, render_open_element, open_node, close_node,
  render_edge, render_edges,
}
use werrss.Archive.Sanitizer.Trees.{Tree, tree_edges, sanitize, fresh_renderer}
use werrss.Archive.Sanitizer.Markup.{IsApproved}
use werrss.Archive.Sanitizer.Documents.{image_source-IsApproved}

-- No two URLs have the same serialization.
abbrev pub Unique : (Url → Text) → List Url → Type 0
Unique as_str [] = Unit
Unique as_str (u ∷ us) = All (λ v. as_str v ≢ as_str u) us × Unique as_str us

All-snoc {κ} :
    (P : Url → Type κ) (us : List Url) (u : Url) → All P us → P u → All P (us ++ (u ∷ []))
All-snoc P [] u a p = (p, tt)
All-snoc P (v ∷ us) u a p = (a.0, All-snoc P us u a.1 p)

Unique-snoc :
    (as_str : Url → Text) (us : List Url) (u : Url)
    → Unique as_str us
    → All (λ v. as_str u ≢ as_str v) us
    → Unique as_str (us ++ (u ∷ []))
Unique-snoc as_str [] u n a = (tt, tt)
Unique-snoc as_str (v ∷ us) u n a =
    (All-snoc (λ w. as_str w ≢ as_str v) us u n.0 a.0, Unique-snoc as_str us u n.1 a.1)

contains-more :
    (seen : List Text) (t u : Text) → contains seen u ≡ true → contains (t ∷ seen) u ≡ true
unfolding contains any
contains-more seen t u h = ground arith

contains-first : (seen : List Text) (t : Text) → contains (t ∷ seen) t ≡ true
unfolding contains any
contains-first seen t = ground (arith, text_eq_iff t t)

contains-different :
    (seen : List Text) (t u : Text) → contains seen u ≡ true → contains seen t ≡ false → t ≢ u
contains-different seen t u h k =
    λ same. let e = subst (λ x. contains seen x ≡ false) same k in ground arith

module _ (urls : Urls) where
  -- The collected URLs are approved, recorded as seen, and no two are the same.
  record Collected (r : Renderer) : Type 0 where
    approved : All IsApproved r.external_assets
    seen : All (λ u. contains r.seen_assets (urls.as_str u) ≡ true) r.external_assets
    unique : Unique urls.as_str r.external_assets

  -- A change of the text or the depth leaves the collection.
  same-Collected :
      (r s : Renderer)
      → s.external_assets ≡ r.external_assets
      → s.seen_assets ≡ r.seen_assets
      → Collected r
      → Collected s
  same-Collected r s same_assets same_seen c = record {
    approved = subst (All IsApproved) (sym same_assets) c.approved;
    seen =
        subst (λ x. All (λ u. contains s.seen_assets (urls.as_str u) ≡ true) x) (sym same_assets)
          (subst (λ x. All (λ u. contains x (urls.as_str u) ≡ true) r.external_assets)
            (sym same_seen) c.seen);
    unique = subst (Unique urls.as_str) (sym same_assets) c.unique;
  }

  note_asset-Collected :
      (source : Url) (r : Renderer)
      → IsApproved source
      → Collected r
      → Collected (note_asset urls source r)
  unfolding note_asset
  note_asset-Collected source r good c =
      let id = urls.as_str source in
      elim (Bool-cases (contains r.seen_assets id)) [
        | inl old ↦ rw (old, note_asset) c
        | inr new ↦
            rw (new, note_asset)
              (record {
                approved = All-snoc IsApproved r.external_assets source c.approved good;
                seen =
                    All-snoc (λ u. contains (id ∷ r.seen_assets) (urls.as_str u) ≡ true)
                      r.external_assets source
                      (All-map (λ u. contains r.seen_assets (urls.as_str u) ≡ true)
                        (λ u. contains (id ∷ r.seen_assets) (urls.as_str u) ≡ true)
                        (λ u h. contains-more r.seen_assets id (urls.as_str u) h) r.external_assets
                        c.seen)
                      (contains-first r.seen_assets id);
                unique = Unique-snoc urls.as_str r.external_assets source c.unique (
                    All-map (λ u. contains r.seen_assets (urls.as_str u) ≡ true)
                      (λ u. id ≢ urls.as_str u)
                      (λ u h. contains-different r.seen_assets id (urls.as_str u) h new)
                      r.external_assets c.seen);
              })
      ]

  open_image-Collected :
      (name : Text) (attrs : List (Text × Text)) (o : Option Url) (r : Renderer)
      → ((u : Url) → o ≡ some u → IsApproved u)
      → Collected r
      → Collected (open_image urls name attrs o r)
  unfolding open_image
  open_image-Collected name attrs none r good c = same-Collected r _ refl refl c
  open_image-Collected name attrs (some source) r good c =
      let noted = note_asset-Collected source r (good source refl) c in
      elim (Bool-cases (has_provider_signature source)) [
        | inl signed ↦
            rw (signed, open_image) (same-Collected (note_asset urls source r) _ refl refl noted)
        | inr plain ↦
            rw (plain, open_image) (same-Collected (note_asset urls source r) _ refl refl noted)
      ]

  render_open_element-Collected :
      (name : Text) (attrs : List (Text × Text)) (r : Renderer)
      → Collected r
      → Collected (render_open_element urls name attrs r)
  unfolding render_open_element
  render_open_element-Collected name attrs r c = elim (Bool-cases (text_eq name (codes "img"))) [
    | inl image ↦
        rw (image, render_open_element)
          (open_image-Collected name attrs (image_source urls attrs) r
            (λ u e. image_source-IsApproved urls attrs u e) c)
    | inr plain ↦ rw (plain, render_open_element) (same-Collected r _ refl refl c)
  ]

  open_node-Collected : (n : Node) (r : Renderer) → Collected r → Collected (open_node urls n r)
  unfolding open_node
  open_node-Collected other r c = c
  open_node-Collected (text value) r c = same-Collected r _ refl refl c
  open_node-Collected (element name attrs) r c = elim (Bool-cases (is_dropped name)) [
    | inl dropped ↦ rw (dropped, open_node) (same-Collected r _ refl refl c)
    | inr kept ↦ elim (Bool-cases (is_safe name)) [
      | inl safe ↦ rw (kept, safe, open_node) (render_open_element-Collected name attrs r c)
      | inr unsafe ↦ rw (kept, unsafe, open_node) c
    ]
  ]

  close_node-assets :
      (n : Node) (r : Renderer)
      → ((close_node urls n r).external_assets ≡ r.external_assets)
        × ((close_node urls n r).seen_assets ≡ r.seen_assets)
  unfolding close_node
  close_node-assets other r = (refl, refl)
  close_node-assets (text value) r = (refl, refl)
  close_node-assets (element name attrs) r = (ground arith, ground arith)

  close_node-Collected : (n : Node) (r : Renderer) → Collected r → Collected (close_node urls n r)
  unfolding close_node
  close_node-Collected n r c =
      same-Collected r _ (close_node-assets n r).0 (close_node-assets n r).1 c

  render_edge-Collected : (e : Edge) (r : Renderer) → Collected r → Collected (render_edge urls e r)
  unfolding render_edge
  render_edge-Collected (open_edge n) r c = elim (Bool-cases (ltb 0 r.omitted_depth)) [
    | inl omitted ↦ rw (omitted, render_edge) (same-Collected r _ refl refl c)
    | inr shown ↦ rw (shown, render_edge) (open_node-Collected n r c)
  ]
  render_edge-Collected (close_edge n) r c = elim (Bool-cases (ltb 0 r.omitted_depth)) [
    | inl omitted ↦ rw (omitted, render_edge) (same-Collected r _ refl refl c)
    | inr shown ↦ rw (shown, render_edge) (close_node-Collected n r c)
  ]

  render_edges-Collected :
      (es : List Edge) (r : Renderer) → Collected r → Collected (render_edges urls es r)
  unfolding render_edges
  render_edges-Collected [] r c = c
  render_edges-Collected (e ∷ es) r c =
      render_edges-Collected es (render_edge urls e r) (render_edge-Collected e r c)

  -- Every external asset is an absolute HTTP(S) URL without credentials, and none is listed twice.
  pub sanitize-assets :
      (root : Tree)
      → All IsApproved (sanitize urls root).external_assets
        × Unique urls.as_str (sanitize urls root).external_assets
  unfolding sanitize
  sanitize-assets root =
      let c =
        render_edges-Collected (tree_edges root) fresh_renderer
          (record { approved = tt; seen = tt; unique = tt }) in
      (c.approved, c.unique)
