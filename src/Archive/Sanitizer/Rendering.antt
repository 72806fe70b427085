-- ===== src/Archive/Sanitizer/Rendering.antt =====
-- The renderer of src/archive/sanitizer.rs, over the edges of a tree.
use werrss.Common.{
  ◌+◌, ◌-◌, Bool, true, false, not, ◌&&◌, ◌||◌, Option, none, some, List, [], ◌∷◌, ◌++◌, Text,
  codes, text_eq, trim, ltb, if◌then◌else◌,
}
use werrss.Domain.UrlPolicy.{Url, has_provider_signature}
use werrss.Archive.Sanitizer.{
  contains, is_safe, is_dropped, is_void, Node, element, text, other, Edge, open_edge, close_edge,
  Renderer, append_text, append_attribute, allowed_attribute, starts_with,
  authority_contains_userinfo, approved, bind_url, attr,
}

-- The parser and the serialization of the `url` crate.
pub record Urls : Type 0 where
  pub parse : Text → Option Url
  pub as_str : Url → Text

module _ (urls : Urls) where
  unfoldable pub approved_http_url : Text → Bool → Option Url
  approved_http_url value strip_fragment =
      if authority_contains_userinfo (trim value)
      then none
      else bind_url (urls.parse (trim value)) (approved strip_fragment)

  -- The first of the attributes whose value is approved.
  unfoldable pub first_approved : List Text → List (Text × Text) → Option Url
  first_approved [] attrs = none
  first_approved (attribute ∷ attributes) attrs =
      let rest = first_approved attributes attrs in
      elim (attr attribute attrs) [
        | none ↦ rest
        | some value ↦ elim (approved_http_url value true) [ none ↦ rest | some url ↦ some url ]
      ]

  unfoldable pub image_source : List (Text × Text) → Option Url
  image_source attrs =
      first_approved
        (codes "data-src" ∷ codes "data-original" ∷ codes "data-lazy-src" ∷ codes "src" ∷ []) attrs

  abbrev pub append_link : Text → Text → Option Url → Text
  append_link output attribute none = output
  append_link output attribute (some url) =
      if has_provider_signature url
      then output
      else append_attribute output attribute (urls.as_str url)

  -- One round of the loop over the attributes of an element.
  unfoldable pub append_one : Text → Text → Text × Text → Text
  append_one name output (attribute, value) =
      if text_eq attribute (codes "src") || starts_with attribute (codes "data-")
      then output
      else if not (allowed_attribute name attribute)
      then output
      else if text_eq attribute (codes "href")
      then append_link output attribute (approved_http_url value false)
      else append_attribute output attribute value

  unfoldable pub append_each : Text → Text → List (Text × Text) → Text
  append_each name output [] = output
  append_each name output (a ∷ attrs) = append_each name (append_one name output a) attrs

  unfoldable pub append_attributes : Text → List (Text × Text) → Option Url → Text → Text
  append_attributes name attrs none output = append_each name output attrs
  append_attributes name attrs (some source) output =
      append_attribute (append_each name output attrs) (codes "src") (urls.as_str source)

  -- The set and the list after an image's source.
  unfoldable pub note_asset : Url → Renderer → Renderer
  note_asset source self =
      if contains self.seen_assets (urls.as_str source) then self else record self {
        external_assets = self.external_assets ++ (source ∷ []);
        seen_assets = urls.as_str source ∷ self.seen_assets;
      }

  unfoldable pub open_image : Text → List (Text × Text) → Option Url → Renderer → Renderer
  open_image name attrs none self = record self { omitted_depth = 1 }
  open_image name attrs (some source) self =
      let noted = note_asset source self in
      if has_provider_signature source then record noted { omitted_depth = 1 } else record noted {
        html =
            append_attributes name attrs (some source) (noted.html ++ (codes "<" ++ name))
            ++ codes " />";
      }

  unfoldable pub render_open_element : Text → List (Text × Text) → Renderer → Renderer
  render_open_element name attrs self =
      if text_eq name (codes "img")
      then open_image name attrs (image_source attrs) self
      else record self {
        html =
            append_attributes name attrs none (self.html ++ (codes "<" ++ name))
            ++ (if is_void name then codes " />" else codes ">");
      }

  unfoldable pub open_node : Node → Renderer → Renderer
  open_node other self = self
  open_node (text value) self = record self { html = append_text self.html value }
  open_node (element name attrs) self =
      if is_dropped name
      then record self { omitted_depth = 1 }
      else if is_safe name
      then render_open_element name attrs self
      else self

  unfoldable pub close_node : Node → Renderer → Renderer
  close_node other self = self
  close_node (text value) self = self
  close_node (element name attrs) self =
      if is_safe name && not (is_void name)
      then record self { html = self.html ++ (codes "</" ++ (name ++ codes ">")) }
      else self

  unfoldable pub render_edge : Edge → Renderer → Renderer
  render_edge (open_edge node) self =
      if ltb 0 self.omitted_depth
      then record self { omitted_depth = self.omitted_depth + 1 }
      else open_node node self
  render_edge (close_edge node) self =
      if ltb 0 self.omitted_depth
      then record self { omitted_depth = self.omitted_depth - 1 }
      else close_node node self

  unfoldable pub render_edges : List Edge → Renderer → Renderer
  render_edges [] self = self
  render_edges (edge ∷ edges) self = render_edges edges (render_edge edge self)
