-- ===== src/Tests/SanitizerRuns.antt =====
-- Runs of the sanitizer, src/archive/sanitizer.rs.
use werrss.Common.{
  ℕ, ◌≡◌, refl, true, false, Option, none, some, List, [], ◌∷◌, All, Text, codes, text_eq,
  if◌then◌else◌,
}
use werrss.Domain.UrlPolicy.{Url, domain}
use werrss.Archive.Sanitizer.{element, text, other, Renderer}
use werrss.Archive.Sanitizer.Rendering.{Urls, render_edges}
use werrss.Archive.Sanitizer.Trees.{
  Tree, node, leaf, grow, tree_edges, sanitize, render_tree, fresh_renderer,
}
use werrss.Archive.Sanitizer.Traversal.{sanitize-render_tree}
use werrss.Archive.Sanitizer.Markup.{IsHtml}
use werrss.Archive.Sanitizer.Documents.{sanitize-IsHtml}

abbrev plain_url : Url
plain_url = record {
  scheme = codes "https";
  username = [];
  password = none;
  host = some (domain (codes "x"));
  port = none;
  query_pairs = [];
  fragment = none;
}

-- One text is a URL here.
abbrev one_url : Urls
one_url = record {
  parse = λ t. if text_eq t (codes "https://x/") then some plain_url else none;
  as_str = λ u. codes "https://x/";
}

abbrev image : Tree
image = node (element (codes "img") ((codes "data-src", codes "https://x/") ∷ [])) leaf

abbrev script : Tree
script = node (element (codes "script") []) (grow (node (text (codes "alert(1)")) leaf) leaf)

abbrev page : Tree
page = node other (
    grow
      (node (element (codes "p") ((codes "onclick", codes "x") ∷ (codes "class", codes "\"c") ∷ []))
        (grow (node (text (codes "a<b")) leaf) (grow image (grow image leaf))))
      (grow script leaf))

-- What is left of the page.
page_html :
    (sanitize one_url page).html
    ≡ codes "<p class=\"&quot;c\">a&lt;b<img src=\"https://x/\" /><img src=\"https://x/\" /></p>"
unfolding sanitize render_edges tree_edges werrss.Archive.Sanitizer.Rendering.render_edge
    werrss.Archive.Sanitizer.Rendering.open_node
    werrss.Archive.Sanitizer.Rendering.render_open_element
    werrss.Archive.Sanitizer.Rendering.close_node werrss.Archive.Sanitizer.Rendering.open_image
    werrss.Archive.Sanitizer.Rendering.image_source
    werrss.Archive.Sanitizer.Rendering.first_approved
    werrss.Archive.Sanitizer.Rendering.approved_http_url
    werrss.Archive.Sanitizer.Rendering.append_attributes
    werrss.Archive.Sanitizer.Rendering.append_each werrss.Archive.Sanitizer.Rendering.append_one
    werrss.Archive.Sanitizer.Rendering.note_asset werrss.Archive.Sanitizer.is_dropped
    werrss.Archive.Sanitizer.contains werrss.Archive.Sanitizer.is_safe werrss.Archive.Sanitizer.attr
    werrss.Archive.Sanitizer.after_scheme werrss.Archive.Sanitizer.allowed_attribute
    werrss.Archive.Sanitizer.append_attribute werrss.Archive.Sanitizer.append_escaped
    werrss.Archive.Sanitizer.append_text werrss.Archive.Sanitizer.approved
    werrss.Archive.Sanitizer.authority werrss.Archive.Sanitizer.authority_contains_userinfo
    werrss.Archive.Sanitizer.escaped werrss.Archive.Sanitizer.is_allowed_html_character
    werrss.Archive.Sanitizer.is_void werrss.Archive.Sanitizer.starts_with
    werrss.Common.is_whitespace werrss.Common.trim werrss.Common.trim_start
    werrss.Domain.UrlPolicy.contains_char werrss.Domain.UrlPolicy.has
    werrss.Domain.UrlPolicy.has_provider_signature werrss.Domain.UrlPolicy.is_download_token
    werrss.Domain.UrlPolicy.split_once werrss.Domain.UrlPolicy.to_ascii_lowercase
    werrss.Domain.UrlPolicy.any text_eq
page_html = refl

sanitize-render_tree_example :
    let r = render_tree one_url page fresh_renderer in
    (sanitize one_url page ≡ record { html = r.html; external_assets = r.external_assets })
    × ((render_edges one_url (tree_edges page) fresh_renderer).omitted_depth ≡ 0)
sanitize-render_tree_example = sanitize-render_tree one_url page

sanitize-IsHtml_example : IsHtml one_url (sanitize one_url page).html
sanitize-IsHtml_example = sanitize-IsHtml one_url page
