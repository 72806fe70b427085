-- ===== src/Tests/ArchiveRuns.antt =====
-- Runs of the URL rewriter, src/archive/url_rewriter.rs.
use werrss.Common.{
  ◌≡◌, refl, Bool, Option, none, some, List, [], ◌∷◌, ◌++◌, Text, codes, text_eq, if◌then◌else◌,
  arith,
}
use werrss.Archive.UrlRewriter.{
  strip_prefix, has_src_matching, rewrite_src_attributes, rewrite_sanitized_html, replacement_for,
  contains_relative_asset_urls, absolutize_asset_urls,
}
use werrss.Archive.UrlRewriter.Pieces.{render, Scans, replace_values}
use werrss.Archive.UrlRewriter.Rewriting.{rewrite_src_attributes-render}
use werrss.Archive.UrlRewriter.Urls.{JoinsAbsolute}

abbrev an_image : Text
an_image = codes "<img src=\"/assets/7\" alt=\"a\"><img src=\"x&amp;y\">"

abbrev the_pieces : List (Text × Text)
the_pieces = (codes "<img", codes "/assets/7") ∷ (codes " alt=\"a\"><img", codes "x&amp;y") ∷ []

-- A target with a quote in it stays inside its attribute.
abbrev to_target : Text → Option Text
to_target v = if text_eq v (codes "x&amp;y") then some (codes "z\"&") else none

rewrites_one :
    rewrite_src_attributes to_target an_image
    ≡ some (codes "<img src=\"/assets/7\" alt=\"a\"><img src=\"z&quot;&amp;\">")
unfolding rewrite_src_attributes werrss.Archive.UrlRewriter.next_attribute strip_prefix text_eq
    werrss.Archive.UrlRewriter.escape_attribute
rewrites_one = refl

rewrite_src_attributes-render_example :
    (pieces : List (Text × Text)) × (tail : Text) × (an_image ≡ render pieces tail)
    × Scans pieces tail
    × (rewrite_src_attributes to_target an_image
        ≡ some (render (replace_values to_target pieces) tail))
    × Scans (replace_values to_target pieces) tail
rewrite_src_attributes-render_example = rewrite_src_attributes-render to_target an_image

abbrev digit_seven : Text → Bool
digit_seven id = text_eq id (codes "7")

abbrev join_root : Text → Option Text
join_root id = some (codes "https://root/assets/" ++ id)

join_root-JoinsAbsolute : JoinsAbsolute digit_seven join_root
join_root-JoinsAbsolute = record { total = λ id h. refl; schemed = λ id url h. ground arith }
