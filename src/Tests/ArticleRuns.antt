-- ===== src/Tests/ArticleRuns.antt =====
-- Runs of articles and their observations, src/domain/article.rs.
use werrss.Common.{
  ℕ, ◌≡◌, refl, ◌↔◌, ◌⊎◌, true, false, Option, none, some, [], Text, codes, is_empty, ok, arith,
}
use werrss.Domain.UrlPolicy.{Url, domain}
use werrss.Domain.Article.{
  NewArticle, Article, observed, stored, from_parts, merge_observation, feed_visible_change,
}
use werrss.Domain.Article.Normal.{IsNormal, from_parts_twice, normalize-IsNormal}
use werrss.Domain.Article.Merging.{IsMerged, IsMergedHtml, IsMergedHash, merge_observation-keeps}

-- Every text is a URL of one site here.
abbrev parse_any : Text → Option Url
parse_any text = some (record {
  scheme = codes "https";
  username = [];
  password = none;
  host = some (domain (codes "img.example"));
  port = none;
  query_pairs = [];
  fragment = none;
})

abbrev article : Article
article = record {
  source_id = 4;
  review_id = codes "r1";
  title = codes "old";
  author = some (codes "A");
  summary = none;
  cover_url = some (codes "https://img.example/a");
  original_url = none;
  published_at = 10;
  content_html = codes "<p>x</p>";
  content_hash = some (codes "h");
  observation_version = 1;
  fetched_at = 11;
  created_at = 12;
  updated_at = 12;
}

abbrev untidy : Article
untidy = record article { title = codes " old "; summary = some (codes " ") }

abbrev listing : NewArticle
listing = record {
  source_id = 4;
  review_id = codes "r1";
  title = codes "new";
  author = none;
  summary = some (codes "S");
  cover_url = none;
  original_url = none;
  published_at = 10;
  content_html = [];
  content_hash = none;
  observation_version = 2;
  fetched_at = 20;
}

from_parts_twice_example :
    IsNormal parse_any (observed article) × (from_parts parse_any article ≡ ok article)
unfolding from_parts werrss.Domain.Article.normalize werrss.Common.trim
    werrss.Domain.Article.is_bad_cover werrss.Domain.Article.normalize_optional
    werrss.Domain.Article.is_bad_url werrss.Common.text_eq
    werrss.Domain.UrlPolicy.has_provider_signature werrss.Domain.UrlPolicy.has
    werrss.Domain.UrlPolicy.any werrss.Domain.Article.tidied
from_parts_twice_example = from_parts_twice parse_any untidy article refl

article-IsNormal : IsNormal parse_any (observed article)
unfolding werrss.Domain.Article.normalize werrss.Common.trim werrss.Domain.Article.is_bad_cover
    werrss.Domain.Article.normalize_optional werrss.Domain.Article.is_bad_url werrss.Common.text_eq
    werrss.Domain.UrlPolicy.has_provider_signature werrss.Domain.UrlPolicy.has
    werrss.Domain.UrlPolicy.any werrss.Domain.Article.tidied
article-IsNormal = normalize-IsNormal parse_any (observed untidy) (observed article) refl

listing-IsNormal : IsNormal parse_any listing
unfolding werrss.Domain.Article.normalize werrss.Common.trim werrss.Domain.Article.is_bad_cover
    werrss.Domain.Article.normalize_optional werrss.Domain.Article.tidied
listing-IsNormal = normalize-IsNormal parse_any listing listing refl

merge_observation-keeps_example :
    let merged = merge_observation article listing in
    IsMerged listing.author article.author merged.author
    × IsMerged listing.summary article.summary merged.summary
    × IsMerged listing.cover_url article.cover_url merged.cover_url
    × IsMerged listing.original_url article.original_url merged.original_url
    × IsMergedHtml listing.content_html article.content_html merged.content_html
    × IsMergedHash article listing merged
    × (merged.title ≡ listing.title)
    × (merged.published_at ≡ listing.published_at)
merge_observation-keeps_example = merge_observation-keeps article listing
