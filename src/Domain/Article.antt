-- ===== src/Domain/Article.antt =====
-- Articles and their observations, src/domain/article.rs. UUIDs and instants are as in Domain/Job, a
-- verified article URL is its text as in Domain/Source, and the parser of the `url` crate is a
-- parameter.
pub mod Normal
pub mod Merging
use werrss.Common.{
  ℕ, Bool, true, false, not, ◌&&◌, ◌||◌, Option, none, some, Text, codes, text_eq, trim, is_empty,
  ◌==◌, if◌then◌else◌, Result, ok, err,
}
use werrss.Domain.Source.{opt_text_same}
use werrss.Domain.UrlPolicy.{Url, Host, has_provider_signature}

pub data ArticleError : Type 0 where
  invalid_source_id empty_review_id empty_title invalid_cover_url : ArticleError
  invalid_original_url invalid_observation_version : ArticleError

pub record NewArticle : Type 0 where
  pub source_id : ℕ
  pub review_id : Text
  pub title : Text
  pub author : Option Text
  pub summary : Option Text
  pub cover_url : Option Text
  pub original_url : Option Text
  pub published_at : ℕ
  pub content_html : Text
  pub content_hash : Option Text
  pub observation_version : ℕ
  pub fetched_at : ℕ

-- `ArticleParts` has the same fields.
pub record Article : Type 0 where
  pub source_id : ℕ
  pub review_id : Text
  pub title : Text
  pub author : Option Text
  pub summary : Option Text
  pub cover_url : Option Text
  pub original_url : Option Text
  pub published_at : ℕ
  pub content_html : Text
  pub content_hash : Option Text
  pub observation_version : ℕ
  pub fetched_at : ℕ
  pub created_at : ℕ
  pub updated_at : ℕ

unfoldable pub normalize_optional : Option Text → Option Text
normalize_optional none = none
normalize_optional (some value) = if is_empty (trim value) then none else some (trim value)

abbrev is_http : Text → Bool
is_http scheme = text_eq scheme (codes "http") || text_eq scheme (codes "https")

abbrev has_host : Option Host → Bool
has_host none = false
has_host (some host) = true

unfoldable pub is_bad_url : Option Url → Bool
is_bad_url none = true
is_bad_url (some url) =
    not (is_http url.scheme) || (not (has_host url.host) || has_provider_signature url)

-- The fields of an observation in a row.
abbrev pub stored : NewArticle → ℕ → ℕ → Article
stored a created updated = record {
  source_id = a.source_id;
  review_id = a.review_id;
  title = a.title;
  author = a.author;
  summary = a.summary;
  cover_url = a.cover_url;
  original_url = a.original_url;
  published_at = a.published_at;
  content_html = a.content_html;
  content_hash = a.content_hash;
  observation_version = a.observation_version;
  fetched_at = a.fetched_at;
  created_at = created;
  updated_at = updated;
}

abbrev pub observed : Article → NewArticle
observed a = record {
  source_id = a.source_id;
  review_id = a.review_id;
  title = a.title;
  author = a.author;
  summary = a.summary;
  cover_url = a.cover_url;
  original_url = a.original_url;
  published_at = a.published_at;
  content_html = a.content_html;
  content_hash = a.content_hash;
  observation_version = a.observation_version;
  fetched_at = a.fetched_at;
}

-- What `normalize` makes of an observation that it accepts.
unfoldable pub tidied : NewArticle → NewArticle
tidied self = record self {
  review_id = trim self.review_id;
  title = trim self.title;
  author = normalize_optional self.author;
  summary = normalize_optional self.summary;
  cover_url = normalize_optional self.cover_url;
  content_hash = normalize_optional self.content_hash;
}

module _ (parse : Text → Option Url) where
  unfoldable pub is_bad_cover : Option Text → Bool
  is_bad_cover none = false
  is_bad_cover (some value) = is_bad_url (parse value)

  unfoldable pub normalize : NewArticle → Result ArticleError NewArticle
  normalize self =
      if self.source_id == 0
      then err invalid_source_id
      else if is_empty (trim self.review_id)
      then err empty_review_id
      else if is_empty (trim self.title)
      then err empty_title
      else if self.observation_version == 0
      then err invalid_observation_version
      else if is_bad_cover (normalize_optional self.cover_url)
      then err invalid_cover_url
      else ok (tidied self)

  unfoldable pub from_parts : Article → Result ArticleError Article
  from_parts parts = elim (normalize (observed parts)) [
    | err e ↦ err e
    | ok normalized ↦ ok (stored normalized parts.created_at parts.updated_at)
  ]

abbrev pub or_else : Option Text → Option Text → Option Text
or_else none b = b
or_else (some a) b = some a

unfoldable pub merged_html : Article → NewArticle → Text
merged_html self incoming =
    if is_empty incoming.content_html then self.content_html else incoming.content_html

unfoldable pub merge_observation : Article → NewArticle → NewArticle
merge_observation self incoming = record {
  source_id = self.source_id;
  review_id = self.review_id;
  title = incoming.title;
  author = or_else incoming.author self.author;
  summary = or_else incoming.summary self.summary;
  cover_url = or_else incoming.cover_url self.cover_url;
  original_url = or_else incoming.original_url self.original_url;
  published_at = incoming.published_at;
  content_html = merged_html self incoming;
  content_hash =
      or_else incoming.content_hash
        (if text_eq (merged_html self incoming) self.content_html then self.content_hash else none);
  observation_version = incoming.observation_version;
  fetched_at = incoming.fetched_at;
}

unfoldable pub feed_visible_change : Article → NewArticle → Bool
feed_visible_change current incoming =
    not (text_eq current.title incoming.title)
    || not (opt_text_same current.author incoming.author)
    || not (opt_text_same current.summary incoming.summary)
    || not (opt_text_same current.cover_url incoming.cover_url)
    || not (opt_text_same current.original_url incoming.original_url)
    || not (current.published_at == incoming.published_at)
    || not (text_eq current.content_html incoming.content_html)
    || not (opt_text_same current.content_hash incoming.content_hash)
