-- ===== src/Archive/Sanitizer/Markup.antt =====
-- The grammar of sanitized HTML, src/archive/sanitizer.rs.
use werrss.Common.{◌≡◌, ◌≢◌, ◌⊎◌, true, false, none, [], ◌++◌, Text, codes, is_empty, is_some}
use werrss.Domain.UrlPolicy.{Url, has_provider_signature}
use werrss.Archive.Sanitizer.{is_safe, is_dropped, is_void, allowed_attribute}
use werrss.Archive.Sanitizer.Rendering.{Urls}
use werrss.Archive.Sanitizer.Escaping.{IsPlain, IsQuoted, escape}

-- An absolute HTTP or HTTPS URL without credentials.
pub record IsApproved (url : Url) : Type 0 where
  pub scheme : (url.scheme ≡ codes "http") ⊎ (url.scheme ≡ codes "https")
  pub host : is_some url.host ≡ true
  pub username : is_empty url.username ≡ true
  pub password : url.password ≡ none

-- An attribute of an element with its escaped value: an allowed one, or a link of an `a` or the
-- source of an `img` that is an approved URL without a provider's signature.
pub data IsAttribute (urls : Urls) (name n v : Text) : Type 0 where
  ordinary :
      allowed_attribute name n ≡ true → n ≢ codes "href" → IsQuoted v → IsAttribute urls name n v
  linked :
      (url : Url)
      → n ≡ codes "href"
      → name ≡ codes "a"
      → IsApproved url
      → has_provider_signature url ≡ false
      → v ≡ escape true (urls.as_str url)
      → IsQuoted v
      → IsAttribute urls name n v
  sourced :
      (url : Url)
      → n ≡ codes "src"
      → name ≡ codes "img"
      → IsApproved url
      → has_provider_signature url ≡ false
      → v ≡ escape true (urls.as_str url)
      → IsQuoted v
      → IsAttribute urls name n v

-- ` name="value"`.
abbrev pub written : Text → Text → Text
written n v = codes " " ++ (n ++ (codes "=\"" ++ (v ++ codes "\"")))

pub data IsAttributes (urls : Urls) (name : Text) : Text → Type 0 where
  no_attributes : IsAttributes urls name []
  one_more :
      (attrs n v : Text)
      → IsAttributes urls name attrs
      → IsAttribute urls name n v
      → IsAttributes urls name (attrs ++ written n v)

-- Sanitized HTML: plain text, and safe elements with their attributes, void or around sanitized
-- HTML.
pub data IsHtml (urls : Urls) : Text → Type 0 where
  nothing : IsHtml urls []
  plain_text : (t : Text) → IsPlain t → IsHtml urls t
  sequence : (a b : Text) → IsHtml urls a → IsHtml urls b → IsHtml urls (a ++ b)
  void_tag :
      (name attrs : Text)
      → is_safe name ≡ true
      → is_dropped name ≡ false
      → is_void name ≡ true
      → IsAttributes urls name attrs
      → IsHtml urls (codes "<" ++ (name ++ (attrs ++ codes " />")))
  around :
      (name attrs inner : Text)
      → is_safe name ≡ true
      → is_dropped name ≡ false
      → is_void name ≡ false
      → IsAttributes urls name attrs
      → IsHtml urls inner
      → IsHtml urls (
          (codes "<" ++ (name ++ (attrs ++ codes ">")))
          ++ (inner ++ (codes "</" ++ (name ++ codes ">"))))
