-- ===== src/Archive/Sanitizer.antt =====
-- The sanitizer of article HTML, src/archive/sanitizer.rs. The tree that the `scraper` crate parses
-- is data, the parser and the serialization of the `url` crate are parameters, and the set of URLs
-- seen is the list of their serializations.
pub mod Rendering
pub mod Trees
pub mod Edges
pub mod Traversal
pub mod Escaping
pub mod Markup
pub mod Attributes
pub mod Documents
pub mod Assets
use werrss.Common.{
  ℕ, suc, ◌+◌, ◌-◌, Bool, true, false, not, ◌&&◌, ◌||◌, Option, none, some, List, [], ◌∷◌, ◌++◌,
  Text, codes, text_eq, trim, is_empty, ltb, leb, ◌==◌, if◌then◌else◌, is_some, opt_eq,
}
use werrss.Domain.UrlPolicy.{Url, Host, any, contains_char, has_provider_signature}

unfoldable pub contains : List Text → Text → Bool
contains texts t = any (λ u. text_eq u t) texts

abbrev pub safe_elements : List Text
safe_elements =
    codes "a"
    ∷ codes "abbr"
    ∷ codes "article"
    ∷ codes "b"
    ∷ codes "blockquote"
    ∷ codes "br"
    ∷ codes "caption"
    ∷ codes "code"
    ∷ codes "col"
    ∷ codes "colgroup"
    ∷ codes "dd"
    ∷ codes "del"
    ∷ codes "div"
    ∷ codes "dl"
    ∷ codes "dt"
    ∷ codes "em"
    ∷ codes "figcaption"
    ∷ codes "figure"
    ∷ codes "h1"
    ∷ codes "h2"
    ∷ codes "h3"
    ∷ codes "h4"
    ∷ codes "h5"
    ∷ codes "h6"
    ∷ codes "hr"
    ∷ codes "i"
    ∷ codes "img"
    ∷ codes "ins"
    ∷ codes "kbd"
    ∷ codes "li"
    ∷ codes "mark"
    ∷ codes "ol"
    ∷ codes "p"
    ∷ codes "pre"
    ∷ codes "q"
    ∷ codes "s"
    ∷ codes "samp"
    ∷ codes "section"
    ∷ codes "small"
    ∷ codes "span"
    ∷ codes "strong"
    ∷ codes "sub"
    ∷ codes "sup"
    ∷ codes "table"
    ∷ codes "tbody"
    ∷ codes "td"
    ∷ codes "tfoot"
    ∷ codes "th"
    ∷ codes "thead"
    ∷ codes "tr"
    ∷ codes "u"
    ∷ codes "ul"
    ∷ codes "wbr"
    ∷ []

abbrev pub drop_content_elements : List Text
drop_content_elements =
    codes "applet"
    ∷ codes "base"
    ∷ codes "embed"
    ∷ codes "frame"
    ∷ codes "frameset"
    ∷ codes "head"
    ∷ codes "iframe"
    ∷ codes "input"
    ∷ codes "link"
    ∷ codes "meta"
    ∷ codes "noscript"
    ∷ codes "object"
    ∷ codes "script"
    ∷ codes "select"
    ∷ codes "style"
    ∷ codes "svg"
    ∷ codes "template"
    ∷ codes "textarea"
    ∷ codes "video"
    ∷ []

abbrev pub void_elements : List Text
void_elements = codes "br" ∷ codes "col" ∷ codes "hr" ∷ codes "img" ∷ codes "wbr" ∷ []

unfoldable pub is_safe : Text → Bool
is_safe name = contains safe_elements name

unfoldable pub is_dropped : Text → Bool
is_dropped name = contains drop_content_elements name

unfoldable pub is_void : Text → Bool
is_void name = contains void_elements name

-- `scraper::Node`; documents, fragments, doctypes, comments and processing instructions are
-- `other`. An element has its attributes in order.
pub data Node : Type 0 where
  element : (name : Text) (attrs : List (Text × Text)) → Node
  text : (value : Text) → Node
  other : Node

pub data Edge : Type 0 where
  open_edge close_edge : Node → Edge

pub record Renderer : Type 0 where
  pub html : Text
  pub external_assets : List Url
  pub seen_assets : List Text
  pub omitted_depth : ℕ

unfoldable pub is_allowed_html_character : ℕ → Bool
is_allowed_html_character c =
    c == 9
    || c == 10
    || c == 13
    || (leb 0x20 c && leb c 0xd7ff)
    || (leb 0xe000 c && leb c 0xfffd)
    || (leb 0x10000 c && leb c 0x10ffff)

-- What `append_escaped` writes for a character.
unfoldable pub escaped : Bool → ℕ → Text
escaped attribute c =
    if c == 38
    then codes "&amp;"
    else if c == 60
    then codes "&lt;"
    else if c == 62
    then codes "&gt;"
    else if c == 34 && attribute
    then codes "&quot;"
    else if c == 39 && attribute
    then codes "&#39;"
    else if is_allowed_html_character c
    then c ∷ []
    else []

unfoldable pub append_escaped : Text → Bool → Text → Text
append_escaped output attribute [] = output
append_escaped output attribute (c ∷ value) =
    append_escaped (output ++ escaped attribute c) attribute value

unfoldable pub append_text : Text → Text → Text
append_text output value = append_escaped output false value

unfoldable pub append_attribute : Text → Text → Text → Text
append_attribute output name value =
    append_escaped (output ++ (codes " " ++ (name ++ codes "=\""))) true value ++ codes "\""

unfoldable pub allowed_attribute : Text → Text → Bool
allowed_attribute name attribute =
    if text_eq attribute (codes "class")
      || text_eq attribute (codes "id")
      || text_eq attribute (codes "title")
    then true
    else if text_eq attribute (codes "href")
    then text_eq name (codes "a")
    else if text_eq attribute (codes "alt")
    then text_eq name (codes "img")
    else if text_eq attribute (codes "width") || text_eq attribute (codes "height")
    then contains (codes "img" ∷ codes "td" ∷ codes "th" ∷ []) name
    else if text_eq attribute (codes "colspan") || text_eq attribute (codes "rowspan")
    then contains (codes "td" ∷ codes "th" ∷ []) name
    else if text_eq attribute (codes "align")
    then contains
        (codes "caption" ∷ codes "div" ∷ codes "p" ∷ codes "table" ∷ codes "td" ∷ codes "th" ∷ [])
        name
    else false

-- `starts_with`, and what follows the first `://`.
unfoldable pub starts_with : Text → Text → Bool
starts_with s [] = true
starts_with [] (d ∷ t) = false
starts_with (c ∷ s) (d ∷ t) = let rest = starts_with s t in c == d && rest

abbrev drop3 : Text → Text
drop3 (a ∷ b ∷ c ∷ s) = s
drop3 s = []

unfoldable pub after_scheme : Text → Option Text
after_scheme [] = none
after_scheme (c ∷ s) =
    let rest = after_scheme s in
    if starts_with (c ∷ s) (codes "://") then some (drop3 (c ∷ s)) else rest

-- `split(['/', '?', '#']).next()`.
unfoldable pub authority : Text → Text
authority [] = []
authority (c ∷ s) = let rest = authority s in if c == 47 || c == 63 || c == 35 then [] else c ∷ rest

unfoldable pub authority_contains_userinfo : Text → Bool
authority_contains_userinfo value = elim (after_scheme value) [
  | none ↦ false
  | some remainder ↦ contains_char 64 (authority remainder)
]

abbrev has_host : Option Host → Bool
has_host none = false
has_host (some host) = true

abbrev is_default_port : Url → Bool
is_default_port url =
    (text_eq url.scheme (codes "http") && opt_eq url.port 80)
    || (text_eq url.scheme (codes "https") && opt_eq url.port 443)

abbrev strip_port : Url → Url
strip_port url = if is_default_port url then record url { port = none } else url

abbrev strip : Bool → Url → Url
strip strip_fragment url = if strip_fragment then record url { fragment = none } else url

-- The checks and changes on a parsed URL.
unfoldable pub approved : Bool → Url → Option Url
approved strip_fragment url =
    if not (text_eq url.scheme (codes "http") || text_eq url.scheme (codes "https"))
      || not (has_host url.host)
      || not (is_empty url.username)
      || is_some url.password
    then none
    else some (strip strip_fragment (strip_port url))

abbrev bind_url : Option Url → (Url → Option Url) → Option Url
bind_url none f = none
bind_url (some url) f = f url

-- `element.attr`.
unfoldable pub attr : Text → List (Text × Text) → Option Text
attr name [] = none
attr name ((n, value) ∷ attrs) =
    let rest = attr name attrs in if text_eq n name then some value else rest
