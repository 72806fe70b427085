-- ===== src/Domain/Article/Normal.antt =====
-- Normal observations and articles, src/domain/article.rs.
use werrss.Common.{
  ◌≡◌, refl, ◌≢◌, inl, inr, false, Option, none, some, Text, trim, trim-trim, is_empty, ok,
  Bool-cases, Result-cases, arith, sym, subst,
}
use werrss.Domain.UrlPolicy.{Url}
use werrss.Domain.Article.{
  NewArticle, Article, normalize_optional, is_bad_cover, normalize, tidied, from_parts, stored,
  observed,
}

-- An optional text is trimmed, and not empty.
abbrev pub IsTidy : Option Text → Type 0
IsTidy t = normalize_optional t ≡ t

pub record IsNormal (parse : Text → Option Url) (a : NewArticle) : Type 0 where
  pub source : a.source_id ≢ 0
  pub review : trim a.review_id ≡ a.review_id
  pub review_given : is_empty a.review_id ≡ false
  pub title : trim a.title ≡ a.title
  pub title_given : is_empty a.title ≡ false
  pub author : IsTidy a.author
  pub summary : IsTidy a.summary
  pub cover : IsTidy a.cover_url
  pub cover_good : is_bad_cover parse a.cover_url ≡ false
  pub hash : IsTidy a.content_hash
  pub version : a.observation_version ≢ 0

normalize_optional-IsTidy : (t : Option Text) → IsTidy (normalize_optional t)
unfolding normalize_optional
normalize_optional-IsTidy none = refl
normalize_optional-IsTidy (some t) = elim (Bool-cases (is_empty (trim t))) [
  | inl blank ↦ rw blank refl
  | inr given ↦ rw (given, trim-trim t, given) refl
]

module _ (parse : Text → Option Url) where
  -- The guards that an accepted observation has passed.
  record Passed (a : NewArticle) : Type 0 where
    source : a.source_id ≢ 0
    review : is_empty (trim a.review_id) ≡ false
    title : is_empty (trim a.title) ≡ false
    version : a.observation_version ≢ 0
    cover : is_bad_cover parse (normalize_optional a.cover_url) ≡ false

  normalize-Passed : (a b : NewArticle) → normalize parse a ≡ ok b → Passed a × (b ≡ tidied a)
  unfolding normalize
  normalize-Passed a b h = (
    record {
      source = ground arith;
      review = ground arith;
      title = ground arith;
      version = ground arith;
      cover = ground arith;
    },
    ground arith,
  )

  Passed-IsNormal : (a : NewArticle) → Passed a → IsNormal parse (tidied a)
  unfolding tidied
  Passed-IsNormal a p = record {
    source = p.source;
    review = trim-trim a.review_id;
    review_given = p.review;
    title = trim-trim a.title;
    title_given = p.title;
    author = normalize_optional-IsTidy a.author;
    summary = normalize_optional-IsTidy a.summary;
    cover = normalize_optional-IsTidy a.cover_url;
    cover_good = p.cover;
    hash = normalize_optional-IsTidy a.content_hash;
    version = p.version;
  }

  -- What `normalize` accepts comes out normal: texts are trimmed, the identity, the title and the
  -- version are given, and a cover is an unsigned absolute HTTP(S) URL.
  pub normalize-IsNormal : (a b : NewArticle) → normalize parse a ≡ ok b → IsNormal parse b
  normalize-IsNormal a b h =
      let (passed, same) = normalize-Passed a b h in
      subst (IsNormal parse) (sym same) (Passed-IsNormal a passed)

  tidied_normal : (a : NewArticle) → IsNormal parse a → tidied a ≡ a
  unfolding tidied
  tidied_normal a n = ground (arith, n.review, n.title, n.author, n.summary, n.cover, n.hash)

  pub IsNormal-normalize : (a : NewArticle) → IsNormal parse a → normalize parse a ≡ ok a
  unfolding normalize
  IsNormal-normalize a n = ground (
    arith,
    tidied_normal a n,
    n.source,
    n.review,
    n.review_given,
    n.title,
    n.title_given,
    n.cover,
    n.cover_good,
    n.version,
  )

  from_parts-IsNormal :
      (row a : Article) → from_parts parse row ≡ ok a → IsNormal parse (observed a)
  unfolding from_parts
  from_parts-IsNormal row a h = elim (Result-cases (normalize parse (observed row))) [
    | inl (e, bad) ↦ absurd (ground arith)
    | inr (b, good) ↦
        let same : a ≡ stored b row.created_at row.updated_at = ground arith in
        subst (λ x. IsNormal parse (observed x)) (sym same)
          (normalize-IsNormal (observed row) b good)
  ]

  -- A row that reads back as an article gives a normal article, and the article's own row reads
  -- back as the same article.
  pub from_parts_twice :
      (row a : Article)
      → from_parts parse row ≡ ok a
      → IsNormal parse (observed a) × (from_parts parse a ≡ ok a)
  unfolding from_parts
  from_parts_twice row a h =
      let normal = from_parts-IsNormal row a h in
      (normal, rw (IsNormal-normalize (observed a) normal, from_parts) refl)
