-- ===== src/Domain/Article/Merging.antt =====
-- Merging an observation into a stored article, src/domain/article.rs.
use werrss.Common.{
  ℕ, ◌≡◌, ◌≢◌, refl, ◌↔◌, ◌⊎◌, inl, inr, true, false, Option, none, some, Text, is_empty, text_eq,
  text_eq_iff, Bool-cases, arith, if◌then◌else◌,
}
use werrss.Domain.Source.Revisions.{opt_text_same_iff}
use werrss.Domain.UrlPolicy.{Url}
use werrss.Domain.Article.{
  or_else, normalize_optional, is_bad_cover, NewArticle, Article, stored, observed, merged_html,
  merge_observation, feed_visible_change,
}
use werrss.Domain.Article.Normal.{IsNormal, IsTidy}

-- What a reader of the feed sees of an article and of an observation is the same.
pub record SameFeed (a : Article) (b : NewArticle) : Type 0 where
  pub title : a.title ≡ b.title
  pub author : a.author ≡ b.author
  pub summary : a.summary ≡ b.summary
  pub cover : a.cover_url ≡ b.cover_url
  pub original : a.original_url ≡ b.original_url
  pub published : a.published_at ≡ b.published_at
  pub html : a.content_html ≡ b.content_html
  pub hash : a.content_hash ≡ b.content_hash

visible-SameFeed : (a : Article) (b : NewArticle) → feed_visible_change a b ≡ false → SameFeed a b
unfolding feed_visible_change
visible-SameFeed a b h = record {
  title = ground (arith, text_eq_iff a.title b.title);
  author = ground (arith, opt_text_same_iff a.author b.author);
  summary = ground (arith, opt_text_same_iff a.summary b.summary);
  cover = ground (arith, opt_text_same_iff a.cover_url b.cover_url);
  original = ground (arith, opt_text_same_iff a.original_url b.original_url);
  published = ground arith;
  html = ground (arith, text_eq_iff a.content_html b.content_html);
  hash = ground (arith, opt_text_same_iff a.content_hash b.content_hash);
}

SameFeed-visible : (a : Article) (b : NewArticle) → SameFeed a b → feed_visible_change a b ≡ false
unfolding feed_visible_change
SameFeed-visible a b s = ground (
  arith,
  text_eq_iff a.title b.title,
  opt_text_same_iff a.author b.author,
  opt_text_same_iff a.summary b.summary,
  opt_text_same_iff a.cover_url b.cover_url,
  opt_text_same_iff a.original_url b.original_url,
  text_eq_iff a.content_html b.content_html,
  opt_text_same_iff a.content_hash b.content_hash,
)

-- A change is visible in the feed exactly when a field that a reader sees differs.
pub feed_visible_change_iff :
    (a : Article) (b : NewArticle) → (feed_visible_change a b ≡ false) ↔ SameFeed a b
feed_visible_change_iff a b = (visible-SameFeed a b, SameFeed-visible a b)

or_else_cases {κ} : (P : Option Text → Type κ) (a b : Option Text) → P a → P b → P (or_else a b)
or_else_cases P none b p q = q
or_else_cases P (some a) b p q = p

or_else_twice : (a b : Option Text) → or_else a (or_else a b) ≡ or_else a b
or_else_twice none b = refl
or_else_twice (some a) b = refl

-- The hash with which the stored article answers.
abbrev kept_hash : Article → NewArticle → Option Text
kept_hash self incoming =
    if text_eq (merged_html self incoming) self.content_html then self.content_hash else none

kept_hash-IsTidy :
    (self : Article) (incoming : NewArticle)
    → IsTidy self.content_hash
    → IsTidy (kept_hash self incoming)
unfolding normalize_optional
kept_hash-IsTidy self incoming t =
    elim (Bool-cases (text_eq (merged_html self incoming) self.content_html)) [
      | inl same ↦ rw same t
      | inr other ↦ rw other refl
    ]

merge-IsNormal :
    (parse : Text → Option Url) (self : Article) (incoming : NewArticle)
    → IsNormal parse (observed self)
    → IsNormal parse incoming
    → IsNormal parse (merge_observation self incoming)
unfolding merge_observation
merge-IsNormal parse self incoming s n = record {
  source = s.source;
  review = s.review;
  review_given = s.review_given;
  title = n.title;
  title_given = n.title_given;
  author = or_else_cases IsTidy incoming.author self.author n.author s.author;
  summary = or_else_cases IsTidy incoming.summary self.summary n.summary s.summary;
  cover = or_else_cases IsTidy incoming.cover_url self.cover_url n.cover s.cover;
  cover_good =
      or_else_cases (λ c. is_bad_cover parse c ≡ false) incoming.cover_url self.cover_url
        n.cover_good s.cover_good;
  hash =
      or_else_cases IsTidy incoming.content_hash (kept_hash self incoming) n.hash
        (kept_hash-IsTidy self incoming s.hash);
  version = n.version;
}

merged_html_twice :
    (self : Article) (incoming : NewArticle) (created updated : ℕ)
    → merged_html (stored (merge_observation self incoming) created updated) incoming
      ≡ merged_html self incoming
unfolding merged_html merge_observation
merged_html_twice self incoming created updated =
    elim (Bool-cases (is_empty incoming.content_html)) [
      | inl absent ↦ rw (absent, merged_html) refl
      | inr given ↦ rw (given, merged_html) refl
    ]

hash_twice :
    (self : Article) (incoming : NewArticle) (created updated : ℕ)
    → let again = stored (merge_observation self incoming) created updated in
      or_else incoming.content_hash (kept_hash again incoming) ≡ again.content_hash
unfolding merge_observation
hash_twice self incoming created updated =
    rw
      (
        merged_html_twice self incoming created updated,
        (text_eq_iff (merged_html self incoming) (merged_html self incoming)).1 refl,
      )
      (or_else_twice incoming.content_hash (kept_hash self incoming))

merge_twice :
    (self : Article) (incoming : NewArticle) (created updated : ℕ)
    → let merged = merge_observation self incoming in
      merge_observation (stored merged created updated) incoming ≡ merged
unfolding merge_observation
merge_twice self incoming created updated = ground (
  arith,
  or_else_twice incoming.author self.author,
  or_else_twice incoming.summary self.summary,
  or_else_twice incoming.cover_url self.cover_url,
  or_else_twice incoming.original_url self.original_url,
  merged_html_twice self incoming created updated,
  hash_twice self incoming created updated,
)

stored-SameFeed : (a : NewArticle) (created updated : ℕ) → SameFeed (stored a created updated) a
stored-SameFeed a created updated = record {
  title = refl;
  author = refl;
  summary = refl;
  cover = refl;
  original = refl;
  published = refl;
  html = refl;
  hash = refl;
}

-- Merging a normal observation into a normal article gives a normal observation of the same
-- article. Stored as a row, it absorbs the observation: merging it once more gives the same, and
-- shows no change in the feed.
pub merge_observation_idempotent :
    (parse : Text → Option Url) (self : Article) (incoming : NewArticle) (created updated : ℕ)
    → IsNormal parse (observed self)
    → IsNormal parse incoming
    → let merged = merge_observation self incoming in
      let row = stored merged created updated in
      IsNormal parse merged
      × (merged.source_id ≡ self.source_id)
      × (merged.review_id ≡ self.review_id)
      × (merge_observation row incoming ≡ merged)
      × (feed_visible_change row (merge_observation row incoming) ≡ false)
unfolding merge_observation
merge_observation_idempotent parse self incoming created updated s n =
    let merged = merge_observation self incoming in
    let again = merge_twice self incoming created updated in
    (
      merge-IsNormal parse self incoming s n,
      refl,
      refl,
      again,
      rw again (
          SameFeed-visible (stored merged created updated) merged
            (stored-SameFeed merged created updated)),
    )

-- An absent detail stays as it was stored; a given one is taken.
abbrev pub IsMerged : (incoming stored merged : Option Text) → Type 0
IsMerged incoming stored merged =
    ((incoming ≡ none) × (merged ≡ stored)) ⊎ ((a : Text) × (incoming ≡ some a) × (merged ≡ some a))

or_else-IsMerged : (a b : Option Text) → IsMerged a b (or_else a b)
or_else-IsMerged none b = inl (refl, refl)
or_else-IsMerged (some a) b = inr (a, refl, refl)

-- The same for HTML, which is absent when it is empty.
abbrev pub IsMergedHtml : (incoming stored merged : Text) → Type 0
IsMergedHtml incoming stored merged =
    ((is_empty incoming ≡ true) × (merged ≡ stored))
    ⊎ ((is_empty incoming ≡ false) × (merged ≡ incoming))

-- A given hash is taken; without one the stored hash stays beside the stored HTML only.
abbrev pub IsMergedHash : Article → (incoming merged : NewArticle) → Type 0
IsMergedHash self incoming merged =
    ((a : Text) × (incoming.content_hash ≡ some a) × (merged.content_hash ≡ some a))
    ⊎ ((incoming.content_hash ≡ none)
        × (((merged.content_html ≡ self.content_html) × (merged.content_hash ≡ self.content_hash))
            ⊎ ((merged.content_html ≢ self.content_html) × (merged.content_hash ≡ none))))

kept_hash_cases :
    (self : Article) (incoming : NewArticle)
    → ((merged_html self incoming ≡ self.content_html)
        × (kept_hash self incoming ≡ self.content_hash))
      ⊎ ((merged_html self incoming ≢ self.content_html) × (kept_hash self incoming ≡ none))
kept_hash_cases self incoming =
    let same_iff = text_eq_iff (merged_html self incoming) self.content_html in
    elim (Bool-cases (text_eq (merged_html self incoming) self.content_html)) [
      | inl same ↦ inl (same_iff.0 same, rw same refl)
      | inr other ↦ inr (λ e. ground (arith, same_iff.1 e), rw other refl)
    ]

merge-IsMergedHash :
    (self : Article) (incoming : NewArticle)
    → IsMergedHash self incoming (merge_observation self incoming)
unfolding merge_observation
merge-IsMergedHash self incoming =
    elim (or_else-IsMerged incoming.content_hash (kept_hash self incoming)) [
      | inr (a, given, taken) ↦ inl (a, given, taken)
      | inl (absent, kept) ↦ inr (
        absent,
        elim (kept_hash_cases self incoming) [
          | inl (same, hash) ↦ inl (same, cc)
          | inr (other, hash) ↦ inr (other, cc)
        ],
      )
    ]

-- A merge takes no detail away: an absent author, summary, cover or original URL and an empty HTML
-- leave the stored one, and a given one is taken. A given hash is taken; without one, the stored
-- hash stays exactly if the HTML is still the stored one. Title and publication are the observation's.
pub merge_observation-keeps :
    (self : Article) (incoming : NewArticle)
    → let merged = merge_observation self incoming in
      IsMerged incoming.author self.author merged.author
      × IsMerged incoming.summary self.summary merged.summary
      × IsMerged incoming.cover_url self.cover_url merged.cover_url
      × IsMerged incoming.original_url self.original_url merged.original_url
      × IsMergedHtml incoming.content_html self.content_html merged.content_html
      × IsMergedHash self incoming merged
      × (merged.title ≡ incoming.title)
      × (merged.published_at ≡ incoming.published_at)
unfolding merge_observation merged_html
merge_observation-keeps self incoming = (
  or_else-IsMerged incoming.author self.author,
  or_else-IsMerged incoming.summary self.summary,
  or_else-IsMerged incoming.cover_url self.cover_url,
  or_else-IsMerged incoming.original_url self.original_url,
  elim (Bool-cases (is_empty incoming.content_html)) [
    | inl absent ↦ rw (absent, merged_html) (inl (refl, refl))
    | inr given ↦ rw (given, merged_html) (inr (refl, refl))
  ],
  merge-IsMergedHash self incoming,
  refl,
  refl,
)
