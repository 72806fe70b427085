-- ===== src/Domain/Source/Revisions.antt =====
-- Updates of a source and its feed revision, src/domain/source.rs.
use werrss.Common.{
  ℕ, ◌+◌, ◌≡◌, refl, ◌↔◌, ◌⊎◌, inl, inr, true, false, Option, none, some, Text, text_eq_iff, trim,
  trim-trim, Result, ok, err, arith, ◌∙◌, ap, if◌then◌else◌,
}
use werrss.Domain.Source.{
  Source, SourceError, SourceUpdate, Durations, validate, advance_feed_revision, updated_fields,
  feed_visible_change, apply_update, apply_patch, opt_text_same,
}

-- The names are trimmed, as `new` and `apply_update` leave them.
pub record IsTrimmed (s : Source) : Type 0 where
  pub book : trim s.book_id ≡ s.book_id
  pub display : trim s.display_name ≡ s.display_name

-- What a reader of the feed can see.
pub record SameFeed (s t : Source) : Type 0 where
  pub book : s.book_id ≡ t.book_id
  pub display : s.display_name ≡ t.display_name
  pub url : s.article_url ≡ t.article_url
  pub limit : s.rss_item_limit ≡ t.rss_item_limit

pub opt_text_same_iff : (a b : Option Text) → (opt_text_same a b ≡ true) ↔ (a ≡ b)
opt_text_same_iff none none = ground arith
opt_text_same_iff none (some t) = ground arith
opt_text_same_iff (some s) none = ground arith
opt_text_same_iff (some s) (some t) = ground (arith, text_eq_iff s t)

-- The update that a patch with nothing in it stands for.
abbrev unpatched : Source → SourceUpdate
unpatched s = record {
  book_id = s.book_id;
  display_name = s.display_name;
  article_url = s.article_url;
  sync_interval = s.sync_interval;
  rss_item_limit = s.rss_item_limit;
  account_id = s.account_id;
  priority = s.priority;
  max_attempts = s.max_attempts;
}

module _ (d : Durations) where
  unchanged-SameFeed : (s t : Source) → feed_visible_change d s t ≡ false → SameFeed s t
  unfolding feed_visible_change
  unchanged-SameFeed s t h = ground (
    arith,
    text_eq_iff s.book_id t.book_id,
    text_eq_iff s.display_name t.display_name,
    opt_text_same_iff s.article_url t.article_url,
  )

  SameFeed-unchanged : (s t : Source) → SameFeed s t → feed_visible_change d s t ≡ false
  unfolding feed_visible_change
  SameFeed-unchanged s t h = ground (
    arith,
    text_eq_iff s.book_id t.book_id,
    text_eq_iff s.display_name t.display_name,
    opt_text_same_iff s.article_url t.article_url,
  )

  apply_update-parts :
      (u : SourceUpdate) (s t : Source)
      → apply_update d u s ≡ ok t
      → let v = updated_fields d u s in
        (validate d v ≡ ok tt)
        × (((feed_visible_change d v s ≡ false) × (t ≡ v))
            ⊎ ((feed_visible_change d v s ≡ true)
                × (t ≡ record v { feed_revision = s.feed_revision + 1 })))
  unfolding apply_update advance_feed_revision
  apply_update-parts u s t h = ground arith

  validate-revision :
      (s : Source) (n : ℕ) → validate d (record s { feed_revision = n }) ≡ validate d s
  unfolding validate
  validate-revision s n = refl

  -- An accepted update leaves a valid, trimmed source under the old identifier and scheduling
  -- state. Its feed revision is the old one if what the feed shows is unchanged, and the next one
  -- otherwise.
  pub apply_update-revision :
      (u : SourceUpdate) (s t : Source)
      → apply_update d u s ≡ ok t
      → (validate d t ≡ ok tt)
        × IsTrimmed t
        × (t.id ≡ s.id)
        × (t.enabled ≡ s.enabled)
        × (t.scheduling_gate ≡ s.scheduling_gate)
        × (t.next_fetch_at ≡ s.next_fetch_at)
        × ((SameFeed t s × (t.feed_revision ≡ s.feed_revision))
            ⊎ ((¬ SameFeed t s) × (t.feed_revision ≡ s.feed_revision + 1)))
  apply_update-revision u s t h =
      let v = updated_fields d u s in
      let trimmed : IsTrimmed v = record {
        book = trim-trim u.book_id;
        display = trim-trim u.display_name;
      } in
      let (valid, change) = apply_update-parts u s t h in
      elim change [
        | inl (quiet, e) ↦
            rw e (valid, trimmed, refl, refl, refl, refl, inl (unchanged-SameFeed v s quiet, refl))
        | inr (loud, e) ↦ rw e (
          validate-revision v (s.feed_revision + 1) ∙ valid,
          record { book = trimmed.book; display = trimmed.display },
          refl,
          refl,
          refl,
          refl,
          inr (
            λ f. cc (
                SameFeed-unchanged v s
                  (record { book = f.book; display = f.display; url = f.url; limit = f.limit })),
            refl,
          ),
        )
      ]

  settled : Source → Source → Result SourceError Source
  settled updated s = elim (validate d updated) [
    | err e ↦ err e
    | ok _ ↦ if feed_visible_change d updated s then advance_feed_revision d updated else ok updated
  ]

  settled_self : (s : Source) → validate d s ≡ ok tt → settled s s ≡ ok s
  unfolding settled
  settled_self s v =
      let quiet =
        SameFeed-unchanged s s (record { book = refl; display = refl; url = refl; limit = refl }) in
      rw (v, quiet, settled) refl

  apply_update-same :
      (u : SourceUpdate) (s : Source)
      → updated_fields d u s ≡ s
      → validate d s ≡ ok tt
      → apply_update d u s ≡ ok s
  unfolding apply_update settled
  apply_update-same u s same v = ap (λ x. settled x s) same ∙ settled_self s v

  -- A patch that changes nothing gives a valid, trimmed source back as it was.
  pub apply_patch-empty :
      (s : Source)
      → validate d s ≡ ok tt
      → IsTrimmed s
      → apply_patch d
          (record {
            book_id = none;
            display_name = none;
            article_url = none;
            sync_interval = none;
            rss_item_limit = none;
            account_id = none;
            priority = none;
            max_attempts = none;
          })
          s
        ≡ ok s
  unfolding apply_patch
  apply_patch-empty s v t =
      let same : updated_fields d (unpatched s) s ≡ s = ground (arith, t.book, t.display) in
      apply_update-same (unpatched s) s same v
