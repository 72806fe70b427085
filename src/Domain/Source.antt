-- ===== src/Domain/Source.antt =====
-- RSS sources, src/domain/source.rs. UUIDs, instants and durations are as in Domain/Job; a verified
-- article URL is its text, and parsing one is left to the `url` crate.
pub mod Revisions
use werrss.Common.{
  ℕ, ◌+◌, ℤ, compareℤ, Ordering, is_positive, Bool, true, false, not, ◌||◌, Option, none, some,
  Text, codes, text_eq, trim, is_empty, ltb, ◌==◌, if◌then◌else◌, Result, ok, err,
}

pub data SourceError : Type 0 where
  invalid_id empty_book_id empty_display_name empty_article_url : SourceError
  invalid_article_url invalid_sync_interval invalid_rss_item_limit : SourceError
  invalid_max_attempts invalid_account_id invalid_scheduling_gate : SourceError
  feed_revision_exhausted invalid_revision : SourceError

pub data SchedulingGate : Type 0 where
  ready authentication_required risk_controlled : SchedulingGate

unfoldable pub is_automatically_eligible : SchedulingGate → Bool
is_automatically_eligible ready = true
is_automatically_eligible _ = false

unfoldable pub gate_as_str : SchedulingGate → Text
gate_as_str ready = codes "ready"
gate_as_str authentication_required = codes "authentication_required"
gate_as_str risk_controlled = codes "risk_controlled"

unfoldable pub gate_from_str : Text → Result SourceError SchedulingGate
unfolding text_eq
gate_from_str value =
    if text_eq value (codes "ready")
    then ok ready
    else if text_eq value (codes "authentication_required")
    then ok authentication_required
    else if text_eq value (codes "risk_controlled")
    then ok risk_controlled
    else err invalid_scheduling_gate

-- `FeedRevision` is a `u64`; `next` is its checked successor.
abbrev pub u64_max : ℕ
u64_max = 18446744073709551615

unfoldable pub next : ℕ → Option ℕ
next revision = if ltb revision u64_max then some (revision + 1) else none

pub record NewSource : Type 0 where
  pub id : ℕ
  pub book_id : Text
  pub display_name : Text
  pub article_url : Option Text
  pub enabled : Bool
  pub sync_interval : ℤ
  pub rss_item_limit : ℕ
  pub account_id : Option ℕ
  pub scheduling_gate : SchedulingGate
  pub next_fetch_at : ℕ
  pub priority : ℤ
  pub max_attempts : ℕ

pub record SourceUpdate : Type 0 where
  pub book_id : Text
  pub display_name : Text
  pub article_url : Option Text
  pub sync_interval : ℤ
  pub rss_item_limit : ℕ
  pub account_id : Option ℕ
  pub priority : ℤ
  pub max_attempts : ℕ

pub record SourcePatch : Type 0 where
  pub book_id : Option Text
  pub display_name : Option Text
  pub article_url : Option (Option Text)
  pub sync_interval : Option ℤ
  pub rss_item_limit : Option ℕ
  pub account_id : Option (Option ℕ)
  pub priority : Option ℤ
  pub max_attempts : Option ℕ

-- `SourceParts` has the same fields.
pub record Source : Type 0 where
  pub id : ℕ
  pub book_id : Text
  pub display_name : Text
  pub article_url : Option Text
  pub enabled : Bool
  pub sync_interval : ℤ
  pub rss_item_limit : ℕ
  pub account_id : Option ℕ
  pub scheduling_gate : SchedulingGate
  pub feed_revision : ℕ
  pub next_fetch_at : ℕ
  pub failure_cooldown_until : Option ℕ
  pub schedule_reserved_until : Option ℕ
  pub priority : ℤ
  pub max_attempts : ℕ

-- chrono's `Duration::num_seconds` and `Duration::seconds`, which are not part of the repository.
pub record Durations : Type 0 where
  pub num_seconds : ℤ → ℤ
  pub seconds : ℤ → ℤ

abbrev eqℤ : ℤ → ℤ → Bool
eqℤ a b = elim (compareℤ a b) [ Ordering.eq ↦ true | _ ↦ false ]

abbrev pub opt_text_same : Option Text → Option Text → Bool
opt_text_same none none = true
opt_text_same none (some t) = false
opt_text_same (some s) none = false
opt_text_same (some s) (some t) = text_eq s t

abbrev is_nil_some : Option ℕ → Bool
is_nil_some none = false
is_nil_some (some id) = id == 0

module _ (d : Durations) where
  unfoldable pub validate : Source → Result SourceError (Unit {0})
  validate self =
      if self.id == 0
      then err invalid_id
      else if is_empty self.book_id
      then err empty_book_id
      else if is_empty self.display_name
      then err empty_display_name
      else if not (is_positive self.sync_interval)
      then err invalid_sync_interval
      else if not (eqℤ self.sync_interval (d.seconds (d.num_seconds self.sync_interval)))
      then err invalid_sync_interval
      else if self.rss_item_limit == 0
      then err invalid_rss_item_limit
      else if self.max_attempts == 0
      then err invalid_max_attempts
      else if is_nil_some self.account_id
      then err invalid_account_id
      else ok tt

  unfoldable pub from_parts : Source → Result SourceError Source
  from_parts parts = elim (validate parts) [ ok _ ↦ ok parts | err e ↦ err e ]

  unfoldable pub new : NewSource → Result SourceError Source
  unfolding from_parts
  new spec = from_parts (record {
    id = spec.id;
    book_id = trim spec.book_id;
    display_name = trim spec.display_name;
    article_url = spec.article_url;
    enabled = spec.enabled;
    sync_interval = spec.sync_interval;
    rss_item_limit = spec.rss_item_limit;
    account_id = spec.account_id;
    scheduling_gate = spec.scheduling_gate;
    feed_revision = 0;
    next_fetch_at = spec.next_fetch_at;
    failure_cooldown_until = none;
    schedule_reserved_until = none;
    priority = spec.priority;
    max_attempts = spec.max_attempts;
  })

  -- `advance_feed_revision`.
  unfoldable pub advance_feed_revision : Source → Result SourceError Source
  unfolding next
  advance_feed_revision self = elim (next self.feed_revision) [
    | none ↦ err feed_revision_exhausted
    | some revision ↦ ok (record self { feed_revision = revision })
  ]

  abbrev pub updated_fields : SourceUpdate → Source → Source
  updated_fields update self = record self {
    book_id = trim update.book_id;
    display_name = trim update.display_name;
    article_url = update.article_url;
    sync_interval = update.sync_interval;
    rss_item_limit = update.rss_item_limit;
    account_id = update.account_id;
    priority = update.priority;
    max_attempts = update.max_attempts;
  }

  unfoldable pub feed_visible_change : Source → Source → Bool
  feed_visible_change updated self =
      not (text_eq updated.book_id self.book_id)
      || (not (text_eq updated.display_name self.display_name)
          || (not (opt_text_same updated.article_url self.article_url)
              || not (updated.rss_item_limit == self.rss_item_limit)))

  unfoldable pub apply_update : SourceUpdate → Source → Result SourceError Source
  apply_update update self =
      let updated = updated_fields update self in
      elim (validate updated) [
        | err e ↦ err e
        | ok _ ↦
            if feed_visible_change updated self then advance_feed_revision updated else ok updated
      ]

  abbrev or_else : {A : Type 0} → Option A → A → A
  or_else none a = a
  or_else (some b) a = b

  unfoldable pub apply_patch : SourcePatch → Source → Result SourceError Source
  apply_patch patch self =
      apply_update
        (record {
          book_id = or_else patch.book_id self.book_id;
          display_name = or_else patch.display_name self.display_name;
          article_url = or_else patch.article_url self.article_url;
          sync_interval = or_else patch.sync_interval self.sync_interval;
          rss_item_limit = or_else patch.rss_item_limit self.rss_item_limit;
          account_id = or_else patch.account_id self.account_id;
          priority = or_else patch.priority self.priority;
          max_attempts = or_else patch.max_attempts self.max_attempts;
        })
        self
