-- ===== src/Domain/Pacing/Quiet.antt =====
-- The end of quiet hours, src/domain/pacing.rs.
use werrss.Common.{
  ℕ, ◌≤◌, ◌<◌, ◌≡◌, refl, ◌≢◌, ◌⊎◌, true, false, Option, none, some, ok, Bool-cases, inl, inr,
  arith, subst, sym, ltb, ◌||◌,
}
use werrss.Domain.Pacing.{
  LocalResult, single, ambiguous, missing, Zone, QuietHours, new_quiet_hours, is_quiet_at,
  next_allowed_at, later, end_on,
}

-- What chrono documents of `from_local_datetime`: an instant that it gives shows that local time.
pub record ReadsBack (z : Zone) : Type 0 where
  pub once :
      (date time instant : ℕ) → z.from_local date time ≡ single instant → z.time_of instant ≡ time
  pub twice :
      (date time first second : ℕ)
      → z.from_local date time ≡ ambiguous first second
      → (z.time_of first ≡ time) × (z.time_of second ≡ time)

LocalResult-cases :
    (r : LocalResult)
    → ((i : ℕ) × (r ≡ single i)) ⊎ (((a : ℕ) × (b : ℕ) × (r ≡ ambiguous a b)) ⊎ (r ≡ missing))
LocalResult-cases (single i) = inl (i, refl)
LocalResult-cases (ambiguous a b) = inr (inl (a, b, refl))
LocalResult-cases missing = inr (inr refl)

end-not_quiet :
    (q : QuietHours) (next : ℕ)
    → q.start ≢ q.end
    → q.timezone.time_of next ≡ q.end
    → is_quiet_at q next ≡ false
unfolding is_quiet_at
end-not_quiet q next d e = ground arith

-- `next` is the instant of a local time, the later one of two.
abbrev pub IsLatest : LocalResult → (next : ℕ) → Type 0
IsLatest r next =
    (r ≡ single next)
    ⊎ ((first : ℕ) × (second : ℕ) × (r ≡ ambiguous first second)
        × (first ≤ next)
        × (second ≤ next)
        × ((next ≡ first) ⊎ (next ≡ second)))

-- The hours end on the instant's own date: they do not span midnight, or it has passed.
abbrev pub EndsToday : QuietHours → (instant : ℕ) → Type 0
EndsToday q instant = (q.start < q.end) ⊎ (q.timezone.time_of instant < q.end)

-- The hours span midnight, which the instant is before.
abbrev pub EndsTomorrow : QuietHours → (instant : ℕ) → Type 0
EndsTomorrow q instant = (q.end ≤ q.start) × (q.end ≤ q.timezone.time_of instant)

-- The date on which the hours around an instant end, if there is one.
abbrev pub IsEndDate : QuietHours → (instant : ℕ) → Option ℕ → Type 0
IsEndDate q instant date =
    (EndsToday q instant × (date ≡ some (q.timezone.date_of instant)))
    ⊎ (EndsTomorrow q instant × (q.timezone.succ_opt (q.timezone.date_of instant) ≡ date))

-- What the next allowed instant is, and why there is none.
abbrev pub Answers : QuietHours → (instant : ℕ) → Option ℕ → Type 0
Answers q instant (some next) =
    (is_quiet_at q next ≡ false)
    × (((is_quiet_at q instant ≡ false) × (next ≡ instant))
        ⊎ ((is_quiet_at q instant ≡ true)
            × (q.timezone.time_of next ≡ q.end)
            × ((date : ℕ) × IsEndDate q instant (some date)
                × IsLatest (q.timezone.from_local date q.end) next)))
Answers q instant none =
    (is_quiet_at q instant ≡ true)
    × (IsEndDate q instant none
        ⊎ ((date : ℕ) × IsEndDate q instant (some date)
            × (q.timezone.from_local date q.end ≡ missing)))

latest-time :
    (z : Zone) (date time next : ℕ)
    → ReadsBack z
    → IsLatest (z.from_local date time) next
    → z.time_of next ≡ time
latest-time z date time next r (inl e) = r.once date time next e
latest-time z date time next r (inr (a, b, e, above_a, above_b, either)) =
    let both = r.twice date time a b e in ground arith

-- What the end of the hours on a date answers.
end_on-Answers :
    (q : QuietHours) (instant : ℕ) (date : Option ℕ)
    → ReadsBack q.timezone
    → q.start ≢ q.end
    → is_quiet_at q instant ≡ true
    → IsEndDate q instant date
    → Answers q instant (end_on q date)
end_on-Answers q instant none r apart quiet is_end = (quiet, inl is_end)
end_on-Answers q instant (some date) r apart quiet is_end =
    elim (LocalResult-cases (q.timezone.from_local date q.end)) [
      | inl (next, e) ↦
          let at_end = r.once date q.end next e in
          rw e (end-not_quiet q next apart at_end, inr (quiet, at_end, (date, is_end, inl e)))
      | inr (inl (a, b, e)) ↦
          let next = later a b in
          let is_latest : IsLatest (q.timezone.from_local date q.end) next =
            inr (a, b, e, ground arith, ground arith, ground arith) in
          let at_end = latest-time q.timezone date q.end next r is_latest in
          rw e (end-not_quiet q next apart at_end, inr (quiet, at_end, (date, is_end, is_latest)))
      | inr (inr e) ↦ rw e (quiet, inr (date, is_end, e))
    ]

-- With a time zone that reads back and hours that `new` accepts, an instant outside the hours is
-- its own answer. The answer to a quiet instant shows the end of the hours, on the date of the
-- instant if the hours do not span midnight or it has passed, and else on the next; it is the
-- later one where two instants show it, and is not quiet. There is no answer only to a quiet
-- instant without such a date or where no instant shows its end.
pub next_allowed_at-not_quiet :
    (z : Zone) (start end instant : ℕ) (q : QuietHours)
    → ReadsBack z
    → new_quiet_hours z start end ≡ ok q
    → Answers q instant (next_allowed_at q instant)
unfolding new_quiet_hours next_allowed_at
next_allowed_at-not_quiet z start end instant q r n =
    let made : q ≡ record { timezone = z; start = start; end = end } = ground arith in
    let apart : q.start ≢ q.end = ground arith in
    let reads : ReadsBack q.timezone = subst (λ q'. ReadsBack q'.timezone) (sym made) r in
    let today = q.timezone.date_of instant in
    elim (Bool-cases (is_quiet_at q instant)) [
      | inr calm ↦
          let own : next_allowed_at q instant ≡ some instant = ground arith in
          subst (Answers q instant) (sym own) (calm, inl (calm, refl))
      | inl quiet ↦
          elim (Bool-cases (ltb q.start q.end || ltb (q.timezone.time_of instant) q.end)) [
            | inl same_day ↦
                rw (quiet, same_day, next_allowed_at)
                  (end_on-Answers q instant (some today) reads apart quiet
                    (inl (ground arith, refl)))
            | inr next_day ↦
                rw (quiet, next_day, next_allowed_at)
                  (end_on-Answers q instant (q.timezone.succ_opt today) reads apart quiet
                    (inr (ground arith, refl)))
          ]
    ]
