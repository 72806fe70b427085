-- ===== src/Persistence/JobStore/Order.antt =====
-- The claim order of src/persistence/repositories/job_repository.rs: higher priority first, then
-- the earlier due instant, the earlier creation, the smaller identifier.
use werrss.Common.{ℤ, compareℤ, compare, Ordering, ◌≡◌, ◌≢◌, arith}
use werrss.Domain.Job.{Job}
use werrss.Persistence.JobStore.Operations.{claim_order, then_with}

-- A comparison that orders its arguments.
pub record IsOrder {A : Type 0} (cmp : A → A → Ordering) : Type 0 where
  pub flip : (a b : A) → cmp a b ≡ Ordering.gt → cmp b a ≡ Ordering.lt
  pub lt_trans : (a b c : A) → cmp a b ≡ Ordering.lt → cmp b c ≢ Ordering.gt → cmp a c ≡ Ordering.lt
  pub trans_lt : (a b c : A) → cmp a b ≢ Ordering.gt → cmp b c ≡ Ordering.lt → cmp a c ≡ Ordering.lt
  pub eq_trans : (a b c : A) → cmp a b ≡ Ordering.eq → cmp b c ≡ Ordering.eq → cmp a c ≡ Ordering.eq
  pub eq_flip : (a b : A) → cmp a b ≡ Ordering.eq → cmp b a ≡ Ordering.eq

compare-IsOrder : IsOrder compare
compare-IsOrder = record {
  flip = λ a b h. ground arith;
  lt_trans = λ a b c h k. ground arith;
  trans_lt = λ a b c h k. ground arith;
  eq_trans = λ a b c h k. ground arith;
  eq_flip = λ a b h. ground arith;
}

compareℤ-flip : (a b : ℤ) → compareℤ a b ≡ Ordering.gt → compareℤ b a ≡ Ordering.lt
compareℤ-flip a b h = ground arith

compareℤ-lt_trans :
    (a b c : ℤ)
    → compareℤ a b ≡ Ordering.lt
    → compareℤ b c ≢ Ordering.gt
    → compareℤ a c ≡ Ordering.lt
compareℤ-lt_trans a b c h k = ground arith

compareℤ-trans_lt :
    (a b c : ℤ)
    → compareℤ a b ≢ Ordering.gt
    → compareℤ b c ≡ Ordering.lt
    → compareℤ a c ≡ Ordering.lt
compareℤ-trans_lt a b c h k = ground arith

compareℤ-eq_trans :
    (a b c : ℤ)
    → compareℤ a b ≡ Ordering.eq
    → compareℤ b c ≡ Ordering.eq
    → compareℤ a c ≡ Ordering.eq
compareℤ-eq_trans a b c h k = ground arith

compareℤ-eq_flip : (a b : ℤ) → compareℤ a b ≡ Ordering.eq → compareℤ b a ≡ Ordering.eq
compareℤ-eq_flip a b h = ground arith

compareℤ-IsOrder : IsOrder compareℤ
compareℤ-IsOrder = record {
  flip = compareℤ-flip;
  lt_trans = compareℤ-lt_trans;
  trans_lt = compareℤ-trans_lt;
  eq_trans = compareℤ-eq_trans;
  eq_flip = compareℤ-eq_flip;
}

reverse-IsOrder : {A : Type 0} (cmp : A → A → Ordering) → IsOrder cmp → IsOrder (λ a b. cmp b a)
reverse-IsOrder cmp o = record {
  flip = λ a b h. o.flip b a h;
  lt_trans = λ a b c h k. o.trans_lt c b a k h;
  trans_lt = λ a b c h k. o.lt_trans c b a k h;
  eq_trans = λ a b c h k. o.eq_trans c b a k h;
  eq_flip = λ a b h. o.eq_flip b a h;
}

on-IsOrder :
    {A B : Type 0} (cmp : B → B → Ordering) (f : A → B)
    → IsOrder cmp
    → IsOrder (λ (a b : A). cmp (f a) (f b))
on-IsOrder cmp f o = record {
  flip = λ a b h. o.flip (f a) (f b) h;
  lt_trans = λ a b c h k. o.lt_trans (f a) (f b) (f c) h k;
  trans_lt = λ a b c h k. o.trans_lt (f a) (f b) (f c) h k;
  eq_trans = λ a b c h k. o.eq_trans (f a) (f b) (f c) h k;
  eq_flip = λ a b h. o.eq_flip (f a) (f b) h;
}

then-IsOrder :
    {A : Type 0} (c d : A → A → Ordering)
    → IsOrder c
    → IsOrder d
    → IsOrder (λ a b. then_with (c a b) (d a b))
then-IsOrder cmp d o p = record {
  flip = λ a b h. ground (arith, o.flip a b, o.eq_flip a b, p.flip a b);
  lt_trans = λ a b c h k.
      ground (arith, o.lt_trans a b c, o.trans_lt a b c, o.eq_trans a b c, p.lt_trans a b c);
  trans_lt = λ a b c h k.
      ground (arith, o.lt_trans a b c, o.trans_lt a b c, o.eq_trans a b c, p.trans_lt a b c);
  eq_trans = λ a b c h k. ground (arith, o.eq_trans a b c, p.eq_trans a b c);
  eq_flip = λ a b h. ground (arith, o.eq_flip a b, p.eq_flip a b);
}

module _ {Value : Type 0} where
  pub claim_order-IsOrder : IsOrder (claim_order {Value = Value})
  unfolding claim_order
  claim_order-IsOrder =
      then-IsOrder _ _
        (reverse-IsOrder _ (on-IsOrder compareℤ (λ (j : Job Value). j.priority) compareℤ-IsOrder))
        (then-IsOrder _ _ (on-IsOrder compare (λ (j : Job Value). j.run_after) compare-IsOrder) (
          then-IsOrder _ _ (on-IsOrder compare (λ (j : Job Value). j.created_at) compare-IsOrder)
            (on-IsOrder compare (λ (j : Job Value). j.id) compare-IsOrder)))

  claim_order-eq_id : (j k : Job Value) → claim_order j k ≡ Ordering.eq → j.id ≡ k.id
  unfolding claim_order
  claim_order-eq_id j k h = ground arith
