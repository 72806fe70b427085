-- ===== src/Persistence/JobStore/Batches.antt =====
-- The order in which expired leases are recovered: the laws of the sort and of the batch limit in
-- src/persistence/repositories/job_repository.rs.
use werrss.Common.{
  ℕ, zero, suc, ◌≤◌, ◌≡◌, refl, List, [], ◌∷◌, ◌++◌, Bool, true, false, ◌==◌, if◌then◌else◌, All,
  leb, length, take, drop, take-append-drop, Bool-cases, inl, inr, arith, ap,
}
use mathlib.Core.List.{Perm}
use mathlib.Core.List.Perm
use werrss.Persistence.JobStore.Table.{Store}
use werrss.Persistence.JobStore.Operations.{insert_by_key, sort_by_key, expired_candidates}

abbrev pub member : ℕ → List (ℕ × ℕ) → Bool
member id [] = false
member id ((k, until) ∷ xs) = if k == id then true else member id xs

pub member-insert_by_key :
    (id : ℕ) (x : ℕ × ℕ) (xs : List (ℕ × ℕ))
    → member id (insert_by_key x xs) ≡ (if x.0 == id then true else member id xs)
unfolding insert_by_key
member-insert_by_key id x [] = refl
member-insert_by_key id x (y ∷ ys) = ground (arith, member-insert_by_key id x ys)

pub member-sort_by_key : (id : ℕ) (xs : List (ℕ × ℕ)) → member id (sort_by_key xs) ≡ member id xs
unfolding sort_by_key
member-sort_by_key id [] = refl
member-sort_by_key id (x ∷ xs) =
    ground (arith, member-insert_by_key id x (sort_by_key xs), member-sort_by_key id xs)

pub length-insert_by_key :
    (x : ℕ × ℕ) (xs : List (ℕ × ℕ)) → length (insert_by_key x xs) ≡ suc (length xs)
unfolding insert_by_key
length-insert_by_key x [] = refl
length-insert_by_key x (y ∷ ys) = ground (arith, length-insert_by_key x ys)

pub length-sort_by_key : (xs : List (ℕ × ℕ)) → length (sort_by_key xs) ≡ length xs
unfolding sort_by_key
length-sort_by_key [] = refl
length-sort_by_key (x ∷ xs) =
    omega (arith, length-insert_by_key x (sort_by_key xs), length-sort_by_key xs)

pub take-all : (n : ℕ) (xs : List (ℕ × ℕ)) → length xs ≤ n → take n xs ≡ xs
take-all zero [] h = refl
take-all zero (x ∷ xs) h = absurd (omega arith)
take-all (suc n) [] h = refl
take-all (suc n) (x ∷ xs) h = ap (◌∷◌ x) (take-all n xs (omega arith))

pub length-take_le : (n : ℕ) (xs : List (ℕ × ℕ)) → length (take n xs) ≤ n
length-take_le zero xs = omega arith
length-take_le (suc n) [] = omega arith
length-take_le (suc n) (x ∷ xs) = omega (arith, length-take_le n xs)

pub member-take :
    (id n : ℕ) (xs : List (ℕ × ℕ)) → member id (take n xs) ≡ true → member id xs ≡ true
member-take id zero xs h = absurd (cc)
member-take id (suc n) [] h = h
member-take id (suc n) (x ∷ xs) h = ground (arith, member-take id n xs)

perm-insert_by_key : (x : ℕ × ℕ) (xs : List (ℕ × ℕ)) → Perm (insert_by_key x xs) (x ∷ xs)
unfolding insert_by_key
perm-insert_by_key x [] = Perm.refl (x ∷ [])
perm-insert_by_key x (y ∷ ys) = elim (Bool-cases (leb x.1 y.1)) [
  | inl first ↦ rw first (Perm.refl (x ∷ y ∷ ys))
  | inr later ↦ rw later (Perm.trans (Perm.cons y (perm-insert_by_key x ys)) (Perm.swap x y ys))
]

perm-sort_by_key : (xs : List (ℕ × ℕ)) → Perm (sort_by_key xs) xs
unfolding sort_by_key
perm-sort_by_key [] = Perm.nil
perm-sort_by_key (x ∷ xs) =
    Perm.trans (perm-insert_by_key x (sort_by_key xs)) (Perm.cons x (perm-sort_by_key xs))

-- Each entry comes no later than those behind it.
abbrev pub IsSorted : List (ℕ × ℕ) → Type 0
IsSorted [] = Unit {0}
IsSorted (x ∷ xs) = All (λ y. x.1 ≤ y.1) xs × IsSorted xs

All-weaken : (a b : ℕ) (xs : List (ℕ × ℕ)) → a ≤ b → All (λ y. b ≤ y.1) xs → All (λ y. a ≤ y.1) xs
All-weaken a b [] h p = tt
All-weaken a b (x ∷ xs) h p = (omega arith, All-weaken a b xs h p.1)

All-insert_by_key :
    (a : ℕ) (x : ℕ × ℕ) (xs : List (ℕ × ℕ))
    → a ≤ x.1
    → All (λ y. a ≤ y.1) xs
    → All (λ y. a ≤ y.1) (insert_by_key x xs)
unfolding insert_by_key
All-insert_by_key a x [] h p = (h, tt)
All-insert_by_key a x (y ∷ ys) h p = elim (Bool-cases (leb x.1 y.1)) [
  | inl first ↦ rw first (h, p)
  | inr later ↦ rw later (p.0, All-insert_by_key a x ys h p.1)
]

insert_by_key-IsSorted :
    (x : ℕ × ℕ) (xs : List (ℕ × ℕ)) → IsSorted xs → IsSorted (insert_by_key x xs)
unfolding insert_by_key
insert_by_key-IsSorted x [] s = (tt, tt)
insert_by_key-IsSorted x (y ∷ ys) s = elim (Bool-cases (leb x.1 y.1)) [
  | inl first ↦ let h : x.1 ≤ y.1 = ground arith in rw first ((h, All-weaken x.1 y.1 ys h s.0), s)
  | inr later ↦
      rw later (All-insert_by_key y.1 x ys (ground arith) s.0, insert_by_key-IsSorted x ys s.1)
]

sort_by_key-IsSorted : (xs : List (ℕ × ℕ)) → IsSorted (sort_by_key xs)
unfolding sort_by_key
sort_by_key-IsSorted [] = tt
sort_by_key-IsSorted (x ∷ xs) = insert_by_key-IsSorted x (sort_by_key xs) (sort_by_key-IsSorted xs)

All-drop : (a n : ℕ) (xs : List (ℕ × ℕ)) → All (λ y. a ≤ y.1) xs → All (λ y. a ≤ y.1) (drop n xs)
All-drop a zero xs p = p
All-drop a (suc n) [] p = tt
All-drop a (suc n) (x ∷ xs) p = All-drop a n xs p.1

IsSorted-split :
    (n : ℕ) (xs : List (ℕ × ℕ))
    → IsSorted xs
    → All (λ x. All (λ y. x.1 ≤ y.1) (drop n xs)) (take n xs)
IsSorted-split zero xs s = tt
IsSorted-split (suc n) [] s = tt
IsSorted-split (suc n) (x ∷ xs) s = (All-drop x.1 n xs s.0, IsSorted-split n xs s.1)

-- The candidates of a recovery are the expired leases, split into a batch and a remainder, and no
-- lease of the batch ended after one of the remainder.
pub candidates_earliest :
    {Value : Type 0} (now limit : ℕ) (jobs : Store Value)
    → let sorted = sort_by_key (expired_candidates now jobs) in
      Perm (take limit sorted ++ drop limit sorted) (expired_candidates now jobs)
      × All (λ x. All (λ y. x.1 ≤ y.1) (drop limit sorted)) (take limit sorted)
candidates_earliest now limit jobs =
    let sorted = sort_by_key (expired_candidates now jobs) in
    (
      rw (take-append-drop limit sorted) (perm-sort_by_key (expired_candidates now jobs)),
      IsSorted-split limit sorted (sort_by_key-IsSorted (expired_candidates now jobs)),
    )
