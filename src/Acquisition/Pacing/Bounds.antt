-- ===== src/Acquisition/Pacing/Bounds.antt =====
-- The bounds of scroll plans, src/acquisition/pacing.rs.
use werrss.Common.{
  ℕ, zero, suc, ◌+◌, ◌-◌, ◌*◌, ◌/◌, ◌≤◌, ◌<◌, ◌≡◌, refl, true, Option, none, some, List, [], ◌∷◌,
  leb, length, All, arith, ap, sym, subst, ok, Bool-cases, inl, inr,
}
use werrss.Domain.Pacing.{PacingPolicy, new_policy, distribution, scroll_settle}
use werrss.Acquisition.Pacing.{
  Generator, ScrollStep, u32_max, min, max, minimum_distance, maximum_steps, maximum_distance,
  scroll_loop, scroll_plan,
}

-- What rand documents: a draw lies in its range.
pub record InRange {Distribution : Type 0} (g : Generator Distribution) : Type 0 where
  pub bounds :
      (low high : ℕ) (rng : g.Rng)
      → low ≤ high
      → (low ≤ (g.range low high rng).0) × ((g.range low high rng).0 ≤ high)

abbrev pub total : List ScrollStep → ℕ
total [] = 0
total (s ∷ steps) = s.distance + total steps

-- The division's two facts, at a divisor that is not 0.
quotient_le : (a b : ℕ) → 0 < b → a / b * b ≤ a
quotient_le a b h = grind arith

quotient_pos : (a b : ℕ) → 0 < b → b ≤ a → 1 ≤ a / b
quotient_pos a b h k = grind arith

maximum_distance_bounds :
    (remaining reserved viewport minimum : ℕ)
    → minimum + reserved ≤ remaining
    → minimum ≤ viewport
    → let m = maximum_distance remaining reserved viewport minimum in
      (minimum ≤ m) × (m + reserved ≤ remaining) × (m ≤ viewport)
unfolding maximum_distance
maximum_distance_bounds remaining reserved viewport minimum h k = ground arith

minimum_distance_bounds :
    (viewport max_pixels : ℕ)
    → 1 ≤ viewport
    → 1 ≤ max_pixels
    → let m = minimum_distance viewport max_pixels in (1 ≤ m) × (m ≤ viewport) × (m ≤ max_pixels)
unfolding minimum_distance
minimum_distance_bounds viewport max_pixels h k = ground arith

times_le : (a b m : ℕ) → a ≤ b → a * m ≤ b * m
times_le a b m h = grind arith

steps_bounds :
    (max_steps quotient minimum max_pixels : ℕ)
    → 1 ≤ max_steps
    → 1 ≤ quotient
    → quotient * minimum ≤ max_pixels
    → let s = max (min max_steps quotient) 1 in
      (1 ≤ s) × (s ≤ max_steps) × (s * minimum ≤ max_pixels)
steps_bounds max_steps quotient minimum max_pixels a b c =
    elim (Bool-cases (leb max_steps quotient)) [
      | inl fewer ↦ ground (arith, times_le max_steps quotient minimum)
      | inr more ↦ ground arith
    ]

maximum_steps_bounds :
    (max_steps max_pixels minimum : ℕ)
    → 1 ≤ max_steps
    → 1 ≤ minimum
    → minimum ≤ max_pixels
    → let s = maximum_steps max_steps max_pixels minimum in
      (1 ≤ s) × (s ≤ max_steps) × (s * minimum ≤ max_pixels)
unfolding maximum_steps
maximum_steps_bounds max_steps max_pixels minimum a b c =
    steps_bounds max_steps (max_pixels / minimum) minimum max_pixels a
      (quotient_pos max_pixels minimum b c) (quotient_le max_pixels minimum b)

-- A loop that ran to its end: its number of steps, the range of each distance, and their sum.
abbrev pub Fits : {R : Type 0} → ℕ → ℕ → ℕ → ℕ → Option (List ScrollStep × R) → Type 0
Fits rounds minimum viewport budget none = ⊥
Fits rounds minimum viewport budget (some (steps, after)) =
    (length steps ≡ rounds)
    × All (λ s. (minimum ≤ s.distance) × (s.distance ≤ viewport)) steps
    × (total steps ≤ budget)

-- A step put before the steps of a loop that ran to its end.
abbrev add_step :
    {R : Type 0} → ScrollStep → Option (List ScrollStep × R) → Option (List ScrollStep × R)
add_step s none = none
add_step s (some (steps, after)) = some (s ∷ steps, after)

add_step-Fits :
    {R : Type 0} (rounds minimum viewport rest budget : ℕ) (s : ScrollStep)
    (plan : Option (List ScrollStep × R))
    → Fits rounds minimum viewport rest plan
    → minimum ≤ s.distance
    → s.distance ≤ viewport
    → s.distance + rest ≤ budget
    → Fits (suc rounds) minimum viewport budget (add_step s plan)
add_step-Fits rounds minimum viewport rest budget s none f a b c = f
add_step-Fits rounds minimum viewport rest budget s (some (steps, after)) (n, each, sum) a b c =
    (ap suc n, ((a, b), each), omega arith)

module _ {Distribution : Type 0} (g : Generator Distribution) (lawful : InRange g) where
  scroll_loop-suc :
      (d : Distribution) (minimum viewport left remaining : ℕ) (rng : g.Rng)
      → let drawn =
          g.range minimum (maximum_distance remaining (left * minimum) viewport minimum) rng in
        let settled = g.sample d drawn.1 in
        leb (left * minimum) u32_max ≡ true
        → leb minimum (maximum_distance remaining (left * minimum) viewport minimum) ≡ true
        → leb drawn.0 remaining ≡ true
        → scroll_loop g d minimum viewport (suc left) remaining rng
          ≡ add_step
              (record { distance = drawn.0; settle = settled.0 })
              (scroll_loop g d minimum viewport left (remaining - drawn.0) settled.1)
  unfolding scroll_loop
  scroll_loop-suc d minimum viewport left remaining rng a b c = ground arith

  scroll_loop-Fits :
      (d : Distribution) (minimum viewport rounds remaining : ℕ) (rng : g.Rng)
      → rounds * minimum ≤ remaining
      → minimum ≤ viewport
      → remaining ≤ u32_max
      → Fits rounds minimum viewport remaining
          (scroll_loop g d minimum viewport rounds remaining rng)
  unfolding scroll_loop
  scroll_loop-Fits d minimum viewport zero remaining rng a b c = (refl, tt, omega arith)
  scroll_loop-Fits d minimum viewport (suc left) remaining rng a b c =
      let (low, fits, high) =
        maximum_distance_bounds remaining (left * minimum) viewport minimum (omega arith) b in
      let most = maximum_distance remaining (left * minimum) viewport minimum in
      let drawn = lawful.bounds minimum most rng low in
      let distance = (g.range minimum most rng).0 in
      let settled = g.sample d (g.range minimum most rng).1 in
      let reserved : leb (left * minimum) u32_max ≡ true = ground arith in
      let nonempty : leb minimum most ≡ true = ground arith in
      let affordable : leb distance remaining ≡ true = ground arith in
      let rest =
        scroll_loop-Fits d minimum viewport left (remaining - distance) settled.1 (ground arith) b
          (ground arith) in
      subst (Fits (suc left) minimum viewport remaining)
        (sym (scroll_loop-suc d minimum viewport left remaining rng reserved nonempty affordable))
        (add_step-Fits left minimum viewport (remaining - distance) remaining
          (record { distance = distance; settle = settled.0 })
          (scroll_loop g d minimum viewport left (remaining - distance) settled.1) rest
          (ground arith) (ground arith) (omega arith))

  scroll_plan_starts :
      (policy : PacingPolicy Distribution) (viewport_height : ℕ) (rng : g.Rng)
      → let viewport = max viewport_height 1 in
        let minimum = minimum_distance viewport policy.max_scroll_pixels in
        let most = maximum_steps policy.max_scroll_steps policy.max_scroll_pixels minimum in
        let drawn = g.range 1 most rng in
        leb 1 most ≡ true
        → scroll_plan g policy viewport_height rng
          ≡ scroll_loop g
              (distribution policy scroll_settle)
              minimum
              viewport
              drawn.0
              policy.max_scroll_pixels
              drawn.1
  unfolding scroll_plan
  scroll_plan_starts policy viewport_height rng h = ground arith

  -- With a generator that draws within its range, every policy that `PacingPolicy::new` accepts and
  -- every viewport give a plan: no subtraction or product of the loop leaves its range, and no random
  -- range is empty. The plan has between one and `max_scroll_steps` steps, each at least half of the
  -- viewport (or all of a smaller pixel limit) and at most the viewport (at least one pixel), and
  -- together they scroll no more than `max_scroll_pixels`.
  pub scroll_plan-Fits :
      (given policy : PacingPolicy Distribution) (viewport_height : ℕ) (rng : g.Rng)
      → new_policy given ≡ ok policy
      → let viewport = max viewport_height 1 in
        (rounds : ℕ) × (1 ≤ rounds)
        × (rounds ≤ policy.max_scroll_steps)
        × Fits rounds
            (min (max (viewport / 2) 1) policy.max_scroll_pixels)
            viewport
            policy.max_scroll_pixels
            (scroll_plan g policy viewport_height rng)
  unfolding scroll_plan new_policy minimum_distance
  scroll_plan-Fits given policy viewport_height rng h =
      let viewport = max viewport_height 1 in
      let pixels = policy.max_scroll_pixels in
      let accepted : (1 ≤ policy.max_scroll_steps) × (1 ≤ pixels) × (pixels ≤ u32_max) =
        ground arith in
      let (step, within, below) =
        minimum_distance_bounds viewport pixels (ground arith) accepted.1 in
      let minimum = minimum_distance viewport pixels in
      let most = maximum_steps policy.max_scroll_steps pixels minimum in
      let (some_step, few, total_fits) =
        maximum_steps_bounds policy.max_scroll_steps pixels minimum accepted.0 step below in
      let drawn = lawful.bounds 1 most rng some_step in
      let rounds = (g.range 1 most rng).0 in
      (
        rounds,
        drawn.0,
        omega arith,
        subst (Fits rounds minimum viewport pixels)
            (sym (scroll_plan_starts policy viewport_height rng (ground arith)))
            (scroll_loop-Fits (distribution policy scroll_settle) minimum viewport rounds pixels
              (g.range 1 most rng).1 (ground (arith, times_le rounds most minimum)) within
              accepted.2),
      )
