-- ===== src/Acquisition/Pacing.antt =====
-- The bounded article scroll, src/acquisition/pacing.rs. Every operation on `u32` that can fail at
-- run time is written as an option: a subtraction or a product out of range, an empty random range.
pub mod Bounds
use werrss.Common.{
  ℕ, zero, suc, ◌+◌, ◌-◌, ◌*◌, ◌/◌, Option, none, some, List, [], ◌∷◌, ltb, leb, ◌==◌,
  if◌then◌else◌,
}
use werrss.Domain.Pacing.{PacingPolicy, distribution, scroll_settle}

-- rand's generator, which is not part of the repository: a draw from `low..=high`, and the sample of
-- a delay distribution, each with the generator after it.
pub record Generator (Distribution : Type 0) : Type 1 where
  pub Rng : Type 0
  pub range : ℕ → ℕ → Rng → ℕ × Rng
  pub sample : Distribution → Rng → ℕ × Rng

pub record ScrollStep : Type 0 where
  pub distance : ℕ
  pub settle : ℕ

abbrev pub u32_max : ℕ
u32_max = 4294967295

abbrev pub min : ℕ → ℕ → ℕ
min a b = if leb a b then a else b

abbrev pub max : ℕ → ℕ → ℕ
max a b = if leb a b then b else a

abbrev pub checked_mul : ℕ → ℕ → Option ℕ
checked_mul a b = if leb (a * b) u32_max then some (a * b) else none

abbrev pub checked_sub : ℕ → ℕ → Option ℕ
checked_sub a b = if leb b a then some (a - b) else none

unfoldable pub minimum_distance : ℕ → ℕ → ℕ
minimum_distance viewport max_pixels = min (max (viewport / 2) 1) max_pixels

unfoldable pub maximum_steps : ℕ → ℕ → ℕ → ℕ
maximum_steps max_steps max_pixels minimum = max (min max_steps (max_pixels / minimum)) 1

unfoldable pub maximum_distance : ℕ → ℕ → ℕ → ℕ → ℕ
maximum_distance remaining reserved viewport minimum =
    max (min (remaining - reserved) viewport) minimum

module _ {Distribution : Type 0} (g : Generator Distribution) where
  open g use {Rng, range, sample}

  -- `random_range(low..=high)`, which panics on an empty range.
  abbrev pub random_range : ℕ → ℕ → Rng → Option (ℕ × Rng)
  random_range low high rng = if leb low high then some (range low high rng) else none

  -- The rounds of the loop that are left, the last of which reserves nothing.
  unfoldable pub scroll_loop : Distribution → ℕ → ℕ → ℕ → ℕ → Rng → Option (List ScrollStep × Rng)
  scroll_loop settle_delay minimum viewport zero remaining rng = some ([], rng)
  scroll_loop settle_delay minimum viewport (suc left) remaining rng =
      elim (checked_mul left minimum) [
        | none ↦ none
        | some reserved ↦
            elim (random_range minimum (maximum_distance remaining reserved viewport minimum) rng) [
              | none ↦ none
              | some (distance, drawn) ↦ elim (checked_sub remaining distance) [
                | none ↦ none
                | some rest ↦
                    let settled = sample settle_delay drawn in
                    elim (scroll_loop settle_delay minimum viewport left rest settled.1) [
                      | none ↦ none
                      | some (steps, after) ↦
                          some (record { distance = distance; settle = settled.0 } ∷ steps, after)
                    ]
              ]
            ]
      ]

  unfoldable pub scroll_plan : PacingPolicy Distribution → ℕ → Rng → Option (List ScrollStep × Rng)
  unfolding scroll_loop
  scroll_plan policy viewport_height rng =
      let viewport = max viewport_height 1 in
      let minimum = minimum_distance viewport policy.max_scroll_pixels in
      let steps = maximum_steps policy.max_scroll_steps policy.max_scroll_pixels minimum in
      elim (random_range 1 steps rng) [
        | none ↦ none
        | some (count, drawn) ↦
            scroll_loop (distribution policy scroll_settle) minimum viewport count
              policy.max_scroll_pixels drawn
      ]
