-- ===== src/Pll.antt =====
-- The search for the factors of the system PLL, `findPllConfig` of
-- examples/lpc43xx_default/shared/board.c.
pub mod Best
pub mod Sound
mod Tests
use halm_examples.Base.{
  ℕ, zero, suc, ◌+◌, ◌-◌, ◌*◌, ◌/◌, ◌%◌, ◌^◌, Bool, true, false, ◌&&◌, Option, none, some, min, max,
  ◌==◌, leb, ltb, if◌then◌else◌, add32, sub32,
}

abbrev pub cco_min : ℕ
cco_min = 156000000

abbrev pub cco_max : ℕ
cco_max = 320000000

-- The variables of the search.
pub record Search : Type 0 where
  pub error : ℕ
  pub div : ℕ
  pub mul : ℕ
  pub found : Bool

-- `labs((long)a - (long)b)`, where `long` has 32 bits and wraps.
abbrev pub distance : ℕ → ℕ → ℕ
distance a b = let x = sub32 a b in if ltb x (2 ^ 31) then x else 2 ^ 32 - x

-- A result of type `long`, by its sign; LONG_MAX is `none`.
pub data Difference : Type 0 where
  above below : ℕ → Difference

-- `(long)a - (long)b` in the same way.
abbrev pub difference : ℕ → ℕ → Difference
difference a b = let x = sub32 a b in if ltb x (2 ^ 31) then above x else below (2 ^ 32 - x)

-- `countLeadingZeros32` comes with the xcore library.
module _ (count_leading_zeros : ℕ → ℕ) (input target : ℕ) where
  abbrev pub lower_mul : ℕ
  lower_mul = max 1 (sub32 (add32 cco_min input) 1 / input)

  abbrev pub upper_mul : ℕ
  upper_mul = min 256 (cco_max / input)

  abbrev pub cco_frequency : ℕ → ℕ
  cco_frequency m = m * input % 2 ^ 32

  abbrev pub upper_div : ℕ → ℕ
  upper_div m = min 32 (sub32 (add32 (cco_frequency m) target) 1 / target)

  abbrev pub first_div : ℕ → ℕ
  first_div m = 2 ^ (31 - count_leading_zeros (max 1 (cco_frequency m / target)))

  -- `currentError` of a pair of factors
  abbrev pub gap : (m d : ℕ) → ℕ
  gap m d = distance (cco_frequency m / d) target

  unfoldable pub consider : (m d : ℕ) → Search → Search
  consider m d s =
      if ltb (gap m d) s.error
      then record { error = gap m d; div = d; mul = m; found = true }
      else s

  -- The loop over the divisors, which ends with `break` at an error of 0.
  unfoldable pub try_divisors : (rounds m d : ℕ) → Search → Search
  try_divisors zero m d s = s
  try_divisors (suc rounds) m d s =
      let rest = try_divisors rounds m (d * 2) (consider m d s) in
      if leb d (upper_div m)
      then if ltb (gap m d) s.error && (gap m d == 0) then consider m d s else rest
      else s

  -- The loop over the multipliers. No divisor is above 32, so that six rounds reach all of them.
  unfoldable pub try_multipliers : (rounds m : ℕ) → Search → Search
  try_multipliers zero m s = s
  try_multipliers (suc rounds) m s =
      let s' = try_divisors 6 m (first_div m) s in
      let rest = try_multipliers rounds (m + 1) s' in if s'.error == 0 then s' else rest

  unfoldable pub search_factors : (div mul : ℕ) → Search
  search_factors div mul =
      try_multipliers (upper_mul + 1 - lower_mul) lower_mul
        (record { error = 2 ^ 32 - 1; div = div; mul = mul; found = false })

  -- The factors, which stay as they were where none are found, and the result.
  unfoldable pub find_pll_config : (div mul : ℕ) → Option Difference × ℕ × ℕ
  find_pll_config div mul =
      let s = search_factors div mul in
      (
        if s.found then some (difference (s.mul * input % 2 ^ 32 / s.div) target) else none,
        s.div,
        s.mul,
      )
