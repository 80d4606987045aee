-- ===== src/Pll/Tests.antt =====
-- The search for PLL factors at a concrete frequency.
use halm_examples.Base.{
  ℕ, zero, suc, ◌+◌, ◌*◌, ◌/◌, ◌^◌, ◌≤◌, ◌≡◌, refl, some, arith, ltb, if◌then◌else◌,
}
use halm_examples.Pll.{
  above, find_pll_config, search_factors, try_multipliers, try_divisors, consider, cco_min, cco_max,
}
use halm_examples.Pll.Sound.{IsPair, exact_distance, exact_difference, find_pll_config-best}

-- The zeros before the highest bit of a word of `n` bits.
abbrev leading_zeros : ℕ → ℕ → ℕ
leading_zeros zero x = 0
leading_zeros (suc n) x = if ltb x (2 ^ n) then 1 + leading_zeros n x else 0

abbrev clz : ℕ → ℕ
clz x = leading_zeros 32 x

-- A crystal of 12 MHz and a target of 48 MHz.
find_test : find_pll_config clz 12000000 48000000 2 17 ≡ (some (above 0), 4, 16)
unfolding find_pll_config search_factors try_multipliers try_divisors consider
find_test = refl

find_pll_config-best_example :
    IsPair clz 12000000 48000000 16 4
    × (cco_min ≤ 16 * 12000000)
    × (16 * 12000000 ≤ cco_max)
    × (above 0 ≡ exact_difference (16 * 12000000 / 4) 48000000)
    × (exact_distance (16 * 12000000 / 4) 48000000 ≤ exact_distance (14 * 12000000 / 4) 48000000)
find_pll_config-best_example =
    find_pll_config-best clz 12000000 48000000 2 17 16 4 14 4 (above 0) (omega arith) (omega arith)
      (omega arith) (omega arith) find_test (omega arith) (omega arith)
      (record { round = 1; round_lt = omega arith; divisor = refl; divisor_le = omega arith })
