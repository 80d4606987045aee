-- ===== src/Pll/Sound.antt =====
-- What `findPllConfig` in examples/lpc43xx_default/shared/board.c returns.
use mathlib.Core.Option.{some-injective}
use halm_examples.Base.{
  ℕ, zero, suc, ◌+◌, ◌-◌, ◌*◌, ◌/◌, ◌%◌, ◌^◌, ◌≤◌, ◌<◌, ◌≡◌, refl, ap, sym, ◌∙◌, Bool, true, false,
  ◌&&◌, Option, none, some, arith, ◌==◌, add32, sub32, max, leb, ltb, if◌then◌else◌, Bool-cases,
  inl, inr,
}
use native.Mathlib.Nat.{
  pow-suc, div-add-mod', mod-lt, div-mul-le_self, div-le_self, mul-le-mul_right,
}
use halm_examples.Pll.{
  cco_min, cco_max, Search, Difference, above, below, distance, difference, consider, try_divisors,
  try_multipliers, search_factors, find_pll_config, gap, upper_div, first_div, lower_mul, upper_mul,
}
use halm_examples.Pll.Best.{IsTried, try_multipliers_lem}

-- The distance of two numbers, and their difference with its sign.
abbrev pub exact_distance : ℕ → ℕ → ℕ
exact_distance a b = (a - b) + (b - a)

abbrev pub exact_difference : ℕ → ℕ → Difference
exact_difference a b = if leb b a then above (a - b) else below (b - a)

distance_lem : (a b : ℕ) → a < 2 ^ 31 → b < 2 ^ 31 → distance a b ≡ exact_distance a b
distance_lem a b small small' = ground (arith, small, small')

difference_lem : (a b : ℕ) → a < 2 ^ 31 → b < 2 ^ 31 → difference a b ≡ exact_difference a b
difference_lem a b small small' = ground (arith, small, small')

module _ (clz : ℕ → ℕ) (input target : ℕ) where
  -- Factors that the hardware takes: the multiplier is in range, the divisor is a power of two that
  -- is not too large.
  pub record IsPair (m d : ℕ) : Type 0 where
    pub lower : lower_mul clz input target ≤ m
    pub upper : m ≤ upper_mul clz input target
    pub divisor_le : d ≤ upper_div clz input target m
    pub power : (k : ℕ) × (d ≡ 2 ^ k)

  -- The oscillator stays in its range, and its frequency does not wrap.
  IsPair-cco :
      (m d : ℕ)
      → 0 < input
      → input < 4000000000
      → IsPair m d
      → (cco_min ≤ m * input) × (m * input ≤ cco_max)
  IsPair-cco m d pos small p =
      let up = cco_min + input - 1 in
      let e : up / input * input + up % input ≡ up = div-add-mod' up input in
      let r : up % input < input = mod-lt up pos in
      let w : sub32 (add32 cco_min input) 1 ≡ up = omega arith in
      let low : max 1 (up / input) ≤ m = rw w at p.lower in
      let a : up / input * input ≤ m * input = mul-le-mul_right input (omega arith) in
      let b : m * input ≤ cco_max / input * input =
        mul-le-mul_right input (omega (arith, p.upper)) in
      let c : cco_max / input * input ≤ cco_max = div-mul-le_self cco_max input in
      (omega arith, omega arith)

  -- A pair that has been found is a good one, and its error is known.
  record IsSound (s : Search) : Type 0 where
    pair : s.found ≡ true → IsPair s.mul s.div
    known : s.found ≡ true → s.error ≡ gap clz input target s.mul s.div

  round-IsSound :
      (a b : Bool) (x y z : Search)
      → (a ≡ true → IsSound x)
      → (a ≡ true → IsSound y)
      → IsSound z
      → IsSound (if a then if b then x else y else z)
  round-IsSound true true x y z h h' h'' = h refl
  round-IsSound true false x y z h h' h'' = h' refl
  round-IsSound false b x y z h h' h'' = h''

  consider-IsSound :
      (m d : ℕ) (s : Search) → IsPair m d → IsSound s → IsSound (consider clz input target m d s)
  unfolding consider
  consider-IsSound m d s p h = elim (Bool-cases (ltb (gap clz input target m d) s.error)) [
    | inl less ↦ rw less (record { pair = λ _. p; known = λ _. refl })
    | inr more ↦ rw more h
  ]

  try_divisors-IsSound :
      (rounds m d k : ℕ) (s : Search)
      → lower_mul clz input target ≤ m
      → m ≤ upper_mul clz input target
      → d ≡ 2 ^ k
      → IsSound s
      → IsSound (try_divisors clz input target rounds m d s)
  unfolding try_divisors
  try_divisors-IsSound zero m d k s lo hi e h = h
  try_divisors-IsSound (suc rounds) m d k s lo hi e h =
      let next = consider clz input target m d s in
      let sound : leb d (upper_div clz input target m) ≡ true → IsSound next = λ t.
        consider-IsSound m d s
          (record { lower = lo; upper = hi; divisor_le = ground arith; power = (k, e) }) h in
      let twice : d * 2 ≡ 2 ^ suc k = omega (arith, pow-suc 2 k, e) in
      round-IsSound (leb d (upper_div clz input target m))
        (ltb (gap clz input target m d) s.error && (gap clz input target m d == 0)) next
        (try_divisors clz input target rounds m (d * 2) next) s sound
        (λ t. try_divisors-IsSound rounds m (d * 2) (suc k) next lo hi twice (sound t)) h

  try_multipliers-IsSound :
      (rounds m : ℕ) (s : Search)
      → lower_mul clz input target ≤ m
      → rounds ≤ upper_mul clz input target + 1 - m
      → IsSound s
      → IsSound (try_multipliers clz input target rounds m s)
  unfolding try_multipliers
  try_multipliers-IsSound zero m s lo hi h = h
  try_multipliers-IsSound (suc rounds) m s lo hi h =
      let next = try_divisors clz input target 6 m (first_div clz input target m) s in
      let sound =
        try_divisors-IsSound 6 m (first_div clz input target m) _ s lo (omega arith) refl h in
      round-IsSound true (next.error == 0) next
        (try_multipliers clz input target rounds (m + 1) next) s (λ _. sound)
        (λ _. try_multipliers-IsSound rounds (m + 1) next (omega arith) (omega arith) sound) h

  search_factors-IsSound : (div mul : ℕ) → IsSound (search_factors clz input target div mul)
  unfolding search_factors
  search_factors-IsSound div mul =
      try_multipliers-IsSound _ _ _ (omega arith) (omega arith)
        (record { pair = λ h. absurd (cc); known = λ h. absurd (cc) })

  search_factors-best :
      (div mul m d : ℕ)
      → lower_mul clz input target ≤ m
      → m ≤ upper_mul clz input target
      → IsTried clz input target m d
      → (search_factors clz input target div mul).error ≤ gap clz input target m d
  unfolding search_factors
  search_factors-best div mul m d lo hi h =
      let e : lower_mul clz input target + (m - lower_mul clz input target) ≡ m = omega arith in
      let start : Search = record { error = 2 ^ 32 - 1; div = div; mul = mul; found = false } in
      let less =
        try_multipliers_lem clz input target
          (upper_mul clz input target + 1 - lower_mul clz input target) (lower_mul clz input target)
          (m - lower_mul clz input target) d start (omega arith) (rw e h) in
      rw e at less

  -- The same with the differences as the code takes them.
  find_pll_config_lem :
      (div mul m d m' d' : ℕ) (r : Difference)
      → 0 < input
      → input < 4000000000
      → find_pll_config clz input target div mul ≡ (some r, d, m)
      → lower_mul clz input target ≤ m'
      → m' ≤ upper_mul clz input target
      → IsTried clz input target m' d'
      → IsPair m d
        × (cco_min ≤ m * input)
        × (m * input ≤ cco_max)
        × (r ≡ difference (m * input / d) target)
        × (gap clz input target m d ≤ gap clz input target m' d')
  unfolding find_pll_config
  find_pll_config_lem div mul m d m' d' r pos small e lo hi tried =
      let s = search_factors clz input target div mul in
      let sound = search_factors-IsSound div mul in
      let best = search_factors-best div mul m' d' lo hi tried in
      elim (Bool-cases s.found) [
        | inl got ↦
            let e' = rw got at e in
            let div_eq : s.div ≡ d = ap (λ (x : Option Difference × ℕ × ℕ). x.1) e' in
            let mul_eq : s.mul ≡ m = ap (λ (x : Option Difference × ℕ × ℕ). x.2) e' in
            let result : some (difference (s.mul * input % 2 ^ 32 / s.div) target) ≡ some r =
              ap (λ (x : Option Difference × ℕ × ℕ). x.0) e' in
            let pair : IsPair m d = rw (mul_eq, div_eq) at sound.pair got in
            let (from, to) = IsPair-cco m d pos small pair in
            let cut : m * input % 2 ^ 32 ≡ m * input = omega arith in
            let known : gap clz input target m d ≡ s.error =
              rw (← div_eq, ← mul_eq) (sym (sound.known got)) in
            let value : difference (s.mul * input % 2 ^ 32 / s.div) target ≡ r =
              some-injective _ _ result in
            let returned : r ≡ difference (m * input / d) target =
              sym (rw (mul_eq, div_eq, cut) at value) in
            (pair, from, to, returned, rw known best)
        | inr missed ↦
            let e' = rw missed at e in
            let result : none ≡ some r = ap (λ (x : Option Difference × ℕ × ℕ). x.0) e' in
            absurd (cc)
      ]

  -- The oscillator of any multiplier in range stays below its upper limit.
  cco_le : (m : ℕ) → m ≤ upper_mul clz input target → m * input ≤ cco_max
  cco_le m up =
      let all : m * input ≤ cco_max / input * input = mul-le-mul_right input (omega (arith, up)) in
      let cut = div-mul-le_self cco_max input in omega (arith, all, cut)

  -- `findPllConfig` with an input below 4 GHz and a target below 2 GiHz. The factors it returns keep
  -- the oscillator between 156 and 320 MHz and the multiplier between 1 and 256, the divisor is a
  -- power of two up to 32; the result is the frequency that they make less the target; and no other
  -- pair that the loops visit, or would if they were not left early, is closer to the target.
  pub find_pll_config-best :
      (div mul m d m' d' : ℕ) (r : Difference)
      → 0 < input
      → input < 4000000000
      → 0 < target
      → target < 2 ^ 31
      → find_pll_config clz input target div mul ≡ (some r, d, m)
      → lower_mul clz input target ≤ m'
      → m' ≤ upper_mul clz input target
      → IsTried clz input target m' d'
      → IsPair m d
        × (cco_min ≤ m * input)
        × (m * input ≤ cco_max)
        × (r ≡ exact_difference (m * input / d) target)
        × (exact_distance (m * input / d) target ≤ exact_distance (m' * input / d') target)
  find_pll_config-best div mul m d m' d' r pos small some' short e lo hi tried =
      let (pair, from, to, returned, best) =
        find_pll_config_lem div mul m d m' d' r pos small e lo hi tried in
      let here : m * input / d < 2 ^ 31 = omega (arith, div-le_self (m * input) d, to) in
      let below = cco_le m' hi in
      let there : m' * input / d' < 2 ^ 31 = omega (arith, div-le_self (m' * input) d', below) in
      let cut : m * input % 2 ^ 32 ≡ m * input = omega (arith, to) in
      let cut' : m' * input % 2 ^ 32 ≡ m' * input = omega (arith, below) in
      (
        pair,
        from,
        to,
        returned ∙ difference_lem (m * input / d) target here short,
        rw
            (
              cut,
              cut',
              distance_lem (m * input / d) target here short,
              distance_lem (m' * input / d') target there short,
            )
            at best,
      )
