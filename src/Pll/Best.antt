-- ===== src/Pll/Best.antt =====
-- What the search of `findPllConfig` in examples/lpc43xx_default/shared/board.c promises.
use halm_examples.Base.{
  ℕ, zero, suc, ◌+◌, ◌*◌, ◌^◌, ◌≤◌, ◌<◌, ◌≡◌, refl, ap, Bool, true, false, ◌&&◌, arith, ◌==◌, leb,
  ltb, if◌then◌else◌,
}
use native.Mathlib.Nat.{pow-suc, le-mul_of_pos_right}
use halm_examples.Pll.{Search, consider, try_divisors, try_multipliers, gap, upper_div, first_div}

-- The end of one round: `x` after a `break`, `y` after the rounds that follow, `z` after the loop.
round_lem :
    (a b : Bool) (x y z : Search) (g : ℕ)
    → (b ≡ true → x.error ≤ g)
    → y.error ≤ g
    → (a ≡ false → z.error ≤ g)
    → (if a then if b then x else y else z).error ≤ g
round_lem true true x y z g h h' h'' = h refl
round_lem true false x y z g h h' h'' = h'
round_lem false b x y z g h h' h'' = h'' refl

two-pow_pos : (k : ℕ) → 0 < 2 ^ k
two-pow_pos zero = omega arith
two-pow_pos (suc k) = omega (arith, two-pow_pos k, pow-suc 2 k)

module _ (clz : ℕ → ℕ) (input target : ℕ) where
  consider-le :
      (m d : ℕ) (s : Search)
      → ((consider clz input target m d s).error ≤ s.error)
        × ((consider clz input target m d s).error ≤ gap clz input target m d)
  unfolding consider
  consider-le m d s = ground arith

  -- The error never grows, and is no larger than that of any divisor tried.
  try_divisors-le :
      (rounds m d : ℕ) (s : Search) → (try_divisors clz input target rounds m d s).error ≤ s.error
  unfolding try_divisors
  try_divisors-le zero m d s = omega arith
  try_divisors-le (suc rounds) m d s =
      let ih = try_divisors-le rounds m (d * 2) (consider clz input target m d s) in
      let (le, _) = consider-le m d s in
      let next = consider clz input target m d s in
      round_lem (leb d (upper_div clz input target m))
        (ltb (gap clz input target m d) s.error && (gap clz input target m d == 0)) next
        (try_divisors clz input target rounds m (d * 2) next) s s.error (λ _. le)
        (omega (arith, ih, le)) (λ _. omega arith)

  try_divisors_lem :
      (rounds m d k : ℕ) (s : Search)
      → k < rounds
      → d * 2 ^ k ≤ upper_div clz input target m
      → (try_divisors clz input target rounds m d s).error ≤ gap clz input target m (d * 2 ^ k)
  unfolding try_divisors
  try_divisors_lem zero m d k s lt le = absurd (omega arith)
  try_divisors_lem (suc rounds) m d zero s lt le =
      let next = consider clz input target m d s in
      let (_, small) = consider-le m d s in
      let same : d * 2 ^ 0 ≡ d = omega arith in
      let after = try_divisors-le rounds m (d * 2) next in
      rw same (
        round_lem (leb d (upper_div clz input target m))
          (ltb (gap clz input target m d) s.error && (gap clz input target m d == 0)) next
          (try_divisors clz input target rounds m (d * 2) next) s (gap clz input target m d)
          (λ _. small) (omega (arith, after, small)) (λ out. absurd (ground arith)))
  try_divisors_lem (suc rounds) m d (suc k) s lt le =
      let next = consider clz input target m d s in
      let (_, small) = consider-le m d s in
      let same : d * 2 ^ suc k ≡ d * 2 * 2 ^ k = omega (arith, ap (λ x. d * x) (pow-suc 2 k)) in
      let ih = try_divisors_lem rounds m (d * 2) k next (omega arith) (rw (← same) le) in
      rw same (
        round_lem (leb d (upper_div clz input target m))
          (ltb (gap clz input target m d) s.error && (gap clz input target m d == 0)) next
          (try_divisors clz input target rounds m (d * 2) next) s
          (gap clz input target m (d * 2 * 2 ^ k))
          (λ hit. let zero_gap : gap clz input target m d ≡ 0 = ground arith in omega arith) ih
          (λ out. absurd (ground (arith, le-mul_of_pos_right d (two-pow_pos (suc k))))))

  try_multipliers-le :
      (rounds m : ℕ) (s : Search) → (try_multipliers clz input target rounds m s).error ≤ s.error
  unfolding try_multipliers
  try_multipliers-le zero m s = omega arith
  try_multipliers-le (suc rounds) m s =
      let next = try_divisors clz input target 6 m (first_div clz input target m) s in
      let le = try_divisors-le 6 m (first_div clz input target m) s in
      round_lem true (next.error == 0) next (try_multipliers clz input target rounds (m + 1) next) s
        s.error (λ _. le) (omega (arith, try_multipliers-le rounds (m + 1) next, le))
        (λ _. omega arith)

  -- A pair of factors that the loops visit, or would if they were not left early.
  pub record IsTried (m d : ℕ) : Type 0 where
    pub round : ℕ
    pub round_lt : round < 6
    pub divisor : d ≡ first_div clz input target m * 2 ^ round
    pub divisor_le : d ≤ upper_div clz input target m

  pub try_multipliers_lem :
      (rounds m j d : ℕ) (s : Search)
      → j < rounds
      → IsTried (m + j) d
      → (try_multipliers clz input target rounds m s).error ≤ gap clz input target (m + j) d
  unfolding try_multipliers
  try_multipliers_lem zero m j d s lt h = absurd (omega arith)
  try_multipliers_lem (suc rounds) m zero d s lt h =
      let next = try_divisors clz input target 6 m (first_div clz input target m) s in
      let same : m + 0 ≡ m = omega arith in
      let tried = rw same at h in
      let e = tried.divisor in
      let le : next.error ≤ gap clz input target m d = rw e (
        try_divisors_lem 6 m (first_div clz input target m) tried.round s tried.round_lt
          (rw (← e) tried.divisor_le)) in
      rw same (
        round_lem true (next.error == 0) next (try_multipliers clz input target rounds (m + 1) next)
          s (gap clz input target m d) (λ _. le)
          (omega (arith, try_multipliers-le rounds (m + 1) next, le)) (λ out. absurd (cc)))
  try_multipliers_lem (suc rounds) m (suc j) d s lt h =
      let next = try_divisors clz input target 6 m (first_div clz input target m) s in
      let same : m + suc j ≡ m + 1 + j = omega arith in
      rw same (
        round_lem true (next.error == 0) next (try_multipliers clz input target rounds (m + 1) next)
          s (gap clz input target (m + 1 + j) d)
          (λ hit. let z : next.error ≡ 0 = ground arith in omega arith)
          (try_multipliers_lem rounds (m + 1) j d next (omega arith) (rw same at h))
          (λ out. absurd (cc)))
