-- ===== src/SctSof/Ratio.antt =====
-- The ratio of the two measurements, `sctSofGetRatio` of sct_sof.c.
use halm_examples.Base.{
  ℕ, ◌+◌, ◌-◌, ◌*◌, ◌/◌, ◌%◌, ◌^◌, ◌≤◌, ◌<◌, ◌≡◌, refl, ◌∙◌, ◌&&◌, ◌||◌, Option, none, some, arith,
  ◌==◌, ltb, if◌then◌else◌, add32,
}
use native.Mathlib.Nat.{
  div-add-mod', le-div_iff_mul-le, mod-lt, lt_of_mul-lt-mul_right, mul-le-mul, mul-le-mul_left,
  mul-le-mul_right,
}
use halm_examples.Sct.{Defs, Library}
use halm_examples.SctSof.{SctSof}

-- UINT32_MAX
abbrev pub uint32_max : ℕ
uint32_max = 2 ^ 32 - 1

-- Ticks of 128 periods of the sample rate, rounded; the shift and the sum are those of 32 bits.
unfoldable pub mws_expected : ℕ → ℕ → ℕ
mws_expected frequency rate = add32 (frequency * 2 ^ 7 % 2 ^ 32) (rate / 2) / rate

-- Ticks of a frame, or of a microframe where the one measured is that short.
unfoldable pub sof_expected : ℕ → ℕ → ℕ
sof_expected frequency sof =
    let full = frequency / 1000 in if ltb sof (full / 2 ^ 2) then full / 2 ^ 3 else full

-- One step of the fixed-point product: 64 bits wide, shifted, and stored in 32.
unfoldable pub scale : ℕ → ℕ → ℕ
scale ratio mul = ratio * mul % 2 ^ 64 / 2 ^ 24 % 2 ^ 32

-- The ratio of measurements that are there, for `expected` ticks of 128 periods.
unfoldable pub ratio_of : ℕ → ℕ → ℕ → ℕ → ℕ
ratio_of frame mws sof expected =
    scale (scale (mws * frame % 2 ^ 32) (uint32_max / sof)) (uint32_max / expected)

-- A division by zero is `none`.
unfoldable pub checked_ratio : ℕ → ℕ → ℕ → ℕ → Option ℕ
checked_ratio frame mws sof expected =
    if expected == 0 then none else some (ratio_of frame mws sof expected)

module _ (l : Library) (k : Defs) (gima_value : ℕ → ℕ) where
  -- A failed assertion is `none`.
  unfoldable pub sct_sof_get_ratio : SctSof l k gima_value → Option ℕ
  sct_sof_get_ratio s =
      if ltb s.frequency (uint32_max / 128) && (s.frequency % 1000 == 0)
      then if (s.mws_duration == 0) || (s.sof_duration == 0) || (s.rate == 0)
        then some 0
        else checked_ratio (sof_expected s.frequency s.sof_duration) s.mws_duration s.sof_duration
            (mws_expected s.frequency s.rate)
      else none

-- `v` is `x / d` with 8 more bits, less by under one unit and a share of `d / 2 ^ 32`.
pub record IsScaled (x d v : ℕ) : Type 0 where
  pub upper : v * d ≤ x * 2 ^ 8
  pub lower : x * 2 ^ 32 ≤ (v + 1) * d * 2 ^ 24 + x * d

-- With any `m` that is `2 ^ 32 / d` but for less than one.
scale-multiplier :
    (x d m : ℕ) → x < d * 2 ^ 24 → m * d < 2 ^ 32 → 2 ^ 32 ≤ m * d + d → IsScaled x d (scale x m)
unfolding scale
scale-multiplier x d m lt le ge =
    let b : x * (m * d) ≤ x * 2 ^ 32 = mul-le-mul_left x (omega arith) in
    let c : x * 2 ^ 32 ≤ x * (m * d + d) = mul-le-mul_left x (omega arith) in
    let small : x * m ≤ d * 2 ^ 24 * m = mul-le-mul_right m (omega arith) in
    let cut : x * m % 2 ^ 64 / 2 ^ 24 % 2 ^ 32 ≡ x * m / 2 ^ 24 = omega arith in
    let v = x * m / 2 ^ 24 in
    let hi : v * 2 ^ 24 * d ≤ x * m * d = mul-le-mul_right d (omega arith) in
    let lo : x * m * d ≤ (v + 1) * 2 ^ 24 * d = mul-le-mul_right d (omega arith) in
    rw cut (record { upper = omega arith; lower = omega arith })

scale_lem : (x d : ℕ) → 0 < d → x < d * 2 ^ 24 → IsScaled x d (scale x (uint32_max / d))
scale_lem x d pos lt =
    let m = uint32_max / d in
    let e : m * d + uint32_max % d ≡ uint32_max = div-add-mod' uint32_max d in
    let r : uint32_max % d < d = mod-lt uint32_max pos in
    scale-multiplier x d m lt (omega arith) (omega arith)

-- No fewer than 2 ^ 8 ticks are expected, and the sum does not wrap.
mws_expected_lem :
    (frequency rate : ℕ)
    → frequency < uint32_max / 128
    → frequency % 1000 ≡ 0
    → 0 < rate
    → rate ≤ 110000
    → 2 * rate ≤ frequency
    → (mws_expected frequency rate ≡ (frequency * 2 ^ 7 + rate / 2) / rate)
      × (2 ^ 8 ≤ mws_expected frequency rate)
unfolding mws_expected
mws_expected_lem frequency rate lt whole pos small slow =
    let cut : add32 (frequency * 2 ^ 7 % 2 ^ 32) (rate / 2) ≡ frequency * 2 ^ 7 + rate / 2 =
      omega arith in
    rw cut (refl, (le-div_iff_mul-le pos).1 (omega arith))

-- A frame is expected to take fewer than 2 ^ 16 ticks.
sof_expected_lem :
    (frequency sof : ℕ) → frequency < uint32_max / 128 → sof_expected frequency sof < 2 ^ 16
unfolding sof_expected
sof_expected_lem frequency sof lt = ground arith

-- The ratio in two steps: the frame durations first, then the sample durations.
pub record IsRatio (frame mws sof expected r : ℕ) : Type 0 where
  pub quotient : ℕ
  pub by_frame : IsScaled (mws * frame) sof quotient
  pub by_sample : IsScaled quotient expected r

quotient_lem : (x d q : ℕ) → x < d * 2 ^ 24 → q * d ≤ x * 2 ^ 8 → q < 2 ^ 32
quotient_lem x d q lt le = lt_of_mul-lt-mul_right d (omega arith)

ratio_of_lem :
    (frame mws sof expected : ℕ)
    → mws < 2 ^ 16
    → frame < 2 ^ 16
    → 0 < sof
    → mws * frame < sof * 2 ^ 24
    → 2 ^ 8 ≤ expected
    → IsRatio frame mws sof expected (ratio_of frame mws sof expected)
unfolding ratio_of
ratio_of_lem frame mws sof expected small short pos lt ge =
    let p : mws * frame ≤ (2 ^ 16 - 1) * (2 ^ 16 - 1) =
      mul-le-mul {n₂ = 2 ^ 16 - 1} {m₂ = 2 ^ 16 - 1} (omega arith) (omega arith) in
    let cut : mws * frame % 2 ^ 32 ≡ mws * frame = omega arith in
    let q = scale (mws * frame) (uint32_max / sof) in
    let first = scale_lem (mws * frame) sof pos lt in
    let below : q < 2 ^ 32 = quotient_lem (mws * frame) sof q lt first.upper in
    rw cut (record {
      quotient = q;
      by_frame = first;
      by_sample = scale_lem q expected (omega arith) (omega arith);
    })

checked_ratio_lem :
    (frame mws sof expected : ℕ)
    → 2 ^ 8 ≤ expected
    → checked_ratio frame mws sof expected ≡ some (ratio_of frame mws sof expected)
unfolding checked_ratio
checked_ratio_lem frame mws sof expected ge = ground arith

module _ (l : Library) (k : Defs) (gima_value : ℕ → ℕ) (s : SctSof l k gima_value) where
  -- What the two assertions ask for.
  pub record IsAsserted : Type 0 where
    pub below : s.frequency < uint32_max / 128
    pub whole : s.frequency % 1000 ≡ 0

  -- Both clocks are measured; the rate is in the range of audio, the timer runs at twice the rate
  -- at least, and the quotient of the measurements does not exceed 24 bits.
  pub record IsMeasured : Type 0 where
    pub asserted : IsAsserted
    pub rate_pos : 0 < s.rate
    pub rate_le : s.rate ≤ 110000
    pub rate_slow : 2 * s.rate ≤ s.frequency
    pub mws_pos : 0 < s.mws_duration
    pub mws_lt : s.mws_duration < 2 ^ 16
    pub sof_pos : 0 < s.sof_duration
    pub quotient_lt :
        s.mws_duration * sof_expected s.frequency s.sof_duration < s.sof_duration * 2 ^ 24

  measured_lem :
      IsMeasured
      → sct_sof_get_ratio l k gima_value s
        ≡ checked_ratio
            (sof_expected s.frequency s.sof_duration)
            s.mws_duration
            s.sof_duration
            (mws_expected s.frequency s.rate)
  unfolding sct_sof_get_ratio
  measured_lem h =
      ground (arith, h.asserted.below, h.asserted.whole, h.rate_pos, h.mws_pos, h.sof_pos)

  -- `sctSofGetRatio` with both clocks measured returns a ratio, and nothing is divided by zero. The
  -- ratio is the product of two fixed-point quotients, the durations measured by those expected
  -- without the wrap of 32 bits, each within the error of its rounding down: no sum, product or
  -- shift loses bits. The rate is at most 110 kHz and half the timer's frequency, which the
  -- assertions allow, and the quotient of the measurements is below 2^24.
  pub sct_sof_get_ratio_lem :
      IsMeasured
      → (r : ℕ) × (sct_sof_get_ratio l k gima_value s ≡ some r)
        × IsRatio
            (sof_expected s.frequency s.sof_duration)
            s.mws_duration
            s.sof_duration
            ((s.frequency * 2 ^ 7 + s.rate / 2) / s.rate)
            r
  sct_sof_get_ratio_lem h =
      let (e, ge) =
        mws_expected_lem s.frequency s.rate h.asserted.below h.asserted.whole h.rate_pos h.rate_le
          h.rate_slow in
      let frame = sof_expected s.frequency s.sof_duration in
      let expected = mws_expected s.frequency s.rate in
      (
        ratio_of frame s.mws_duration s.sof_duration expected,
        measured_lem h ∙ checked_ratio_lem frame s.mws_duration s.sof_duration expected ge,
        rw (← e) (
            ratio_of_lem frame s.mws_duration s.sof_duration expected h.mws_lt
              (sof_expected_lem s.frequency s.sof_duration h.asserted.below) h.sof_pos h.quotient_lt
              ge),
      )
