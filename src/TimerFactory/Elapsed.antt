-- ===== src/TimerFactory/Elapsed.antt =====
-- The difference that the tasks of examples/generic_default/timer_factory*/main.c take, against the
-- time that has passed.
use native.Mathlib.Nat.{mod-lt, mod-eq_of_lt, add-mod, mod-eq-sub-mod}
use halm_examples.Base.{
  ℕ, ◌+◌, ◌-◌, ◌%◌, ◌^◌, ◌≤◌, ◌<◌, ◌≡◌, ◌∙◌, ◌⊎◌, inl, inr, ltb, arith, Bool-cases,
}
use halm_examples.TimerFactory.{delta_of}

-- The value of a timer some time later: further on, or once round the overflow.
later : (o a b : ℕ) → 0 < o → ((a + b) % o ≡ a % o + b % o) ⊎ ((a + b) % o + o ≡ a % o + b % o)
later o a b pos =
    let sum = add-mod a b o in
    let lt₁ = mod-lt a pos in
    let lt₂ = mod-lt b pos in
    elim (Bool-cases (ltb (a % o + b % o) o)) [
      | inl t ↦ inl (sum ∙ mod-eq_of_lt (ground (arith, t)))
      | inr t ↦
          let round = mod-eq-sub-mod {n = a % o + b % o} {m = o} (ground (arith, t)) in
          let rest = mod-eq_of_lt {n = a % o + b % o - o} {m = o} (omega (arith, lt₁, lt₂, pos)) in
          let over : o ≤ a % o + b % o = ground (arith, t) in
          inr (omega (arith, sum, round, rest, lt₁, lt₂, over))
    ]

delta_lem :
    (o a b e : ℕ)
    → a < o
    → b < o
    → e < o
    → o ≤ 2 ^ 63
    → (b ≡ a + e) ⊎ (b + o ≡ a + e)
    → delta_of o b a ≡ e
unfolding delta_of
delta_lem o a b e la lb le small (inl h) = ground (arith, h)
delta_lem o a b e la lb le small (inr h) = ground (arith, h)

-- Whatever time has passed since the last value, `delta` is that time up to whole rounds of the
-- timer, which has at most 2 ^ 63 values.
pub delta_of_lem :
    (overflow time elapsed : ℕ)
    → 0 < overflow
    → overflow ≤ 2 ^ 63
    → delta_of overflow ((time + elapsed) % overflow) (time % overflow) ≡ elapsed % overflow
delta_of_lem o time elapsed pos small =
    delta_lem o (time % o) ((time + elapsed) % o) (elapsed % o) (mod-lt time pos)
      (mod-lt (time + elapsed) pos) (mod-lt elapsed pos) small (later o time elapsed pos)
