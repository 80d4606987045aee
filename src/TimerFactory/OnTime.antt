-- ===== src/TimerFactory/OnTime.antt =====
-- The tasks of examples/generic_default/timer_factory*/main.c on timers that are on time.
use native.Mathlib.Nat.{mod-eq_of_lt, zero-mod}
use halm_examples.Base.{
  ℕ, zero, suc, ◌+◌, ◌*◌, ◌%◌, ◌^◌, ◌≤◌, ◌<◌, ◌≡◌, refl, sym, ap, ap₂, ◌∙◌, true, false, Option,
  none, some, leb, ltb, ◌==◌, ◌&&◌, if◌then◌else◌, arith, Bool-cases, inl, inr,
}
use halm_examples.TimerFactory.{
  Context, Outcome, printed, interrupt, delta_of, is_live, periodic_task, init_context,
  max_iterations,
}
use halm_examples.TimerFactory.Elapsed.{delta_of_lem}

-- Until the program is ended.
abbrev and_then : Outcome → (Context → Option Context) → Option Context
and_then (printed line context) f = f context
and_then (interrupt context) f = none

-- The timer of the task calls it each `period`, and `chrono` counts the time; `none` when the task
-- has ended the program.
unfoldable pub run : (overflow time n : ℕ) → Context → Option Context
run overflow time zero context = some context
run overflow time (suc n) context =
    let t = time + context.period in
    and_then (periodic_task overflow (t % overflow) context) (run overflow t n)

same_branch :
    {A : Type 0} (n : ℕ) (x : Option A)
    → (if leb (0 + n) max_iterations then x else none) ≡ (if ltb max_iterations n then none else x)
same_branch n x = ground arith

module _ (overflow : ℕ) (small : overflow ≤ 2 ^ 63) where
  -- After `n` more calls on time.
  abbrev pub after : (time n : ℕ) → Context → Context
  after time n c = record c {
    iteration = c.iteration + n;
    previous = (time + n * c.period) % overflow;
  }

  on_time :
      (time : ℕ) (c : Context)
      → c.period < overflow
      → c.previous ≡ time % overflow
      → delta_of overflow ((time + c.period) % overflow) c.previous ≡ c.period
  on_time time c fits e =
      rw e (delta_of_lem overflow time c.period (omega (arith, fits)) small ∙ mod-eq_of_lt fits)

  run-suc :
      (time n : ℕ) (c : Context)
      → c.period < overflow
      → c.previous ≡ time % overflow
      → is_live c ≡ true
      → c.iteration + 1 < 2 ^ 32
      → run overflow time (suc n) c ≡ run overflow (time + c.period) n (after time 1 c)
  unfolding run periodic_task
  run-suc time n c fits e live room =
      let d = on_time time c fits e in
      let t : (c.period == c.period) ≡ true = ground arith in
      let next : (c.iteration + 1) % 2 ^ 32 ≡ c.iteration + 1 = omega (arith, room) in
      let once : 1 * c.period ≡ c.period = omega arith in rw (d, live, t, next, once) refl

  after-suc :
      (time n : ℕ) (c : Context) → after (time + c.period) n (after time 1 c) ≡ after time (suc n) c
  after-suc time n c =
      let i : c.iteration + 1 + n ≡ c.iteration + suc n = omega arith in
      let p : time + c.period + n * c.period ≡ time + suc n * c.period = omega arith in
      rw (i, p) refl

  after-zero : (time : ℕ) (c : Context) → c.previous ≡ time % overflow → after time 0 c ≡ c
  after-zero time c e =
      let i : c.iteration + 0 ≡ c.iteration = omega arith in
      let p : time + 0 * c.period ≡ time = omega arith in rw (i, p, sym e) refl

  -- A task without a limit goes on.
  run_free :
      (n time : ℕ) (c : Context)
      → c.period < overflow
      → c.previous ≡ time % overflow
      → c.limit ≡ 0
      → c.iteration + n < 2 ^ 32
      → run overflow time n c ≡ some (after time n c)
  unfolding run is_live
  run_free zero time c fits e free room = ap some (sym (after-zero time c e))
  run_free (suc n) time c fits e free room =
      let live : is_live c ≡ true = ground (arith, free) in
      let once : 1 * c.period ≡ c.period = omega arith in
      run-suc time n c fits e live (omega (arith, room))
      ∙ run_free n (time + c.period) (after time 1 c) fits (rw once refl) free (omega (arith, room))
      ∙ ap some (after-suc time n c)

  run_over : (n time : ℕ) (c : Context) → is_live c ≡ false → run overflow time (suc n) c ≡ none
  unfolding run periodic_task
  run_over n time c dead = rw dead refl

  -- A task with a limit ends the program when it has been called that often.
  run_limited :
      (n time : ℕ) (c : Context)
      → c.period < overflow
      → c.previous ≡ time % overflow
      → 0 < c.limit
      → c.limit < 2 ^ 32
      → c.iteration ≤ c.limit
      → run overflow time n c
        ≡ (if leb (c.iteration + n) c.limit then some (after time n c) else none)
  unfolding run is_live
  run_limited zero time c fits e pos room le =
      let t : leb (c.iteration + 0) c.limit ≡ true = ground (arith, le) in
      rw t (ap some (sym (after-zero time c e)))
  run_limited (suc n) time c fits e pos room le = elim (Bool-cases (ltb c.iteration c.limit)) [
    | inl t ↦
        let lt : c.iteration < c.limit = ground (arith, t) in
        let live : is_live c ≡ true = ground (arith, t) in
        let once : 1 * c.period ≡ c.period = omega arith in
        let sum : c.iteration + 1 + n ≡ c.iteration + suc n = omega arith in
        run-suc time n c fits e live (omega (arith, lt, room))
        ∙ run_limited n (time + c.period) (after time 1 c) fits (rw once refl) pos room
            (omega (arith, lt))
        ∙ ap₂ (λ (k : ℕ) (x : Context). if leb k c.limit then some x else none) sum
            (after-suc time n c)
    | inr t ↦
        let dead : is_live c ≡ false = ground (arith, t, pos) in
        let over : leb (c.iteration + suc n) c.limit ≡ false = ground (arith, t) in
        rw over (run_over n time c dead)
  ]

  -- The contexts that main makes, for a timer with at most 2 ^ 63 values that counts further than
  -- their period: called `n` times on time, fewer than 2 ^ 32, no task finds a failure; the first one
  -- ends the program after its 100th line, and the others never do.
  pub run-init_context :
      (i n : ℕ)
      → (init_context i).period < overflow
      → n < 2 ^ 32
      → run overflow 0 n (init_context i)
        ≡ (if i == 0 && ltb max_iterations n then none else some (after 0 n (init_context i)))
  unfolding init_context
  run-init_context zero n fits room =
      run_limited n 0 (init_context 0) fits (sym (zero-mod overflow)) (omega arith) (omega arith)
        (omega arith)
      ∙ same_branch n (some (after 0 n (init_context 0)))
  run-init_context (suc i) n fits room =
      let t : (suc i == 0) ≡ false = ground arith in
      let free : (init_context (suc i)).limit ≡ 0 = rw t refl in
      run_free n 0 (init_context (suc i)) fits (sym (zero-mod overflow)) free (omega (arith, room))
      ∙ ap
          (λ b. if b && ltb max_iterations n then none else some (after 0 n (init_context (suc i))))
          (sym t)
