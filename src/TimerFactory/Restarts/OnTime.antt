-- ===== src/TimerFactory/Restarts/OnTime.antt =====
-- The task of examples/generic_default/timer_factory_restarts/main.c on a timer that is on time.
use native.Mathlib.Nat.{mod-eq_of_lt, zero-mod}
use halm_examples.Base.{
  ℕ, zero, suc, ◌+◌, ◌%◌, ◌^◌, ◌≤◌, ◌<◌, ◌≡◌, refl, sym, ap, ◌∙◌, true, Option, none, some, ◌==◌,
  get_or, arith,
}
use halm_examples.TimerFactory.{Context, is_live, delta_of}
use halm_examples.TimerFactory.Elapsed.{delta_of_lem}
use halm_examples.TimerFactory.Restarts.{
  Outcome, restart, count, interrupt, periodic_task, test_task_periods, init_context,
  max_iterations,
}

-- `period` is the overflow of the timer, which a restart sets.
abbrev and_then :
    Outcome → (period : ℕ) → ((period : ℕ) → Context → Option Context) → Option Context
and_then (restart line next context) period f = f next context
and_then (count context) period f = f period context
and_then (interrupt context) period f = none

-- `n` calls of the task when its timer has run for its period; `none` when the program has ended.
unfoldable pub run : (overflow time n period : ℕ) → Context → Option Context
run overflow time zero period context = some context
run overflow time (suc n) period context =
    let t = time + period in
    and_then (periodic_task overflow (t % overflow) context) period (run overflow t n)

abbrev pub period_at : ℕ → ℕ
period_at iteration = get_or test_task_periods (iteration % 5) 0

periods_le : (k : ℕ) → get_or test_task_periods k 0 ≤ 401
periods_le k = ground arith

module _ (overflow : ℕ) (long : 401 < overflow) (small : overflow ≤ 2 ^ 63) where
  -- The task that is about to be called has this period, and its last call was at `time`.
  record IsOnTime (time period : ℕ) (c : Context) : Type 0 where
    agrees : period ≡ c.period
    listed : c.period ≡ period_at c.iteration
    seen : c.previous ≡ time % overflow
    first : c.key ≡ 0x41

  abbrev next : (time period : ℕ) → Context → Context
  next time period c = record c {
    iteration = c.iteration + 1;
    period = period_at (c.iteration + 1);
    previous = (time + period) % overflow;
  }

  run-suc :
      (time n period : ℕ) (c : Context)
      → IsOnTime time period c
      → is_live c ≡ true
      → c.iteration + 1 < 2 ^ 32
      → run overflow time (suc n) period c
        ≡ run overflow (time + period) n (period_at (c.iteration + 1)) (next time period c)
  unfolding run periodic_task
  run-suc time n period c o live room =
      let fits : period < overflow =
        omega (arith, periods_le (c.iteration % 5), o.agrees, o.listed, long) in
      let d : delta_of overflow ((time + period) % overflow) c.previous ≡ period =
        rw o.seen
          (delta_of_lem overflow time period (omega (arith, long)) small ∙ mod-eq_of_lt fits) in
      let same : (period == c.period) ≡ true = ground (arith, o.agrees) in
      let key : (c.key == 0x41) ≡ true = ground (arith, o.first) in
      let more : (c.iteration + 1) % 2 ^ 32 ≡ c.iteration + 1 = omega (arith, room) in
      rw (d, live, key, same, more) refl

  next-IsOnTime :
      (time period : ℕ) (c : Context)
      → IsOnTime time period c
      → IsOnTime (time + period) (period_at (c.iteration + 1)) (next time period c)
  next-IsOnTime time period c o = record {
    agrees = refl;
    listed = refl;
    seen = refl;
    first = o.first;
  }

  run_lem :
      (n time period : ℕ) (c : Context)
      → IsOnTime time period c
      → c.iteration + n ≤ c.limit
      → c.limit < 2 ^ 32
      → (c' : Context) × (run overflow time n period c ≡ some c')
        × (c'.failures ≡ c.failures)
        × (c'.iteration ≡ c.iteration + n)
        × (c'.period ≡ period_at (c.iteration + n))
  unfolding run is_live
  run_lem zero time period c o le room =
      let sum : c.iteration + 0 ≡ c.iteration = omega arith in
      (c, refl, refl, sym sum, o.listed ∙ ap period_at (sym sum))
  run_lem (suc n) time period c o le room =
      let live : is_live c ≡ true = ground (arith, le) in
      let sum : c.iteration + 1 + n ≡ c.iteration + suc n = omega arith in
      let (c', r, kept, counted, set) =
        run_lem n (time + period) (period_at (c.iteration + 1)) (next time period c)
          (next-IsOnTime time period c o) (omega (arith, le)) room in
      let first = run-suc time n period c o live (omega (arith, le, room)) in
      (c', first ∙ r, kept, counted ∙ sum, set ∙ ap period_at sum)

  -- For a timer with more than 401 and at most 2 ^ 63 values: the task of the first timer, called
  -- up to 10 times whenever its timer has run for the period that has been set last, finds no
  -- failure and has set the period that the table has next.
  pub run-test_task_periods :
      (n : ℕ)
      → n ≤ max_iterations
      → (let start = init_context 0 in
          (c' : Context) × (run overflow 0 n start.period start ≡ some c')
          × (c'.failures ≡ 0)
          × (c'.iteration ≡ n)
          × (c'.period ≡ period_at n))
  unfolding init_context
  run-test_task_periods n le =
      let o : IsOnTime 0 7 (init_context 0) = record {
        agrees = refl;
        listed = refl;
        seen = sym (zero-mod overflow);
        first = refl;
      } in
      let (c', r, kept, counted, set) =
        run_lem n 0 7 (init_context 0) o (omega (arith, le)) (omega arith) in
      let sum : 0 + n ≡ n = omega arith in (c', r, kept, counted ∙ sum, set ∙ ap period_at sum)
