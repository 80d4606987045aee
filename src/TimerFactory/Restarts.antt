-- ===== src/TimerFactory/Restarts.antt =====
-- The task of examples/generic_default/timer_factory_restarts/main.c, which starts its own timer
-- again with the next period.
pub mod OnTime
use halm_examples.Base.{
  ℕ, ◌+◌, ◌*◌, ◌%◌, ◌^◌, not, List, [], ◌∷◌, ◌==◌, if◌then◌else◌, get_or, Option, none, some,
}
use halm_examples.TimerFactory.{Context, Line, delta_of, is_live}

abbrev pub max_iterations : ℕ
max_iterations = 10

abbrev pub test_task_periods : List ℕ
test_task_periods = 7 ∷ 17 ∷ 29 ∷ 41 ∷ 401 ∷ []

-- `restart line period context` is a line that is printed, and the overflow of the timer that is
-- enabled again; `count` is a task that only counts.
pub data Outcome : Type 0 where
  restart : Line → (period : ℕ) → Context → Outcome
  count : Context → Outcome
  interrupt : Context → Outcome

unfoldable pub periodic_task : (overflow timestamp : ℕ) → Context → Outcome
periodic_task overflow timestamp context =
    let iteration = (context.iteration + 1) % 2 ^ 32 in
    let delta = delta_of overflow timestamp context.previous in
    let failure = not (delta == context.period) in
    let period = get_or test_task_periods (iteration % 5) 0 in
    if is_live context
    then if context.key == 0x41
      then restart
          (record {
            timestamp = timestamp;
            key = context.key;
            iteration = context.iteration;
            delta = delta;
            is_unsync = failure;
          })
          period
          (record context {
            period = period;
            previous = timestamp;
            failures = if failure then (context.failures + 1) % 2 ^ 32 else context.failures;
            iteration = iteration;
          })
      else count (record context { iteration = iteration })
    else interrupt context

-- The context that main makes for timer `i`.
unfoldable pub init_context : (i : ℕ) → Context
init_context i = record {
  failures = 0;
  iteration = 0;
  limit = if i == 0 then max_iterations else 0;
  period = 7 + 10 * i * i;
  previous = 0;
  key = 0x41 + i;
}
