-- ===== src/TimerFactory.antt =====
-- The periodic tasks of examples/generic_default/timer_factory/main.c, which
-- examples/generic_default/tickless_factory/main.c repeats, and of
-- examples/generic_default/timer_factory_restarts/main.c (Restarts). `unsigned long` has 64 bits and
-- `unsigned int` 32. The timers are parameters: a task gets the overflow of `chrono` and its value.
pub mod Restarts
pub mod Elapsed
pub mod OnTime
mod Tests
use halm_examples.Base.{ℕ, ◌+◌, ◌-◌, ◌*◌, ◌%◌, ◌^◌, Bool, not, ◌||◌, leb, ltb, ◌==◌, if◌then◌else◌}

abbrev pub max_iterations : ℕ
max_iterations = 100

-- Without the two timers.
pub record Context : Type 0 where
  pub failures : ℕ
  pub iteration : ℕ
  pub limit : ℕ
  pub period : ℕ
  pub previous : ℕ
  pub key : ℕ

-- What is printed.
pub record Line : Type 0 where
  pub timestamp : ℕ
  pub key : ℕ
  pub iteration : ℕ
  pub delta : ℕ
  pub is_unsync : Bool

pub data Outcome : Type 0 where
  printed : Line → Context → Outcome
  interrupt : Context → Outcome

-- `delta`, a `long`, as its bits.
unfoldable pub delta_of : (overflow timestamp previous : ℕ) → ℕ
delta_of overflow timestamp previous =
    let delta = (timestamp + 2 ^ 64 - previous) % 2 ^ 64 in
    if leb (2 ^ 63) delta then (delta + overflow) % 2 ^ 64 else delta

unfoldable pub is_live : Context → Bool
is_live context = context.limit == 0 || ltb context.iteration context.limit

unfoldable pub periodic_task : (overflow timestamp : ℕ) → Context → Outcome
periodic_task overflow timestamp context =
    let delta = delta_of overflow timestamp context.previous in
    let failure = not (delta == context.period) in
    if is_live context
    then printed
        (record {
          timestamp = timestamp;
          key = context.key;
          iteration = context.iteration;
          delta = delta;
          is_unsync = failure;
        })
        (record context {
          previous = timestamp;
          failures = if failure then (context.failures + 1) % 2 ^ 32 else context.failures;
          iteration = (context.iteration + 1) % 2 ^ 32;
        })
    else interrupt context

-- The context that main makes for timer `i`.
unfoldable pub init_context : (i : ℕ) → Context
init_context i = record {
  failures = 0;
  iteration = 0;
  limit = if i == 0 then max_iterations else 0;
  period = 7 + 10 * i * i;
  previous = 0;
  key = 0x41 + i;
}
