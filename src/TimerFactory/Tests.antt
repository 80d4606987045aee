-- ===== src/TimerFactory/Tests.antt =====
-- Timers that count to 1000, or to 500 for the restarts.
use halm_examples.Base.{◌≡◌, none, some, arith}
use halm_examples.TimerFactory.{Context, init_context}
use halm_examples.TimerFactory.OnTime.{run, run-init_context}
use halm_examples.TimerFactory.Restarts.{init_context as first_context}
use halm_examples.TimerFactory.Restarts.OnTime as Restarts

run-init_context_example : run 1000 0 101 (init_context 0) ≡ none
unfolding init_context
run-init_context_example = run-init_context 1000 (omega arith) 0 101 (omega arith) (omega arith)

run-test_task_periods_example :
    (c' : Context) × (Restarts.run 500 0 8 (first_context 0).period (first_context 0) ≡ some c')
    × (c'.failures ≡ 0)
    × (c'.iteration ≡ 8)
    × (c'.period ≡ 41)
run-test_task_periods_example =
    Restarts.run-test_task_periods 500 (omega arith) (omega arith) 8 (omega arith)
