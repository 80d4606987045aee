-- ===== src/Bl602/Tests.antt =====
-- The board of Bl602 on a small chip.
use halm_examples.Base.{ℕ, zero, suc, ◌≢◌, ap}
use halm_examples.Board.{number, word, done}
use halm_examples.Board.Known.{put}
use halm_examples.Board.Laws.{passes}
use halm_examples.Board.Sample.{Chip, off, older, runs}
use halm_examples.Bl602.{i2c_clock, uart_clock}
use halm_examples.Bl602.Bus.{board_setup_i2c}
use halm_examples.Bl602.Waits.{board_setup_i2c-done}
use halm_examples.Base.{refl, false, ◌≡◌, [], ◌∷◌}
use halm_examples.Board.{run}
use halm_examples.Board.Safe.{EndsFed}
use halm_examples.Board.Sample.{sample, sample-IsHardware, start, limit_lt}
use halm_examples.Bl602.Programs.{started, serial, timer, program, core_source, needs}
use halm_examples.Bl602.Safe.{bl602_program-EndsFed}

bl602_program-EndsFed_example :
    EndsFed sample
      (core_source (started (serial ∷ timer ∷ [])))
      (run sample needs 2 (program (started (serial ∷ timer ∷ []))) start)
bl602_program-EndsFed_example =
    bl602_program-EndsFed sample sample-IsHardware (started (serial ∷ timer ∷ [])) 2 start limit_lt
      refl

stays_off :
    (n : ℕ) (h : Chip)
    → h.age uart_clock ≡ off
    → sample.is_ready uart_clock (passes sample n h) ≡ false
unfolding passes
stays_off zero h e = ap runs e
stays_off (suc n) h e = stays_off n (sample.pass h) (ap older e)

board_setup_i2c-done_example : run sample needs 1000 board_setup_i2c start ≢ done [] start
unfolding put
board_setup_i2c-done_example =
    board_setup_i2c-done sample needs 1000 start
      (λ n.
        stays_off n
          (sample.enable_clock i2c_clock (number "divisor" 10 ∷ word "source" "CLOCK_SYSTEM" ∷ [])
            start)
          refl)
      [] start
