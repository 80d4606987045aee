-- ===== src/Stm32f0xx/Timing.antt =====
-- Timers and watchdogs of examples/stm32f0xx_default/shared/board.c.
use halm_examples.Base.{ℕ, ◌/◌, Bool, List, [], ◌∷◌}
use halm_examples.Board.{
  number, word, Prog, pure, ◌>>=◌, ◌>>◌, clock_enable, wait_ready, init, number_of, perform,
}
use halm_examples.Stm32f0xx.{internal_low_speed_osc}

unfoldable pub board_set_adc_timer_rate : (timer : ℕ) (_1 : ℕ) (rate : ℕ) → Prog Unit
board_set_adc_timer_rate timer _ rate = do
  rate_of_timer ← number_of "timerGetFrequency" timer
  perform "timerSetOverflow" (number "timer" timer ∷ number "overflow" (rate_of_timer / rate) ∷ [])

unfoldable pub board_setup_timer1 : Prog (List ℕ)
board_setup_timer1 = do
  timer ←
      init "GpTimer"
        (number "frequency" 10000 ∷ word "event" "TIM_EVENT_CC4" ∷ word "channel" "TIM1" ∷ [])
  pure (timer ∷ [])

unfoldable pub board_setup_timer14 : Prog (List ℕ)
board_setup_timer14 = do
  timer ← init "GpTimer" (number "frequency" 10000 ∷ word "channel" "TIM14" ∷ [])
  pure (timer ∷ [])

unfoldable pub board_setup_wdt : (_0 : Bool) → Prog (List ℕ)
board_setup_wdt _ = do
  clock_enable internal_low_speed_osc []
  wait_ready internal_low_speed_osc
  timer ← init "Iwdg" (number "period" 1000 ∷ [])
  pure (timer ∷ [])
