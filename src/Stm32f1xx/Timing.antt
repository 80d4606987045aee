-- ===== src/Stm32f1xx/Timing.antt =====
-- Timers and watchdogs of examples/stm32f1xx_default/shared/board.c.
use halm_examples.Base.{ℕ, ◌/◌, Bool, false, List, [], ◌∷◌}
use halm_examples.Board.{
  number, flag, word, wire, Prog, pure, ◌>>=◌, ◌>>◌, clock_enable, wait_ready, init, number_of,
  perform, pin,
}
use halm_examples.Stm32f1xx.{internal_low_speed_osc}

unfoldable pub board_set_adc_timer_rate : (timer : ℕ) (_1 : ℕ) (rate : ℕ) → Prog Unit
board_set_adc_timer_rate timer _ rate = do
  rate_of_timer ← number_of "timerGetFrequency" timer
  perform "timerSetOverflow" (number "timer" timer ∷ number "overflow" (rate_of_timer / rate) ∷ [])

unfoldable pub board_setup_pwm : (_0 : Bool) → Prog (List ℕ)
board_setup_pwm _ = do
  timer ←
      init "GpTimerPwmUnit"
        (number "frequency" 1000000 ∷ number "resolution" 20000 ∷ word "channel" "TIM3" ∷ [])
  pwm0 ←
      init "gpTimerPwmCreate"
        (number "timer" timer ∷ wire "argument" (pin "PORT_B" "0") ∷ flag "argument" false ∷ [])
  pwm1 ←
      init "gpTimerPwmCreate"
        (number "timer" timer ∷ wire "argument" (pin "PORT_B" "1") ∷ flag "argument" false ∷ [])
  pure (timer ∷ timer ∷ timer ∷ pwm0 ∷ pwm0 ∷ pwm1 ∷ [])

unfoldable pub board_setup_timer2 : Prog (List ℕ)
board_setup_timer2 = do
  timer ← init "GpTimer" (number "frequency" 10000 ∷ word "channel" "TIM2" ∷ [])
  pure (timer ∷ [])

unfoldable pub board_setup_timer3 : Prog (List ℕ)
board_setup_timer3 = do
  timer ←
      init "GpTimer"
        (number "frequency" 10000 ∷ word "event" "TIM_EVENT_CC4" ∷ word "channel" "TIM3" ∷ [])
  pure (timer ∷ [])

unfoldable pub board_setup_wdt : (_0 : Bool) → Prog (List ℕ)
board_setup_wdt _ = do
  clock_enable internal_low_speed_osc []
  wait_ready internal_low_speed_osc
  timer ← init "Iwdg" (number "period" 1000 ∷ [])
  pure (timer ∷ [])
