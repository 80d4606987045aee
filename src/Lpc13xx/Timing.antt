-- ===== src/Lpc13xx/Timing.antt =====
-- Timers and watchdogs of examples/lpc13xx_default/shared/board.c.
use halm_examples.Base.{ℕ, ◌*◌, ◌/◌, ◌%◌, ◌^◌, Bool, true, false, List, [], ◌∷◌}
use halm_examples.Board.{
  number, flag, word, wire, Prog, pure, ◌>>=◌, ◌>>◌, clock_enable, wait_ready, init, number_of,
  perform, pin,
}
use halm_examples.Lpc13xx.{wdt_osc, wdt_clock}

unfoldable pub board_set_adc_timer_rate : (timer : ℕ) (count : ℕ) (rate : ℕ) → Prog Unit
board_set_adc_timer_rate timer count rate = do
  rate_of_timer ← number_of "timerGetFrequency" timer
  perform "timerSetOverflow"
      (number "timer" timer ∷ number "overflow" (rate_of_timer / (count * rate * 2 % 2 ^ 32)) ∷ [])

unfoldable pub board_setup_capture : Prog (List ℕ)
board_setup_capture = do
  timer ←
      init "GpTimerCaptureUnit" (number "frequency" 1000000 ∷ word "channel" "GPTIMER_CT32B0" ∷ [])
  capture ← init "gpTimerCaptureCreate" (
      number "timer" timer
      ∷ wire "argument" (pin "1" "5")
      ∷ word "argument" "INPUT_RISING"
      ∷ word "argument" "PIN_PULLDOWN"
      ∷ [])
  pure (timer ∷ capture ∷ [])

unfoldable pub board_setup_counter_timer : Prog (List ℕ)
board_setup_counter_timer = do
  timer ←
      init "GpTimerCounter" (
        word "edge" "INPUT_RISING"
        ∷ wire "pin" (pin "1" "5")
        ∷ word "channel" "GPTIMER_CT32B0"
        ∷ [])
  pure (timer ∷ [])

unfoldable pub board_setup_freerunning_timer : Prog (List ℕ)
board_setup_freerunning_timer = do
  timer ←
      init "GpTimer"
        (number "frequency" 1000 ∷ word "channel" "GPTIMER_CT16B0" ∷ flag "freerun" true ∷ [])
  pure (timer ∷ [])

unfoldable pub board_setup_pwm : (_0 : Bool) → Prog (List ℕ)
board_setup_pwm _ = do
  timer ← init "GpTimerPwmUnit" (
      number "frequency" 1000000 ∷ number "resolution" 20000 ∷ word "channel" "GPTIMER_CT16B1" ∷ [])
  pwm0 ←
      init "gpTimerPwmCreate"
        (number "timer" timer ∷ wire "argument" (pin "1" "10") ∷ flag "argument" false ∷ [])
  pwm1 ←
      init "gpTimerPwmCreate"
        (number "timer" timer ∷ wire "argument" (pin "1" "9") ∷ flag "argument" false ∷ [])
  pure (timer ∷ timer ∷ timer ∷ pwm0 ∷ pwm0 ∷ pwm1 ∷ [])

unfoldable pub board_setup_timer16_b0 : Prog (List ℕ)
board_setup_timer16_b0 = do
  timer ← init "GpTimer" (
      number "frequency" 10000
      ∷ word "event" "GPTIMER_MATCH0"
      ∷ word "channel" "GPTIMER_CT16B0"
      ∷ [])
  pure (timer ∷ [])

unfoldable pub board_setup_timer16_b1 : Prog (List ℕ)
board_setup_timer16_b1 = do
  timer ← init "GpTimer" (
      number "frequency" 10000
      ∷ word "event" "GPTIMER_MATCH0"
      ∷ word "channel" "GPTIMER_CT16B1"
      ∷ [])
  pure (timer ∷ [])

unfoldable pub board_setup_timer32_b0 : Prog (List ℕ)
board_setup_timer32_b0 = do
  timer ← init "GpTimer" (
      number "frequency" 1000000
      ∷ word "event" "GPTIMER_MATCH0"
      ∷ word "channel" "GPTIMER_CT32B0"
      ∷ [])
  pure (timer ∷ [])

unfoldable pub board_setup_timer32_b1 : Prog (List ℕ)
board_setup_timer32_b1 = do
  timer ← init "GpTimer" (
      number "frequency" 1000000
      ∷ word "event" "GPTIMER_MATCH0"
      ∷ word "channel" "GPTIMER_CT32B1"
      ∷ [])
  pure (timer ∷ [])

unfoldable pub board_setup_wdt : (disarmed : Bool) → Prog (List ℕ)
board_setup_wdt disarmed = do
  clock_enable wdt_osc (word "frequency" "WDT_FREQ_1050" ∷ [])
  wait_ready wdt_osc
  clock_enable wdt_clock (word "source" "CLOCK_WDT" ∷ [])
  wait_ready wdt_clock
  timer ← init "Wwdt" (number "period" 5000 ∷ number "window" 0 ∷ flag "disarmed" disarmed ∷ [])
  pure (timer ∷ [])
