-- ===== src/Lpc17xx/Timing.antt =====
-- Timers and watchdogs of examples/lpc17xx_default/shared/board.c.
use halm_examples.Base.{ℕ, ◌*◌, ◌/◌, ◌%◌, ◌^◌, Bool, true, List, [], ◌∷◌, if◌then◌else◌}
use halm_examples.Board.{number, flag, word, wire, Prog, pure, ◌>>=◌, init, number_of, perform, pin}

unfoldable pub board_set_adc_timer_rate : (timer : ℕ) (count : ℕ) (rate : ℕ) → Prog Unit
board_set_adc_timer_rate timer count rate = do
  rate_of_timer ← number_of "timerGetFrequency" timer
  perform "timerSetOverflow"
      (number "timer" timer ∷ number "overflow" (rate_of_timer / (count * rate * 2 % 2 ^ 32)) ∷ [])

unfoldable pub board_setup_capture : Prog (List ℕ)
board_setup_capture = do
  timer ← init "GpTimerCaptureUnit" (number "frequency" 1000000 ∷ number "channel" 1 ∷ [])
  capture ← init "gpTimerCaptureCreate" (
      number "timer" timer
      ∷ wire "argument" (pin "1" "18")
      ∷ word "argument" "INPUT_RISING"
      ∷ word "argument" "PIN_PULLDOWN"
      ∷ [])
  pure (timer ∷ capture ∷ [])

unfoldable pub board_setup_counter_timer : Prog (List ℕ)
board_setup_counter_timer = do
  timer ←
      init "GpTimerCounter"
        (word "edge" "INPUT_RISING" ∷ wire "pin" (pin "1" "18") ∷ number "channel" 1 ∷ [])
  pure (timer ∷ [])

unfoldable pub board_setup_freerunning_timer : Prog (List ℕ)
board_setup_freerunning_timer = do
  timer ← init "GpTimer" (number "frequency" 1000 ∷ number "channel" 1 ∷ flag "freerun" true ∷ [])
  pure (timer ∷ [])

unfoldable pub board_setup_pwm : (_0 : Bool) → Prog (List ℕ)
board_setup_pwm _ = do
  timer ←
      init "GpPwmUnit"
        (number "frequency" 1000000 ∷ number "resolution" 20000 ∷ number "channel" 0 ∷ [])
  pwm0 ← init "gpPwmCreate" (number "timer" timer ∷ wire "argument" (pin "1" "18") ∷ [])
  pwm1 ← init "gpPwmCreate" (number "timer" timer ∷ wire "argument" (pin "1" "24") ∷ [])
  pwm2 ← init "gpPwmCreateDoubleEdge" (number "timer" timer ∷ wire "argument" (pin "1" "23") ∷ [])
  pure (timer ∷ timer ∷ timer ∷ timer ∷ pwm0 ∷ pwm0 ∷ pwm1 ∷ pwm2 ∷ [])

unfoldable pub board_setup_rtc : (restart : Bool) → Prog (List ℕ)
board_setup_rtc restart = do
  timer ← init "Rtc" (number "timestamp" (if restart then 0 else 1483228800) ∷ [])
  pure (timer ∷ [])

unfoldable pub board_setup_timer0 : Prog (List ℕ)
board_setup_timer0 = do
  timer ←
      init "GpTimer"
        (number "frequency" 1000000 ∷ word "event" "GPTIMER_MATCH0" ∷ number "channel" 0 ∷ [])
  pure (timer ∷ [])

unfoldable pub board_setup_timer1 : Prog (List ℕ)
board_setup_timer1 = do
  timer ←
      init "GpTimer"
        (number "frequency" 1000000 ∷ word "event" "GPTIMER_MATCH1" ∷ number "channel" 1 ∷ [])
  pure (timer ∷ [])

unfoldable pub board_setup_timer_rit : Prog (List ℕ)
board_setup_timer_rit = do timer ← init "Rit" []; pure (timer ∷ [])

unfoldable pub board_setup_wdt : (_0 : Bool) → Prog (List ℕ)
board_setup_wdt _ = do
  timer ← init "Wdt" (number "period" 1000 ∷ word "source" "WDT_CLOCK_PCLK" ∷ [])
  pure (timer ∷ [])
