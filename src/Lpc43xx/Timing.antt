-- ===== src/Lpc43xx/Timing.antt =====
-- Timers and watchdogs of examples/lpc43xx_default/shared/board.c.
use halm_examples.Base.{ℕ, ◌*◌, ◌/◌, ◌%◌, ◌^◌, Bool, false, not, List, [], ◌∷◌, if◌then◌else◌}
use halm_examples.Board.{
  number, flag, word, wire, Prog, pure, ◌>>=◌, ◌>>◌, clock_enable, clock_ready, wait_ready, init,
  number_of, perform, poll, when, pin,
}
use halm_examples.Lpc43xx.{rtc_osc}

-- `rtcConfig`, from the time of `restart`
unfoldable pub start_rtc : (restart : Bool) → Prog (List ℕ)
start_rtc restart = do
  timer ← init "Rtc" (number "timestamp" (if restart then 0 else 1483228800) ∷ [])
  poll "rtTime" timer (pure tt)
  pure (timer ∷ [])

unfoldable pub board_setup_rtc : (restart : Bool) → Prog (List ℕ)
board_setup_rtc restart = do
  rtc_osc_up ← clock_ready rtc_osc
  if rtc_osc_up
      then start_rtc restart
      else (do clock_enable rtc_osc []; wait_ready rtc_osc; start_rtc false)

unfoldable pub board_set_adc_timer_rate : (timer : ℕ) (count : ℕ) (rate : ℕ) → Prog Unit
board_set_adc_timer_rate timer count rate = do
  rate_of_timer ← number_of "timerGetFrequency" timer
  perform "timerSetOverflow"
      (number "timer" timer ∷ number "overflow" (rate_of_timer / (count * rate * 2 % 2 ^ 32)) ∷ [])

unfoldable pub board_setup_capture : Prog (List ℕ)
board_setup_capture = do
  timer ← init "GpTimerCaptureUnit" (number "frequency" 1000000 ∷ number "channel" 2 ∷ [])
  capture ← init "gpTimerCaptureCreate" (
      number "timer" timer
      ∷ wire "argument" (pin "PORT_6" "2")
      ∷ word "argument" "INPUT_RISING"
      ∷ word "argument" "PIN_PULLDOWN"
      ∷ [])
  pure (timer ∷ capture ∷ [])

unfoldable pub board_setup_counter_timer_gpt : Prog (List ℕ)
board_setup_counter_timer_gpt = do
  timer ←
      init "GpTimerCounter"
        (word "edge" "INPUT_RISING" ∷ wire "pin" (pin "PORT_6" "2") ∷ number "channel" 2 ∷ [])
  pure (timer ∷ [])

unfoldable pub board_setup_counter_timer_sct : Prog (List ℕ)
board_setup_counter_timer_sct = do
  timer ← init "SctCounter" (
      wire "pin" (pin "7" "3")
      ∷ word "edge" "INPUT_RISING"
      ∷ word "part" "SCT_HIGH"
      ∷ number "channel" 0
      ∷ [])
  pure (timer ∷ [])

unfoldable pub board_setup_pwm_sct : (centered : Bool) → Prog (List ℕ)
board_setup_pwm_sct centered = do
  timer ← init "SctPwmUnit" (
      number "frequency" 1000000
      ∷ number "resolution" 20000
      ∷ word "part" "SCT_HIGH"
      ∷ number "channel" 0
      ∷ flag "centered" centered
      ∷ [])
  pwm0 ←
      init "sctPwmCreate"
        (number "timer" timer ∷ wire "argument" (pin "PORT_4" "1") ∷ flag "argument" false ∷ [])
  pwm1 ←
      init "sctPwmCreate"
        (number "timer" timer ∷ wire "argument" (pin "PORT_7" "7") ∷ flag "argument" false ∷ [])
  pwm2 ←
      init "sctPwmCreateDoubleEdge"
        (number "timer" timer ∷ wire "argument" (pin "PORT_7" "6") ∷ flag "argument" false ∷ [])
  pure (timer ∷ timer ∷ timer ∷ timer ∷ pwm0 ∷ pwm0 ∷ pwm1 ∷ pwm2 ∷ [])

unfoldable pub board_setup_timer0 : Prog (List ℕ)
board_setup_timer0 = do
  timer ←
      init "GpTimer"
        (number "frequency" 1000000 ∷ word "event" "GPTIMER_MATCH0" ∷ number "channel" 0 ∷ [])
  pure (timer ∷ [])

unfoldable pub board_setup_timer3 : Prog (List ℕ)
board_setup_timer3 = do
  timer ←
      init "GpTimer"
        (number "frequency" 4000000 ∷ word "event" "GPTIMER_MATCH3" ∷ number "channel" 3 ∷ [])
  pure (timer ∷ [])

unfoldable pub board_setup_timer_alarm : Prog (List ℕ)
board_setup_timer_alarm = do
  rtc_osc_up ← clock_ready rtc_osc
  when (not rtc_osc_up) do clock_enable rtc_osc []; wait_ready rtc_osc
  timer ← init "Atimer" []
  pure (timer ∷ [])

unfoldable pub board_setup_timer_rit : Prog (List ℕ)
board_setup_timer_rit = do timer ← init "Rit" []; pure (timer ∷ [])

unfoldable pub board_setup_timer_sct : Prog (List ℕ)
board_setup_timer_sct = do
  timer ← init "SctUnifiedTimer" (
      number "frequency" 1000000
      ∷ word "output" "SCT_OUTPUT_15"
      ∷ word "part" "SCT_UNIFIED"
      ∷ number "channel" 0
      ∷ [])
  pure (timer ∷ [])

unfoldable pub board_setup_wdt : (disarmed : Bool) → Prog (List ℕ)
board_setup_wdt disarmed = do
  timer ← init "Wwdt" (number "period" 5000 ∷ number "window" 0 ∷ flag "disarmed" disarmed ∷ [])
  pure (timer ∷ [])

unfoldable pub board_setup_wwdt : Prog (List ℕ)
board_setup_wwdt = do
  timer ← init "Wwdt" (number "period" 5000 ∷ number "window" 1000 ∷ flag "disarmed" false ∷ [])
  pure (timer ∷ [])
