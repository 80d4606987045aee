-- ===== src/Lpc82x/Timing.antt =====
-- Timers and watchdogs of examples/lpc82x_default/shared/board.c.
use halm_examples.Base.{ℕ, ◌*◌, ◌/◌, ◌%◌, ◌^◌, Bool, false, List, [], ◌∷◌}
use halm_examples.Board.{
  number, flag, word, wire, Prog, pure, ◌>>=◌, ◌>>◌, clock_enable, wait_ready, init, number_of,
  perform, pin,
}
use halm_examples.Lpc82x.{wdt_osc}

unfoldable pub board_set_adc_timer_rate : (timer : ℕ) (_1 : ℕ) (rate : ℕ) → Prog Unit
board_set_adc_timer_rate timer _ rate = do
  rate_of_timer ← number_of "timerGetFrequency" timer
  perform "timerSetOverflow"
      (number "timer" timer ∷ number "overflow" (rate_of_timer / (rate * 2 % 2 ^ 32)) ∷ [])

unfoldable pub board_setup_pwm : (centered : Bool) → Prog (List ℕ)
board_setup_pwm centered = do
  timer ← init "SctPwmUnit" (
      number "frequency" 1000000
      ∷ number "resolution" 20000
      ∷ word "part" "SCT_LOW"
      ∷ number "channel" 0
      ∷ flag "centered" centered
      ∷ [])
  pwm0 ←
      init "sctPwmCreate"
        (number "timer" timer ∷ wire "argument" (pin "0" "24") ∷ flag "argument" false ∷ [])
  pwm1 ←
      init "sctPwmCreate"
        (number "timer" timer ∷ wire "argument" (pin "0" "28") ∷ flag "argument" false ∷ [])
  pwm2 ←
      init "sctPwmCreateDoubleEdge"
        (number "timer" timer ∷ wire "argument" (pin "0" "4") ∷ flag "argument" false ∷ [])
  pure (timer ∷ timer ∷ timer ∷ timer ∷ pwm0 ∷ pwm0 ∷ pwm1 ∷ pwm2 ∷ [])

unfoldable pub board_setup_timer_mrt : Prog (List ℕ)
board_setup_timer_mrt = do timer ← init "Mrt" (number "channel" 0 ∷ []); pure (timer ∷ [])

unfoldable pub board_setup_timer_sct : Prog (List ℕ)
board_setup_timer_sct = do
  timer ← init "SctUnifiedTimer" (
      number "frequency" 1000000
      ∷ word "output" "SCT_OUTPUT_3"
      ∷ word "part" "SCT_UNIFIED"
      ∷ number "channel" 0
      ∷ [])
  pure (timer ∷ [])

unfoldable pub board_setup_timer_sct_high : Prog (List ℕ)
board_setup_timer_sct_high = do
  timer ← init "SctTimer" (
      number "frequency" 1000000
      ∷ word "output" "SCT_OUTPUT_3"
      ∷ word "part" "SCT_HIGH"
      ∷ number "channel" 0
      ∷ [])
  pure (timer ∷ [])

unfoldable pub board_setup_timer_sct_low : Prog (List ℕ)
board_setup_timer_sct_low = do
  timer ←
      init "SctTimer" (number "frequency" 1000000 ∷ word "part" "SCT_LOW" ∷ number "channel" 0 ∷ [])
  pure (timer ∷ [])

unfoldable pub board_setup_timer_wkt : Prog (List ℕ)
board_setup_timer_wkt = do
  timer ← init "Wkt" (number "pin" 0 ∷ word "source" "WKT_CLOCK_LOW_POWER" ∷ [])
  pure (timer ∷ [])

unfoldable pub board_setup_wdt : (disarmed : Bool) → Prog (List ℕ)
board_setup_wdt disarmed = do
  clock_enable wdt_osc (word "frequency" "WDT_FREQ_1050" ∷ [])
  wait_ready wdt_osc
  timer ← init "Wwdt" (number "period" 5000 ∷ number "window" 0 ∷ flag "disarmed" disarmed ∷ [])
  pure (timer ∷ [])
