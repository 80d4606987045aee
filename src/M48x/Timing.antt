-- ===== src/M48x/Timing.antt =====
-- Timers and watchdogs of examples/m48x_default/shared/board.c.
use halm_examples.Base.{ℕ, ◌/◌, Bool, true, false, List, [], ◌∷◌}
use halm_examples.Board.{
  number, flag, word, wire, Prog, pure, ◌>>=◌, ◌>>◌, clock_enable, init, number_of, perform, pin,
}
use halm_examples.M48x.{timer1_clock, bpwm0_clock, timer0_clock, wdt_clock}

unfoldable pub board_set_adc_timer_rate : (timer : ℕ) (_1 : ℕ) (rate : ℕ) → Prog Unit
board_set_adc_timer_rate timer _ rate = do
  rate_of_timer ← number_of "timerGetFrequency" timer
  perform "timerSetOverflow" (number "timer" timer ∷ number "overflow" (rate_of_timer / rate) ∷ [])

unfoldable pub board_setup_adc_timer : Prog (List ℕ)
board_setup_adc_timer = do
  clock_enable timer1_clock (word "source" "CLOCK_APB" ∷ [])
  timer ←
      init "GpTimer"
        (number "frequency" 1000000 ∷ number "channel" 1 ∷ flag "trigger.adc" true ∷ [])
  pure (timer ∷ [])

unfoldable pub board_setup_pwm_bpwm : (centered : Bool) → Prog (List ℕ)
board_setup_pwm_bpwm centered = do
  clock_enable bpwm0_clock (word "source" "CLOCK_APB" ∷ [])
  timer ← init "BpwmUnit" (
      number "frequency" 1000000
      ∷ number "resolution" 20000
      ∷ number "channel" 0
      ∷ flag "centered" centered
      ∷ [])
  pwm0 ←
      init "bpwmCreate"
        (number "timer" timer ∷ wire "argument" (pin "PORT_A" "3") ∷ flag "argument" false ∷ [])
  pwm1 ←
      init "bpwmCreate"
        (number "timer" timer ∷ wire "argument" (pin "PORT_A" "4") ∷ flag "argument" false ∷ [])
  pure (timer ∷ timer ∷ timer ∷ pwm0 ∷ pwm0 ∷ pwm1 ∷ [])

unfoldable pub board_setup_timer0 : Prog (List ℕ)
board_setup_timer0 = do
  clock_enable timer0_clock (word "source" "CLOCK_APB" ∷ [])
  timer ← init "GpTimer" (number "frequency" 1000000 ∷ number "channel" 0 ∷ [])
  pure (timer ∷ [])

unfoldable pub board_setup_timer1 : Prog (List ℕ)
board_setup_timer1 = do
  clock_enable timer1_clock (word "source" "CLOCK_APB" ∷ [])
  timer ← init "GpTimer" (number "frequency" 1000000 ∷ number "channel" 1 ∷ [])
  pure (timer ∷ [])

unfoldable pub board_setup_wdt : (disarmed : Bool) → Prog (List ℕ)
board_setup_wdt disarmed = do
  clock_enable wdt_clock (word "source" "CLOCK_INTERNAL_LS" ∷ [])
  timer ← init "Wdt" (number "period" 5000 ∷ flag "disarmed" disarmed ∷ [])
  pure (timer ∷ [])
