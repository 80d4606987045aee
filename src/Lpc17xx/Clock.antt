-- ===== src/Lpc17xx/Clock.antt =====
-- The clocks of examples/lpc17xx_default/shared/board.c.
use halm_examples.Base.{ℕ, none, some, [], ◌∷◌}
use halm_examples.Board.{
  source, number, word, wire, Prog, ◌>>=◌, ◌>>◌, clock_enable, clock_disable, clock_ready,
  wait_ready, when, pin, main_clock,
}
use halm_examples.Lpc17xx.{usb_pll, system_pll, external_osc, clock_output}

unfoldable pub board_reset_clock : Prog Unit
board_reset_clock = do
  clock_enable main_clock (source none ∷ [])
  usb_pll_up ← clock_ready usb_pll
  when usb_pll_up (clock_disable usb_pll)
  system_pll_up ← clock_ready system_pll
  when system_pll_up (clock_disable system_pll)
  external_osc_up ← clock_ready external_osc
  when external_osc_up (clock_disable external_osc)

unfoldable pub board_setup_clock_ext : Prog Unit
board_setup_clock_ext = do
  clock_enable external_osc (number "frequency" 12000000 ∷ [])
  wait_ready external_osc
  clock_enable main_clock (source (some external_osc) ∷ [])

unfoldable pub board_setup_clock_output : (divisor : ℕ) → Prog Unit
board_setup_clock_output divisor = do
  clock_enable clock_output
      (number "divisor" divisor ∷ wire "pin" (pin "1" "27") ∷ word "source" "CLOCK_MAIN" ∷ [])
  wait_ready clock_output

unfoldable pub board_setup_clock_pll : Prog Unit
board_setup_clock_pll = do
  clock_enable external_osc (number "frequency" 12000000 ∷ [])
  wait_ready external_osc
  clock_enable system_pll
      (number "divisor" 4 ∷ number "multiplier" 32 ∷ source (some external_osc) ∷ [])
  wait_ready system_pll
  clock_enable main_clock (source (some system_pll) ∷ [])
