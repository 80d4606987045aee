-- ===== src/Lpc13uxx/Clock.antt =====
-- The clocks of examples/lpc13uxx_default/shared/board.c.
use halm_examples.Base.{ℕ, some, [], ◌∷◌}
use halm_examples.Board.{
  source, number, word, wire, Prog, ◌>>◌, clock_enable, wait_ready, pin, main_clock,
}
use halm_examples.Lpc13uxx.{external_osc, clock_output, system_pll}

unfoldable pub board_setup_clock_ext : Prog Unit
board_setup_clock_ext = do
  clock_enable external_osc (number "frequency" 12000000 ∷ [])
  wait_ready external_osc
  clock_enable main_clock (source (some external_osc) ∷ [])

unfoldable pub board_setup_clock_output : (divisor : ℕ) → Prog Unit
board_setup_clock_output divisor = do
  clock_enable clock_output
      (number "divisor" divisor ∷ wire "pin" (pin "0" "1") ∷ word "source" "CLOCK_MAIN" ∷ [])
  wait_ready clock_output

unfoldable pub board_setup_clock_pll : Prog Unit
board_setup_clock_pll = do
  clock_enable external_osc (number "frequency" 12000000 ∷ [])
  wait_ready external_osc
  clock_enable system_pll
      (number "divisor" 4 ∷ number "multiplier" 24 ∷ source (some external_osc) ∷ [])
  wait_ready system_pll
  clock_enable main_clock (source (some system_pll) ∷ [])
