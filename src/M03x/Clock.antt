-- ===== src/M03x/Clock.antt =====
-- The clocks of examples/m03x_default/shared/board.c.
use halm_examples.Base.{some, [], ◌∷◌}
use halm_examples.Board.{source, number, Prog, ◌>>◌, clock_enable, wait_ready, main_clock}
use halm_examples.M03x.{external_osc, system_pll}

unfoldable pub board_setup_clock_ext : Prog Unit
board_setup_clock_ext = do
  clock_enable external_osc (number "frequency" 32000000 ∷ [])
  wait_ready external_osc
  clock_enable main_clock (number "divisor" 1 ∷ source (some external_osc) ∷ [])

unfoldable pub board_setup_clock_pll : Prog Unit
board_setup_clock_pll = do
  clock_enable external_osc (number "frequency" 32000000 ∷ [])
  wait_ready external_osc
  clock_enable system_pll
      (number "divisor" 4 ∷ number "multiplier" 12 ∷ source (some external_osc) ∷ [])
  wait_ready system_pll
  clock_enable main_clock (number "divisor" 2 ∷ source (some system_pll) ∷ [])
