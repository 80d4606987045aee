-- ===== src/Stm32f0xx/Clock.antt =====
-- The clocks of examples/stm32f0xx_default/shared/board.c.
use halm_examples.Base.{some, [], ◌∷◌}
use halm_examples.Board.{source, number, Prog, ◌>>◌, clock_enable, wait_ready}
use halm_examples.Stm32f0xx.{system_clock, external_osc, apb_clock, main_clock, system_pll}

unfoldable pub board_setup_clock_ext : Prog Unit
board_setup_clock_ext = do
  clock_enable external_osc (number "frequency" 8000000 ∷ [])
  wait_ready external_osc
  clock_enable apb_clock (number "divisor" 1 ∷ [])
  clock_enable system_clock (source (some external_osc) ∷ [])
  clock_enable main_clock (number "divisor" 1 ∷ [])

unfoldable pub board_setup_clock_pll : Prog Unit
board_setup_clock_pll = do
  clock_enable external_osc (number "frequency" 8000000 ∷ [])
  wait_ready external_osc
  clock_enable system_pll
      (number "divisor" 1 ∷ number "multiplier" 6 ∷ source (some external_osc) ∷ [])
  wait_ready system_pll
  clock_enable apb_clock (number "divisor" 1 ∷ [])
  clock_enable system_clock (source (some system_pll) ∷ [])
  clock_enable main_clock (number "divisor" 1 ∷ [])
