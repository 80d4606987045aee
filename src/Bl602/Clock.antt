-- ===== src/Bl602/Clock.antt =====
-- The clocks of examples/bl602_default/shared/board.c.
use halm_examples.Base.{none, some, [], ◌∷◌}
use halm_examples.Board.{source, number, word, Prog, ◌>>◌, clock_enable, wait_ready, main_clock}
use halm_examples.Bl602.{external_osc, flash_clock, soc_clock, system_pll}

unfoldable pub board_setup_clock_ext : Prog Unit
board_setup_clock_ext = do
  clock_enable external_osc (number "frequency" 40000000 ∷ [])
  wait_ready external_osc
  clock_enable main_clock (number "divisor" 1 ∷ source (some external_osc) ∷ [])
  clock_enable flash_clock (number "divisor" 1 ∷ word "source" "CLOCK_SYSTEM" ∷ [])
  clock_enable soc_clock (number "divisor" 1 ∷ [])

unfoldable pub board_setup_clock_pll : Prog Unit
board_setup_clock_pll = do
  clock_enable main_clock (number "divisor" 1 ∷ source none ∷ [])
  clock_enable flash_clock (number "divisor" 1 ∷ word "source" "CLOCK_SYSTEM" ∷ [])
  clock_enable external_osc (number "frequency" 40000000 ∷ [])
  wait_ready external_osc
  clock_enable system_pll (source (some external_osc) ∷ [])
  wait_ready system_pll
  clock_enable main_clock (number "divisor" 1 ∷ source (some system_pll) ∷ [])
  clock_enable flash_clock (number "divisor" 2 ∷ source (some system_pll) ∷ [])
  clock_enable soc_clock (number "divisor" 1 ∷ [])
