-- ===== src/Stm32f4xx/Clock.antt =====
-- The clocks of examples/stm32f4xx_default/shared/board.c.
use halm_examples.Base.{◌==◌, ℕ, Option, none, some, List, [], ◌∷◌, if◌then◌else◌}
use halm_examples.Board.{Setting, source, number, word, Prog, stop, ◌>>◌, clock_enable, wait_ready}
use halm_examples.Stm32f4xx.{
  system_clock, external_osc, apb1_clock, apb2_clock, main_clock, main_pll,
}

-- The entry of `pllConfigArray` for the frequency of the external oscillator.
unfoldable pub pll_config : (frequency : ℕ) → Option (List Setting)
pll_config frequency =
    if frequency == 8000000
    then some (number "divisor" 2 ∷ number "multiplier" 25 ∷ source (some external_osc) ∷ [])
    else if frequency == 12000000
    then some (number "divisor" 2 ∷ number "multiplier" 16 ∷ source (some external_osc) ∷ [])
    else if frequency == 16000000
    then some (number "divisor" 2 ∷ number "multiplier" 12 ∷ source (some external_osc) ∷ [])
    else if frequency == 24000000
    then some (number "divisor" 2 ∷ number "multiplier" 8 ∷ source (some external_osc) ∷ [])
    else none

unfoldable pub board_setup_clock_pll : Prog Unit
board_setup_clock_pll = elim (pll_config 8000000) [
  | none ↦ stop
  | some main_pll_config ↦ do
    clock_enable external_osc (number "frequency" 8000000 ∷ [])
    wait_ready external_osc
    clock_enable main_pll main_pll_config
    wait_ready main_pll
    clock_enable apb1_clock (number "divisor" 4 ∷ [])
    clock_enable apb2_clock (number "divisor" 2 ∷ [])
    clock_enable system_clock (source (some main_pll) ∷ [])
    clock_enable main_clock (number "divisor" 1 ∷ word "range" "VR_2V7_3V6" ∷ [])
]

unfoldable pub board_setup_clock_ext : Prog Unit
board_setup_clock_ext = do
  clock_enable external_osc (number "frequency" 8000000 ∷ [])
  wait_ready external_osc
  clock_enable apb1_clock (number "divisor" 1 ∷ [])
  clock_enable apb2_clock (number "divisor" 1 ∷ [])
  clock_enable system_clock (source (some external_osc) ∷ [])
  clock_enable main_clock (number "divisor" 1 ∷ word "range" "VR_2V7_3V6" ∷ [])
