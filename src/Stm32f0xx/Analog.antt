-- ===== src/Stm32f0xx/Analog.antt =====
-- Converters of examples/stm32f0xx_default/shared/board.c.
use halm_examples.Base.{ℕ, some, List, [], ◌∷◌}
use halm_examples.Board.{
  source, number, word, wire, Prog, pure, ◌>>=◌, ◌>>◌, clock_enable, wait_ready, init, pin,
}
use halm_examples.Stm32f0xx.{internal_osc14, adc_clock}

unfoldable pub board_setup_adc_dma : Prog (List ℕ)
board_setup_adc_dma = do
  clock_enable internal_osc14 []
  wait_ready internal_osc14
  clock_enable adc_clock (source (some internal_osc14) ∷ [])
  interface_object ← init "AdcDma" (
      wire "pins" (pin "PORT_A" "0")
      ∷ wire "pins" (pin "PORT_A" "1")
      ∷ wire "pins" (pin "PORT_A" "2")
      ∷ word "event" "ADC_TIM1_CC4"
      ∷ word "sensitivity" "INPUT_TOGGLE"
      ∷ number "channel" 0
      ∷ word "dma" "DMA1_STREAM1"
      ∷ [])
  pure (interface_object ∷ [])
