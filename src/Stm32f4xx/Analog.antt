-- ===== src/Stm32f4xx/Analog.antt =====
-- Converters of examples/stm32f4xx_default/shared/board.c.
use halm_examples.Base.{ℕ, List, [], ◌∷◌}
use halm_examples.Board.{number, word, wire, Prog, pure, ◌>>=◌, init, pin}

unfoldable pub board_setup_adc : Prog (List ℕ)
board_setup_adc = do
  interface_object ← init "Adc" (
      wire "pins" (pin "PORT_A" "1")
      ∷ wire "pins" (pin "PORT_B" "0")
      ∷ wire "pins" (pin "PORT_B" "1")
      ∷ word "event" "ADC_INJ_TIM2_TRGO"
      ∷ word "sensitivity" "INPUT_RISING"
      ∷ number "channel" 0
      ∷ [])
  pure (interface_object ∷ [])

unfoldable pub board_setup_adc_dma : Prog (List ℕ)
board_setup_adc_dma = do
  interface_object ← init "AdcDma" (
      wire "pins" (pin "PORT_A" "1")
      ∷ wire "pins" (pin "PORT_B" "0")
      ∷ wire "pins" (pin "PORT_B" "1")
      ∷ word "event" "ADC_TIM2_CC2"
      ∷ word "sensitivity" "INPUT_TOGGLE"
      ∷ number "channel" 0
      ∷ word "dma" "DMA2_STREAM0"
      ∷ [])
  pure (interface_object ∷ [])
