-- ===== src/Stm32f1xx/Analog.antt =====
-- Converters of examples/stm32f1xx_default/shared/board.c.
use halm_examples.Base.{ℕ, List, [], ◌∷◌}
use halm_examples.Board.{number, word, wire, Prog, pure, ◌>>=◌, init, pin}

unfoldable pub board_setup_adc : Prog (List ℕ)
board_setup_adc = do
  interface_object ← init "Adc" (
      wire "pins" (pin "PORT_C" "0")
      ∷ wire "pins" (pin "PORT_C" "5")
      ∷ wire "pins" (pin "PORT_A" "0")
      ∷ word "event" "ADC_INJ_TIM3_CC4"
      ∷ word "sensitivity" "INPUT_TOGGLE"
      ∷ number "channel" 0
      ∷ [])
  pure (interface_object ∷ [])

unfoldable pub board_setup_adc_dma : Prog (List ℕ)
board_setup_adc_dma = do
  interface_object ← init "AdcDma" (
      wire "pins" (pin "PORT_C" "0")
      ∷ wire "pins" (pin "PORT_C" "5")
      ∷ wire "pins" (pin "PORT_A" "0")
      ∷ word "event" "ADC_TIM3_TRGO"
      ∷ word "sensitivity" "INPUT_RISING"
      ∷ number "channel" 0
      ∷ word "dma" "DMA1_STREAM1"
      ∷ [])
  pure (interface_object ∷ [])
