-- ===== src/M03x/Analog.antt =====
-- Converters of examples/m03x_default/shared/board.c.
use halm_examples.Base.{ℕ, none, List, [], ◌∷◌}
use halm_examples.Board.{
  source, number, word, wire, Prog, pure, ◌>>=◌, ◌>>◌, clock_enable, init, pin,
}
use halm_examples.M03x.{adc_clock}

unfoldable pub board_setup_adc : Prog (List ℕ)
board_setup_adc = do
  clock_enable adc_clock (number "divisor" 2 ∷ source none ∷ [])
  interface_object ← init "Adc" (
      wire "pins" (pin "PORT_B" "0")
      ∷ wire "pins" (pin "PORT_B" "1")
      ∷ wire "pins" (pin "PORT_B" "2")
      ∷ wire "pins" (pin "PORT_B" "3")
      ∷ wire "pins" (pin "PORT_B" "8")
      ∷ wire "pins" (pin "PORT_B" "9")
      ∷ word "event" "ADC_TIMER"
      ∷ number "channel" 0
      ∷ [])
  pure (interface_object ∷ [])

unfoldable pub board_setup_adc_dma : Prog (List ℕ)
board_setup_adc_dma = do
  clock_enable adc_clock (number "divisor" 2 ∷ source none ∷ [])
  interface_object ← init "AdcDma" (
      wire "pins" (pin "PORT_B" "0")
      ∷ wire "pins" (pin "PORT_B" "1")
      ∷ wire "pins" (pin "PORT_B" "2")
      ∷ wire "pins" (pin "PORT_B" "3")
      ∷ wire "pins" (pin "PORT_B" "8")
      ∷ wire "pins" (pin "PORT_B" "9")
      ∷ word "event" "ADC_TIMER"
      ∷ number "channel" 0
      ∷ word "dma" "DMA0_CHANNEL0"
      ∷ [])
  pure (interface_object ∷ [])
