-- ===== src/M48x/Analog.antt =====
-- Converters of examples/m48x_default/shared/board.c.
use halm_examples.Base.{ℕ, List, [], ◌∷◌}
use halm_examples.Board.{number, word, wire, Prog, pure, ◌>>=◌, ◌>>◌, clock_enable, init, pin}
use halm_examples.M48x.{eadc0_clock}

unfoldable pub board_setup_adc : Prog (List ℕ)
board_setup_adc = do
  clock_enable eadc0_clock (number "divisor" 2 ∷ [])
  interface_object ← init "Eadc" (
      wire "pins" (pin "PORT_B" "0")
      ∷ wire "pins" (pin "PORT_B" "1")
      ∷ wire "pins" (pin "PORT_B" "2")
      ∷ wire "pins" (pin "PORT_B" "3")
      ∷ wire "pins" (pin "PORT_B" "12")
      ∷ wire "pins" (pin "PORT_B" "13")
      ∷ wire "pins" (pin "PORT_B" "14")
      ∷ wire "pins" (pin "PORT_B" "15")
      ∷ word "event" "ADC_TIMER1"
      ∷ number "channel" 0
      ∷ [])
  pure (interface_object ∷ [])

unfoldable pub board_setup_adc_dma : Prog (List ℕ)
board_setup_adc_dma = do
  clock_enable eadc0_clock (number "divisor" 2 ∷ [])
  interface_object ← init "EadcDma" (
      wire "pins" (pin "PORT_B" "0")
      ∷ wire "pins" (pin "PORT_B" "1")
      ∷ wire "pins" (pin "PORT_B" "2")
      ∷ wire "pins" (pin "PORT_B" "3")
      ∷ wire "pins" (pin "PORT_B" "12")
      ∷ wire "pins" (pin "PORT_B" "13")
      ∷ wire "pins" (pin "PORT_B" "14")
      ∷ wire "pins" (pin "PORT_B" "15")
      ∷ word "event" "ADC_TIMER1"
      ∷ number "channel" 0
      ∷ word "dma" "DMA0_CHANNEL0"
      ∷ [])
  pure (interface_object ∷ [])
