-- ===== src/Lpc17xx/Analog.antt =====
-- Converters of examples/lpc17xx_default/shared/board.c.
use halm_examples.Base.{ℕ, List, [], ◌∷◌}
use halm_examples.Board.{number, word, wire, Prog, pure, ◌>>=◌, init, pin}

unfoldable pub board_setup_adc : Prog (List ℕ)
board_setup_adc = do
  interface_object ← init "Adc" (
      wire "pins" (pin "0" "25")
      ∷ wire "pins" (pin "1" "31")
      ∷ wire "pins" (pin "0" "3")
      ∷ wire "pins" (pin "0" "2")
      ∷ word "event" "ADC_TIMER1_MAT1"
      ∷ number "channel" 0
      ∷ [])
  pure (interface_object ∷ [])

unfoldable pub board_setup_adc_dma : Prog (List ℕ)
board_setup_adc_dma = do
  interface_object ← init "AdcDma" (
      wire "pins" (pin "0" "25")
      ∷ wire "pins" (pin "1" "31")
      ∷ wire "pins" (pin "0" "3")
      ∷ wire "pins" (pin "0" "2")
      ∷ word "event" "ADC_TIMER1_MAT1"
      ∷ number "channel" 0
      ∷ number "dma" 4
      ∷ [])
  pure (interface_object ∷ [])

unfoldable pub board_setup_adc_one_shot : Prog (List ℕ)
board_setup_adc_one_shot = do
  interface_object ← init "AdcOneShot" (
      wire "pins" (pin "0" "25")
      ∷ wire "pins" (pin "1" "31")
      ∷ wire "pins" (pin "0" "3")
      ∷ wire "pins" (pin "0" "2")
      ∷ number "channel" 0
      ∷ [])
  pure (interface_object ∷ [])

unfoldable pub board_setup_adc_stream : Prog (List ℕ)
board_setup_adc_stream = do
  interface_object ← init "AdcDmaStream" (
      wire "pins" (pin "0" "25")
      ∷ wire "pins" (pin "1" "31")
      ∷ wire "pins" (pin "0" "3")
      ∷ wire "pins" (pin "0" "2")
      ∷ number "size" 2
      ∷ word "converter" "ADC_TIMER1_MAT1"
      ∷ number "converter" 0
      ∷ word "memory" "GPDMA_MAT0_0"
      ∷ number "memory" 1
      ∷ number "channel" 0
      ∷ [])
  stream ← init "adcDmaStreamGetInput" (number "interface" interface_object ∷ [])
  pure (interface_object ∷ stream ∷ [])

unfoldable pub board_setup_dac : Prog (List ℕ)
board_setup_dac = do
  interface_object ← init "Dac" (wire "pin" (pin "0" "26") ∷ number "value" 32768 ∷ [])
  pure (interface_object ∷ [])

unfoldable pub board_setup_dac_dma : Prog (List ℕ)
board_setup_dac_dma = do
  interface_object ← init "DacDma" (
      number "size" 2
      ∷ number "rate" 96000
      ∷ number "value" 32768
      ∷ wire "pin" (pin "0" "26")
      ∷ number "dma" 5
      ∷ [])
  stream ← init "dacDmaGetOutput" (number "interface" interface_object ∷ [])
  pure (interface_object ∷ stream ∷ [])
