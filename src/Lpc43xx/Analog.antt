-- ===== src/Lpc43xx/Analog.antt =====
-- Converters of examples/lpc43xx_default/shared/board.c.
use halm_examples.Base.{ℕ, List, [], ◌∷◌}
use halm_examples.Board.{number, word, wire, Prog, pure, ◌>>=◌, ◌>>◌, init, pin}
use halm_examples.Lpc43xx.{apb3_clock}
use halm_examples.Lpc43xx.Clock.{enable_periph_clock}

unfoldable pub board_setup_adc : Prog (List ℕ)
board_setup_adc = do
  enable_periph_clock apb3_clock
  interface_object ← init "Adc" (
      wire "pins" (pin "PORT_ADC" "1")
      ∷ wire "pins" (pin "PORT_ADC" "2")
      ∷ wire "pins" (pin "PORT_ADC" "6")
      ∷ wire "pins" (pin "PORT_ADC" "7")
      ∷ word "event" "ADC_CTOUT_15"
      ∷ number "channel" 0
      ∷ [])
  pure (interface_object ∷ [])

unfoldable pub board_setup_adc_dma : Prog (List ℕ)
board_setup_adc_dma = do
  enable_periph_clock apb3_clock
  interface_object ← init "AdcDma" (
      wire "pins" (pin "PORT_ADC" "1")
      ∷ wire "pins" (pin "PORT_ADC" "2")
      ∷ wire "pins" (pin "PORT_ADC" "6")
      ∷ wire "pins" (pin "PORT_ADC" "7")
      ∷ word "event" "ADC_CTOUT_15"
      ∷ number "channel" 0
      ∷ number "dma" 4
      ∷ [])
  pure (interface_object ∷ [])

unfoldable pub board_setup_adc_one_shot : Prog (List ℕ)
board_setup_adc_one_shot = do
  enable_periph_clock apb3_clock
  interface_object ← init "AdcOneShot" (
      wire "pins" (pin "PORT_ADC" "1")
      ∷ wire "pins" (pin "PORT_ADC" "2")
      ∷ wire "pins" (pin "PORT_ADC" "6")
      ∷ wire "pins" (pin "PORT_ADC" "7")
      ∷ number "channel" 0
      ∷ [])
  pure (interface_object ∷ [])

unfoldable pub board_setup_adc_stream : Prog (List ℕ)
board_setup_adc_stream = do
  enable_periph_clock apb3_clock
  interface_object ← init "AdcDmaStream" (
      wire "pins" (pin "PORT_ADC" "1")
      ∷ wire "pins" (pin "PORT_ADC" "2")
      ∷ wire "pins" (pin "PORT_ADC" "6")
      ∷ wire "pins" (pin "PORT_ADC" "7")
      ∷ number "size" 2
      ∷ word "converter" "ADC_CTOUT_15"
      ∷ number "converter" 0
      ∷ word "memory" "GPDMA_SCT_REQ0"
      ∷ number "memory" 1
      ∷ number "channel" 0
      ∷ [])
  stream ← init "adcDmaStreamGetInput" (number "interface" interface_object ∷ [])
  pure (interface_object ∷ stream ∷ [])

unfoldable pub board_setup_dac : Prog (List ℕ)
board_setup_dac = do
  enable_periph_clock apb3_clock
  interface_object ← init "Dac" (wire "pin" (pin "PORT_4" "4") ∷ number "value" 32768 ∷ [])
  pure (interface_object ∷ [])

unfoldable pub board_setup_dac_dma : Prog (List ℕ)
board_setup_dac_dma = do
  enable_periph_clock apb3_clock
  interface_object ← init "DacDma" (
      number "size" 2
      ∷ number "rate" 96000
      ∷ number "value" 32768
      ∷ wire "pin" (pin "PORT_4" "4")
      ∷ number "dma" 5
      ∷ [])
  stream ← init "dacDmaGetOutput" (number "interface" interface_object ∷ [])
  pure (interface_object ∷ stream ∷ [])
