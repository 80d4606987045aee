-- ===== src/Lpc82x/Analog.antt =====
-- Converters of examples/lpc82x_default/shared/board.c.
use halm_examples.Base.{ℕ, true, false, List, [], ◌∷◌}
use halm_examples.Board.{number, flag, word, wire, Prog, pure, ◌>>=◌, init, pin}

unfoldable pub board_setup_adc : Prog (List ℕ)
board_setup_adc = do
  interface_object ← init "Adc" (
      wire "pins" (pin "0" "7")
      ∷ wire "pins" (pin "0" "6")
      ∷ wire "pins" (pin "0" "14")
      ∷ wire "pins" (pin "0" "23")
      ∷ wire "pins" (pin "0" "18")
      ∷ wire "pins" (pin "0" "17")
      ∷ wire "pins" (pin "0" "13")
      ∷ word "event" "ADC_SCT0_OUT3"
      ∷ word "sequence" "ADC0_SEQA"
      ∷ word "sensitivity" "INPUT_RISING"
      ∷ flag "preemption" false
      ∷ flag "singlestep" false
      ∷ [])
  pure (interface_object ∷ [])

unfoldable pub board_setup_adc_dma : Prog (List ℕ)
board_setup_adc_dma = do
  interface_object ← init "AdcDma" (
      wire "pins" (pin "0" "7")
      ∷ wire "pins" (pin "0" "6")
      ∷ wire "pins" (pin "0" "14")
      ∷ wire "pins" (pin "0" "23")
      ∷ wire "pins" (pin "0" "18")
      ∷ wire "pins" (pin "0" "17")
      ∷ wire "pins" (pin "0" "13")
      ∷ word "event" "ADC_SCT0_OUT3"
      ∷ word "sequence" "ADC0_SEQA"
      ∷ word "sensitivity" "INPUT_RISING"
      ∷ number "dma" 16
      ∷ flag "preemption" false
      ∷ flag "singlestep" false
      ∷ [])
  pure (interface_object ∷ [])

unfoldable pub board_setup_adc_one_shot : Prog (List ℕ)
board_setup_adc_one_shot = do
  interface_object ← init "AdcOneShot" (
      wire "pins" (pin "0" "7")
      ∷ wire "pins" (pin "0" "6")
      ∷ wire "pins" (pin "0" "14")
      ∷ wire "pins" (pin "0" "23")
      ∷ wire "pins" (pin "0" "18")
      ∷ wire "pins" (pin "0" "17")
      ∷ wire "pins" (pin "0" "13")
      ∷ word "sequence" "ADC0_SEQA"
      ∷ flag "preemption" true
      ∷ [])
  pure (interface_object ∷ [])

unfoldable pub board_setup_adc_stream : Prog (List ℕ)
board_setup_adc_stream = do
  interface_object ← init "AdcDmaStream" (
      wire "pins" (pin "0" "7")
      ∷ wire "pins" (pin "0" "6")
      ∷ wire "pins" (pin "0" "14")
      ∷ wire "pins" (pin "0" "23")
      ∷ wire "pins" (pin "0" "18")
      ∷ wire "pins" (pin "0" "17")
      ∷ wire "pins" (pin "0" "13")
      ∷ number "size" 2
      ∷ word "event" "ADC_SCT0_OUT3"
      ∷ word "sequence" "ADC0_SEQA"
      ∷ number "dma" 16
      ∷ flag "preemption" false
      ∷ flag "singlestep" false
      ∷ [])
  stream ← init "adcDmaStreamGetInput" (number "interface" interface_object ∷ [])
  pure (interface_object ∷ stream ∷ [])
