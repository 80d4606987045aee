-- ===== src/Lpc13xx/Analog.antt =====
-- Converters of examples/lpc13xx_default/shared/board.c.
use halm_examples.Base.{ℕ, List, [], ◌∷◌}
use halm_examples.Board.{number, word, wire, Prog, pure, ◌>>=◌, init, pin}

unfoldable pub board_setup_adc : Prog (List ℕ)
board_setup_adc = do
  interface_object ← init "Adc" (
      wire "pins" (pin "0" "11")
      ∷ wire "pins" (pin "1" "11")
      ∷ word "event" "ADC_CT32B0_MAT0"
      ∷ number "channel" 0
      ∷ [])
  pure (interface_object ∷ [])

unfoldable pub board_setup_adc_one_shot : Prog (List ℕ)
board_setup_adc_one_shot = do
  interface_object ←
      init "AdcOneShot"
        (wire "pins" (pin "0" "11") ∷ wire "pins" (pin "1" "11") ∷ number "channel" 0 ∷ [])
  pure (interface_object ∷ [])
