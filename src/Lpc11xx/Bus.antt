-- ===== src/Lpc11xx/Bus.antt =====
-- Buses of examples/lpc11xx_default/shared/board.c.
use halm_examples.Base.{ℕ, List, [], ◌∷◌}
use halm_examples.Board.{number, wire, Prog, pure, ◌>>=◌, init, pin}

unfoldable pub board_setup_i2c : Prog (List ℕ)
board_setup_i2c = do
  interface_object ← init "I2C" (
      number "rate" 100000
      ∷ wire "scl" (pin "0" "4")
      ∷ wire "sda" (pin "0" "5")
      ∷ number "channel" 0
      ∷ [])
  pure (interface_object ∷ [])

unfoldable pub board_setup_spi : Prog (List ℕ)
board_setup_spi = do
  interface_object ← init "Spi" (
      number "rate" 2000000
      ∷ wire "miso" (pin "0" "8")
      ∷ wire "mosi" (pin "0" "9")
      ∷ wire "sck" (pin "0" "6")
      ∷ number "channel" 0
      ∷ number "mode" 0
      ∷ [])
  pure (interface_object ∷ [])
