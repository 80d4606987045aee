-- ===== src/Lpc82x/Bus.antt =====
-- Buses of examples/lpc82x_default/shared/board.c.
use halm_examples.Base.{ℕ, List, [], ◌∷◌}
use halm_examples.Board.{number, wire, Prog, pure, ◌>>=◌, init, pin}

unfoldable pub board_setup_i2c : Prog (List ℕ)
board_setup_i2c = do
  interface_object ← init "I2C" (
      number "rate" 100000
      ∷ wire "scl" (pin "PORT_0" "10")
      ∷ wire "sda" (pin "PORT_0" "11")
      ∷ number "channel" 0
      ∷ [])
  pure (interface_object ∷ [])

unfoldable pub board_setup_i2c_dma : Prog (List ℕ)
board_setup_i2c_dma = do
  interface_object ← init "I2CDma" (
      number "rate" 100000
      ∷ wire "scl" (pin "PORT_0" "10")
      ∷ wire "sda" (pin "PORT_0" "11")
      ∷ number "channel" 0
      ∷ [])
  pure (interface_object ∷ [])

unfoldable pub board_setup_i2c_slave : Prog (List ℕ)
board_setup_i2c_slave = do
  interface_object ← init "I2CSlave" (
      number "size" 16
      ∷ wire "scl" (pin "PORT_0" "10")
      ∷ wire "sda" (pin "PORT_0" "11")
      ∷ number "channel" 0
      ∷ [])
  pure (interface_object ∷ [])

unfoldable pub board_setup_spi : Prog (List ℕ)
board_setup_spi = do
  interface_object ← init "Spi" (
      number "rate" 500000
      ∷ wire "miso" (pin "0" "22")
      ∷ wire "mosi" (pin "0" "11")
      ∷ wire "sck" (pin "0" "10")
      ∷ number "channel" 0
      ∷ number "mode" 0
      ∷ [])
  pure (interface_object ∷ [])

unfoldable pub board_setup_spi_dma : Prog (List ℕ)
board_setup_spi_dma = do
  interface_object ← init "SpiDma" (
      number "rate" 500000
      ∷ wire "miso" (pin "0" "22")
      ∷ wire "mosi" (pin "0" "11")
      ∷ wire "sck" (pin "0" "10")
      ∷ number "channel" 0
      ∷ number "mode" 0
      ∷ [])
  pure (interface_object ∷ [])
