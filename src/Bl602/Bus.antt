-- ===== src/Bl602/Bus.antt =====
-- Buses of examples/bl602_default/shared/board.c.
use halm_examples.Base.{ℕ, List, [], ◌∷◌}
use halm_examples.Board.{
  number, word, wire, Prog, pure, ◌>>=◌, ◌>>◌, clock_enable, wait_ready, init, pin,
}
use halm_examples.Bl602.{i2c_clock, uart_clock, spi_clock}

unfoldable pub board_setup_i2c : Prog (List ℕ)
board_setup_i2c = do
  clock_enable i2c_clock (number "divisor" 10 ∷ word "source" "CLOCK_SYSTEM" ∷ [])
  wait_ready uart_clock
  interface_object ← init "I2C" (
      number "rate" 400000
      ∷ wire "scl" (pin "0" "4")
      ∷ wire "sda" (pin "0" "3")
      ∷ number "channel" 0
      ∷ [])
  pure (interface_object ∷ [])

unfoldable pub board_setup_spi : Prog (List ℕ)
board_setup_spi = do
  clock_enable spi_clock (number "divisor" 4 ∷ [])
  wait_ready spi_clock
  interface_object ← init "Spi" (
      number "rate" 2000000
      ∷ wire "miso" (pin "0" "4")
      ∷ wire "mosi" (pin "0" "5")
      ∷ wire "sck" (pin "0" "7")
      ∷ number "channel" 0
      ∷ number "mode" 3
      ∷ [])
  pure (interface_object ∷ [])

unfoldable pub board_setup_spi_dma : Prog (List ℕ)
board_setup_spi_dma = do
  clock_enable spi_clock (number "divisor" 4 ∷ [])
  wait_ready spi_clock
  interface_object ← init "SpiDma" (
      number "rate" 2000000
      ∷ wire "miso" (pin "0" "4")
      ∷ wire "mosi" (pin "0" "5")
      ∷ wire "sck" (pin "0" "7")
      ∷ number "channel" 0
      ∷ number "mode" 3
      ∷ number "dma" 2
      ∷ number "dma" 3
      ∷ [])
  pure (interface_object ∷ [])
