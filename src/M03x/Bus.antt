-- ===== src/M03x/Bus.antt =====
-- Buses of examples/m03x_default/shared/board.c.
use halm_examples.Base.{ℕ, List, [], ◌∷◌}
use halm_examples.Board.{number, word, wire, Prog, pure, ◌>>=◌, ◌>>◌, clock_enable, init, pin}
use halm_examples.M03x.{spi0_clock}

unfoldable pub board_setup_i2c : Prog (List ℕ)
board_setup_i2c = do
  interface_object ← init "I2C" (
      number "rate" 100000
      ∷ wire "scl" (pin "PORT_B" "5")
      ∷ wire "sda" (pin "PORT_B" "4")
      ∷ number "channel" 0
      ∷ [])
  pure (interface_object ∷ [])

unfoldable pub board_setup_spi : Prog (List ℕ)
board_setup_spi = do
  clock_enable spi0_clock (number "divisor" 1 ∷ word "source" "CLOCK_APB" ∷ [])
  interface_object ← init "Spi" (
      number "rate" 2000000
      ∷ wire "miso" (pin "PORT_B" "13")
      ∷ wire "mosi" (pin "PORT_B" "12")
      ∷ wire "sck" (pin "PORT_A" "2")
      ∷ number "channel" 0
      ∷ number "mode" 0
      ∷ [])
  pure (interface_object ∷ [])

unfoldable pub board_setup_spi_dma : Prog (List ℕ)
board_setup_spi_dma = do
  clock_enable spi0_clock (number "divisor" 1 ∷ word "source" "CLOCK_APB" ∷ [])
  interface_object ← init "SpiDma" (
      number "rate" 2000000
      ∷ wire "miso" (pin "PORT_B" "13")
      ∷ wire "mosi" (pin "PORT_B" "12")
      ∷ wire "sck" (pin "PORT_A" "2")
      ∷ number "channel" 0
      ∷ number "mode" 0
      ∷ word "dma" "DMA0_CHANNEL0"
      ∷ word "dma" "DMA0_CHANNEL1"
      ∷ [])
  pure (interface_object ∷ [])
