-- ===== src/M48x/Bus.antt =====
-- Buses of examples/m48x_default/shared/board.c.
use halm_examples.Base.{ℕ, List, [], ◌∷◌}
use halm_examples.Board.{number, word, wire, Prog, pure, ◌>>=◌, ◌>>◌, clock_enable, init, pin}
use halm_examples.M48x.{spi3_clock}

unfoldable pub board_setup_can : (timer : ℕ) → Prog (List ℕ)
board_setup_can timer = do
  interface_object ← init "Can" (
      number "timer" timer
      ∷ number "rate" 100000
      ∷ number "rxBuffers" 4
      ∷ number "txBuffers" 4
      ∷ wire "rx" (pin "PORT_A" "4")
      ∷ wire "tx" (pin "PORT_A" "5")
      ∷ number "channel" 0
      ∷ [])
  pure (interface_object ∷ [])

unfoldable pub board_setup_i2c : Prog (List ℕ)
board_setup_i2c = do
  interface_object ← init "I2C" (
      number "rate" 100000
      ∷ wire "scl" (pin "PORT_G" "0")
      ∷ wire "sda" (pin "PORT_G" "1")
      ∷ number "channel" 0
      ∷ [])
  pure (interface_object ∷ [])

unfoldable pub board_setup_spi : Prog (List ℕ)
board_setup_spi = do
  clock_enable spi3_clock (word "source" "CLOCK_APB" ∷ [])
  interface_object ← init "Spi" (
      number "rate" 2000000
      ∷ wire "miso" (pin "PORT_C" "12")
      ∷ wire "mosi" (pin "PORT_C" "11")
      ∷ wire "sck" (pin "PORT_A" "2")
      ∷ number "channel" 3
      ∷ number "mode" 0
      ∷ [])
  pure (interface_object ∷ [])

unfoldable pub board_setup_spi_dma : Prog (List ℕ)
board_setup_spi_dma = do
  clock_enable spi3_clock (word "source" "CLOCK_APB" ∷ [])
  interface_object ← init "SpiDma" (
      number "rate" 2000000
      ∷ wire "miso" (pin "PORT_C" "12")
      ∷ wire "mosi" (pin "PORT_C" "11")
      ∷ wire "sck" (pin "PORT_C" "10")
      ∷ number "channel" 3
      ∷ number "mode" 0
      ∷ word "dma" "DMA0_CHANNEL0"
      ∷ word "dma" "DMA0_CHANNEL1"
      ∷ [])
  pure (interface_object ∷ [])
