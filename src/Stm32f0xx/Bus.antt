-- ===== src/Stm32f0xx/Bus.antt =====
-- Buses of examples/stm32f0xx_default/shared/board.c.
use halm_examples.Base.{ℕ, List, [], ◌∷◌}
use halm_examples.Board.{number, word, wire, Prog, pure, ◌>>=◌, init, pin}

unfoldable pub board_setup_can : (timer : ℕ) → Prog (List ℕ)
board_setup_can timer = do
  interface_object ← init "Can" (
      number "timer" timer
      ∷ number "rate" 100000
      ∷ number "rxBuffers" 4
      ∷ number "txBuffers" 4
      ∷ wire "rx" (pin "PORT_B" "8")
      ∷ wire "tx" (pin "PORT_B" "9")
      ∷ word "channel" "CAN1"
      ∷ [])
  pure (interface_object ∷ [])

unfoldable pub board_setup_i2c : Prog (List ℕ)
board_setup_i2c = do
  interface_object ← init "I2C" (
      number "rate" 100000
      ∷ wire "scl" (pin "PORT_B" "6")
      ∷ wire "sda" (pin "PORT_B" "7")
      ∷ word "channel" "I2C1"
      ∷ word "rxDma" "DMA1_STREAM3"
      ∷ word "txDma" "DMA1_STREAM2"
      ∷ [])
  pure (interface_object ∷ [])

unfoldable pub board_setup_spi : Prog (List ℕ)
board_setup_spi = do
  interface_object ← init "Spi" (
      number "rate" 2000000
      ∷ wire "miso" (pin "PORT_A" "6")
      ∷ wire "mosi" (pin "PORT_A" "7")
      ∷ wire "sck" (pin "PORT_A" "5")
      ∷ word "channel" "SPI1"
      ∷ number "mode" 0
      ∷ word "rxDma" "DMA1_STREAM2"
      ∷ word "txDma" "DMA1_STREAM3"
      ∷ [])
  pure (interface_object ∷ [])
