-- ===== src/Lpc17xx/Bus.antt =====
-- Buses of examples/lpc17xx_default/shared/board.c.
use halm_examples.Base.{ℕ, false, List, [], ◌∷◌}
use halm_examples.Board.{number, flag, word, wire, Prog, pure, ◌>>=◌, init, pin}

unfoldable pub board_setup_can : (timer : ℕ) → Prog (List ℕ)
board_setup_can timer = do
  interface_object ← init "Can" (
      number "timer" timer
      ∷ number "rate" 100000
      ∷ number "rxBuffers" 4
      ∷ number "txBuffers" 4
      ∷ wire "rx" (pin "0" "0")
      ∷ wire "tx" (pin "0" "1")
      ∷ number "channel" 0
      ∷ [])
  pure (interface_object ∷ [])

unfoldable pub board_setup_i2c : Prog (List ℕ)
board_setup_i2c = do
  interface_object ← init "I2C" (
      number "rate" 100000
      ∷ wire "scl" (pin "0" "11")
      ∷ wire "sda" (pin "0" "10")
      ∷ number "channel" 2
      ∷ [])
  pure (interface_object ∷ [])

unfoldable pub board_setup_i2c_slave : Prog (List ℕ)
board_setup_i2c_slave = do
  interface_object ← init "I2CSlave" (
      number "size" 16
      ∷ wire "scl" (pin "0" "11")
      ∷ wire "sda" (pin "0" "10")
      ∷ number "channel" 2
      ∷ [])
  pure (interface_object ∷ [])

unfoldable pub board_setup_i2s : Prog (List ℕ)
board_setup_i2s = do
  interface_object ← init "I2SDma" (
      number "size" 2
      ∷ number "rate" 96000
      ∷ word "width" "I2S_WIDTH_16"
      ∷ wire "rx.sd" (pin "0" "6")
      ∷ number "rx.dma" 7
      ∷ wire "tx.mck" (pin "4" "29")
      ∷ wire "tx.sck" (pin "0" "7")
      ∷ wire "tx.sd" (pin "0" "9")
      ∷ wire "tx.ws" (pin "0" "8")
      ∷ number "tx.dma" 6
      ∷ number "channel" 0
      ∷ flag "mono" false
      ∷ flag "slave" false
      ∷ [])
  rx_stream ← init "i2sDmaGetInput" (number "interface" interface_object ∷ [])
  tx_stream ← init "i2sDmaGetOutput" (number "interface" interface_object ∷ [])
  pure (interface_object ∷ rx_stream ∷ tx_stream ∷ [])

unfoldable pub board_setup_spi0 : Prog (List ℕ)
board_setup_spi0 = do
  interface_object ← init "Spi" (
      number "rate" 2000000
      ∷ wire "miso" (pin "0" "17")
      ∷ wire "mosi" (pin "0" "18")
      ∷ wire "sck" (pin "1" "20")
      ∷ number "channel" 0
      ∷ number "mode" 3
      ∷ [])
  pure (interface_object ∷ [])

unfoldable pub board_setup_spi1 : Prog (List ℕ)
board_setup_spi1 = do
  interface_object ← init "Spi" (
      number "rate" 2000000
      ∷ wire "miso" (pin "0" "8")
      ∷ wire "mosi" (pin "0" "9")
      ∷ wire "sck" (pin "0" "7")
      ∷ number "channel" 1
      ∷ number "mode" 3
      ∷ [])
  pure (interface_object ∷ [])

unfoldable pub board_setup_spi_dma0 : Prog (List ℕ)
board_setup_spi_dma0 = do
  interface_object ← init "SpiDma" (
      number "rate" 2000000
      ∷ wire "miso" (pin "0" "17")
      ∷ wire "mosi" (pin "0" "18")
      ∷ wire "sck" (pin "1" "20")
      ∷ number "channel" 0
      ∷ number "mode" 3
      ∷ number "dma" 0
      ∷ number "dma" 1
      ∷ [])
  pure (interface_object ∷ [])

unfoldable pub board_setup_spi_dma1 : Prog (List ℕ)
board_setup_spi_dma1 = do
  interface_object ← init "SpiDma" (
      number "rate" 2000000
      ∷ wire "miso" (pin "0" "8")
      ∷ wire "mosi" (pin "0" "9")
      ∷ wire "sck" (pin "0" "7")
      ∷ number "channel" 1
      ∷ number "mode" 3
      ∷ number "dma" 0
      ∷ number "dma" 1
      ∷ [])
  pure (interface_object ∷ [])
