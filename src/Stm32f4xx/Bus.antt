-- ===== src/Stm32f4xx/Bus.antt =====
-- Buses of examples/stm32f4xx_default/shared/board.c.
use halm_examples.Base.{ℕ, false, none, some, List, [], ◌∷◌}
use halm_examples.Board.{
  number, flag, word, wire, Prog, pure, stop, ◌>>=◌, ◌>>◌, clock_enable, wait_ready, init, pin,
}
use halm_examples.Stm32f4xx.{audio_pll}
use halm_examples.Stm32f4xx.Clock.{pll_config}

unfoldable pub board_setup_i2s : Prog (List ℕ)
board_setup_i2s = elim (pll_config 8000000) [
  | none ↦ stop
  | some audio_pll_config ↦ do
    clock_enable audio_pll audio_pll_config
    wait_ready audio_pll
    interface_object ← init "I2SDma" (
        number "depth" 96
        ∷ number "size" 5
        ∷ number "rate" 48000
        ∷ word "width" "I2S_WIDTH_16"
        ∷ wire "tx.sd" (pin "PORT_C" "3")
        ∷ word "tx.dma" "DMA1_STREAM4"
        ∷ wire "rx.sd" (pin "PORT_C" "2")
        ∷ word "rx.dma" "DMA1_STREAM3"
        ∷ number "mck" 0
        ∷ wire "sck" (pin "PORT_B" "10")
        ∷ wire "ws" (pin "PORT_B" "12")
        ∷ word "channel" "SPI2"
        ∷ flag "slave" false
        ∷ [])
    rx_stream ← init "i2sDmaGetInput" (number "interface" interface_object ∷ [])
    tx_stream ← init "i2sDmaGetOutput" (number "interface" interface_object ∷ [])
    pure (interface_object ∷ rx_stream ∷ tx_stream ∷ [])
]

unfoldable pub board_setup_can : (timer : ℕ) → Prog (List ℕ)
board_setup_can timer = do
  interface_object ← init "Can" (
      number "timer" timer
      ∷ number "rate" 100000
      ∷ number "rxBuffers" 4
      ∷ number "txBuffers" 4
      ∷ wire "rx" (pin "PORT_B" "8")
      ∷ wire "tx" (pin "PORT_B" "9")
      ∷ word "channel" "CAN1"
      ∷ [])
  pure (interface_object ∷ [])

unfoldable pub board_setup_i2c1 : Prog (List ℕ)
board_setup_i2c1 = do
  interface_object ← init "I2C" (
      number "rate" 100000
      ∷ wire "scl" (pin "PORT_B" "6")
      ∷ wire "sda" (pin "PORT_B" "7")
      ∷ word "channel" "I2C1"
      ∷ word "rxDma" "DMA1_STREAM0"
      ∷ word "txDma" "DMA1_STREAM7"
      ∷ [])
  pure (interface_object ∷ [])

unfoldable pub board_setup_i2c2 : Prog (List ℕ)
board_setup_i2c2 = do
  interface_object ← init "I2C" (
      number "rate" 100000
      ∷ word "scl" "BOARD_I2C2_SCL"
      ∷ word "sda" "BOARD_I2C2_SDA"
      ∷ word "channel" "I2C2"
      ∷ word "rxDma" "DMA1_STREAM2"
      ∷ word "txDma" "DMA1_STREAM7"
      ∷ [])
  pure (interface_object ∷ [])

unfoldable pub board_setup_spi1 : Prog (List ℕ)
board_setup_spi1 = do
  interface_object ← init "Spi" (
      number "rate" 2000000
      ∷ word "miso" "BOARD_SPI1_MISO"
      ∷ word "mosi" "BOARD_SPI1_MOSI"
      ∷ word "sck" "BOARD_SPI1_SCK"
      ∷ word "channel" "SPI1"
      ∷ number "mode" 0
      ∷ word "rxDma" "DMA2_STREAM2"
      ∷ word "txDma" "DMA2_STREAM3"
      ∷ [])
  pure (interface_object ∷ [])

unfoldable pub board_setup_spi2 : Prog (List ℕ)
board_setup_spi2 = do
  interface_object ← init "Spi" (
      number "rate" 2000000
      ∷ wire "miso" (pin "PORT_B" "14")
      ∷ wire "mosi" (pin "PORT_B" "15")
      ∷ wire "sck" (pin "PORT_B" "13")
      ∷ word "channel" "SPI2"
      ∷ number "mode" 0
      ∷ word "rxDma" "DMA1_STREAM3"
      ∷ word "txDma" "DMA1_STREAM4"
      ∷ [])
  pure (interface_object ∷ [])
