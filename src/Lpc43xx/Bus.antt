-- ===== src/Lpc43xx/Bus.antt =====
-- Buses of examples/lpc43xx_default/shared/board.c.
use halm_examples.Base.{ℕ, false, not, none, some, List, [], ◌∷◌}
use halm_examples.Board.{
  source, number, flag, word, wire, Prog, pure, ◌>>=◌, ◌>>◌, clock_enable, clock_ready, wait_ready,
  init, number_of, when, pin,
}
use halm_examples.Lpc43xx.{
  audio_pll, external_osc, apb3_clock, divider_a, phy_rx_clock, phy_tx_clock, apb1_clock,
  ssp0_clock, ssp1_clock,
}
use halm_examples.Lpc43xx.Clock.{enable_periph_clock}

-- The channel is 0, so that the bus of the `if` is APB3.
unfoldable pub board_setup_can : (timer : ℕ) → Prog (List ℕ)
board_setup_can timer = do
  audio_pll_up ← clock_ready audio_pll
  when (not audio_pll_up) (do
    clock_enable audio_pll
        (number "divisor" 4 ∷ number "multiplier" 40 ∷ source (some external_osc) ∷ [])
    wait_ready audio_pll)
  clock_enable divider_a (number "divisor" 3 ∷ source (some audio_pll) ∷ [])
  wait_ready divider_a
  clock_enable apb3_clock (source (some divider_a) ∷ [])
  wait_ready apb3_clock
  interface_object ← init "Can" (
      number "timer" timer
      ∷ number "rate" 100000
      ∷ number "rxBuffers" 4
      ∷ number "txBuffers" 4
      ∷ wire "rx" (pin "PORT_3" "1")
      ∷ wire "tx" (pin "PORT_3" "2")
      ∷ number "channel" 0
      ∷ [])
  pure (interface_object ∷ [])

-- The clock that comes from the PHY is no clock class.
unfoldable pub board_setup_ethernet : (address rx_size tx_size : ℕ) → Prog (List ℕ)
board_setup_ethernet address rx_size tx_size = do
  clock_enable phy_rx_clock (source none ∷ [])
  wait_ready phy_rx_clock
  clock_enable phy_tx_clock (source none ∷ [])
  wait_ready phy_tx_clock
  eth ← init "Ethernet" (
      number "address" address
      ∷ number "rate" 100000000
      ∷ number "rxSize" rx_size
      ∷ number "txSize" tx_size
      ∷ flag "halfduplex" false
      ∷ wire "txclk" (pin "PORT_1" "19")
      ∷ wire "rxd" (pin "PORT_1" "15")
      ∷ wire "rxd" (pin "PORT_0" "0")
      ∷ wire "rxdv" (pin "PORT_1" "16")
      ∷ wire "txd" (pin "PORT_1" "18")
      ∷ wire "txd" (pin "PORT_1" "20")
      ∷ wire "txen" (pin "PORT_0" "1")
      ∷ wire "mdc" (pin "PORT_2" "0")
      ∷ wire "mdio" (pin "PORT_1" "17")
      ∷ [])
  mdio ← init "ethMakeMDIO" (number "eth" eth ∷ [])
  rx_stream ← number_of "ethGetInput" eth
  tx_stream ← number_of "ethGetOutput" eth
  proxy ← init "BufferingProxy" (
      number "pipe" eth
      ∷ number "rx.stream" rx_stream
      ∷ number "rx.count" 4
      ∷ number "rx.size" 1056
      ∷ number "tx.stream" tx_stream
      ∷ number "tx.count" 4
      ∷ number "tx.size" 1056
      ∷ [])
  pure (eth ∷ mdio ∷ proxy ∷ [])

unfoldable pub board_setup_i2c0 : Prog (List ℕ)
board_setup_i2c0 = do
  enable_periph_clock apb1_clock
  interface_object ← init "I2C" (
      number "rate" 100000
      ∷ wire "scl" (pin "PORT_I2C" "PIN_I2C0_SCL")
      ∷ wire "sda" (pin "PORT_I2C" "PIN_I2C0_SDA")
      ∷ number "channel" 0
      ∷ [])
  pure (interface_object ∷ [])

unfoldable pub board_setup_i2c1 : Prog (List ℕ)
board_setup_i2c1 = do
  enable_periph_clock apb3_clock
  interface_object ← init "I2C" (
      number "rate" 100000
      ∷ wire "scl" (pin "PORT_2" "4")
      ∷ wire "sda" (pin "PORT_2" "3")
      ∷ number "channel" 1
      ∷ [])
  pure (interface_object ∷ [])

unfoldable pub board_setup_i2c_slave0 : Prog (List ℕ)
board_setup_i2c_slave0 = do
  enable_periph_clock apb1_clock
  interface_object ← init "I2CSlave" (
      number "size" 16
      ∷ wire "scl" (pin "PORT_I2C" "PIN_I2C0_SCL")
      ∷ wire "sda" (pin "PORT_I2C" "PIN_I2C0_SDA")
      ∷ number "channel" 0
      ∷ [])
  pure (interface_object ∷ [])

unfoldable pub board_setup_i2c_slave1 : Prog (List ℕ)
board_setup_i2c_slave1 = do
  enable_periph_clock apb3_clock
  interface_object ← init "I2CSlave" (
      number "size" 16
      ∷ wire "scl" (pin "PORT_2" "4")
      ∷ wire "sda" (pin "PORT_2" "3")
      ∷ number "channel" 1
      ∷ [])
  pure (interface_object ∷ [])

unfoldable pub board_setup_i2s : Prog (List ℕ)
board_setup_i2s = do
  enable_periph_clock apb1_clock
  interface_object ← init "I2SDma" (
      number "size" 8
      ∷ number "rate" 96000
      ∷ word "width" "I2S_WIDTH_16"
      ∷ wire "rx.sd" (pin "PORT_6" "2")
      ∷ number "rx.dma" 7
      ∷ wire "tx.mck" (pin "PORT_CLK" "2")
      ∷ wire "tx.sck" (pin "PORT_4" "7")
      ∷ wire "tx.sd" (pin "PORT_7" "2")
      ∷ wire "tx.ws" (pin "PORT_7" "1")
      ∷ number "tx.dma" 6
      ∷ number "channel" 0
      ∷ flag "mono" false
      ∷ flag "slave" false
      ∷ [])
  rx_stream ← init "i2sDmaGetInput" (number "interface" interface_object ∷ [])
  tx_stream ← init "i2sDmaGetOutput" (number "interface" interface_object ∷ [])
  pure (interface_object ∷ rx_stream ∷ tx_stream ∷ [])

unfoldable pub board_setup_spi0 : Prog (List ℕ)
board_setup_spi0 = do
  enable_periph_clock ssp0_clock
  interface_object ← init "Spi" (
      number "rate" 2000000
      ∷ wire "miso" (pin "PORT_1" "1")
      ∷ wire "mosi" (pin "PORT_1" "2")
      ∷ wire "sck" (pin "PORT_3" "0")
      ∷ number "channel" 0
      ∷ number "mode" 0
      ∷ [])
  pure (interface_object ∷ [])

unfoldable pub board_setup_spi1 : Prog (List ℕ)
board_setup_spi1 = do
  enable_periph_clock ssp1_clock
  interface_object ← init "Spi" (
      number "rate" 2000000
      ∷ wire "miso" (pin "PORT_1" "3")
      ∷ wire "mosi" (pin "PORT_1" "4")
      ∷ wire "sck" (pin "PORT_F" "4")
      ∷ number "channel" 1
      ∷ number "mode" 0
      ∷ [])
  pure (interface_object ∷ [])

unfoldable pub board_setup_spi_dma0 : Prog (List ℕ)
board_setup_spi_dma0 = do
  enable_periph_clock ssp0_clock
  interface_object ← init "SpiDma" (
      number "rate" 2000000
      ∷ wire "miso" (pin "PORT_1" "1")
      ∷ wire "mosi" (pin "PORT_1" "2")
      ∷ wire "sck" (pin "PORT_3" "0")
      ∷ number "channel" 0
      ∷ number "mode" 0
      ∷ number "dma" 0
      ∷ number "dma" 1
      ∷ [])
  pure (interface_object ∷ [])

unfoldable pub board_setup_spi_dma1 : Prog (List ℕ)
board_setup_spi_dma1 = do
  enable_periph_clock ssp1_clock
  interface_object ← init "SpiDma" (
      number "rate" 2000000
      ∷ wire "miso" (pin "PORT_1" "3")
      ∷ wire "mosi" (pin "PORT_1" "4")
      ∷ wire "sck" (pin "PORT_F" "4")
      ∷ number "channel" 1
      ∷ number "mode" 0
      ∷ number "dma" 0
      ∷ number "dma" 1
      ∷ [])
  pure (interface_object ∷ [])
