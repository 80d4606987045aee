-- ===== src/M03x/Serial.antt =====
-- Serial ports and USB of examples/m03x_default/shared/board.c.
use halm_examples.Base.{ℕ, some, List, [], ◌∷◌}
use halm_examples.Board.{
  source, number, word, wire, Prog, pure, ◌>>=◌, ◌>>◌, clock_enable, clock_ready, init, assert, pin,
}
use halm_examples.M03x.{system_pll, uart0_clock, usb_clock}

unfoldable pub board_setup_serial : Prog (List ℕ)
board_setup_serial = do
  clock_enable uart0_clock (number "divisor" 1 ∷ word "source" "CLOCK_APB" ∷ [])
  interface_object ← init "Serial" (
      number "rxLength" 128
      ∷ number "txLength" 128
      ∷ number "rate" 19200
      ∷ wire "rx" (pin "PORT_A" "0")
      ∷ wire "tx" (pin "PORT_A" "1")
      ∷ number "channel" 0
      ∷ [])
  pure (interface_object ∷ [])

unfoldable pub board_setup_serial_dma : Prog (List ℕ)
board_setup_serial_dma = do
  clock_enable uart0_clock (number "divisor" 1 ∷ word "source" "CLOCK_APB" ∷ [])
  interface_object ← init "SerialDma" (
      number "rxChunks" 8
      ∷ number "rxLength" 128
      ∷ number "txLength" 128
      ∷ number "rate" 19200
      ∷ wire "rx" (pin "PORT_A" "0")
      ∷ wire "tx" (pin "PORT_A" "1")
      ∷ number "channel" 0
      ∷ word "dma" "DMA0_CHANNEL0"
      ∷ word "dma" "DMA0_CHANNEL1"
      ∷ [])
  pure (interface_object ∷ [])

unfoldable pub board_setup_serial_dma_toc : Prog (List ℕ)
board_setup_serial_dma_toc = do
  clock_enable uart0_clock (number "divisor" 1 ∷ word "source" "CLOCK_APB" ∷ [])
  interface_object ← init "SerialDmaTOC" (
      number "rxChunk" 32
      ∷ number "rxLength" 128
      ∷ number "txLength" 128
      ∷ number "rate" 19200
      ∷ number "timeout" 80
      ∷ wire "rx" (pin "PORT_A" "0")
      ∷ wire "tx" (pin "PORT_A" "1")
      ∷ number "channel" 0
      ∷ word "dma" "DMA0_CHANNEL4"
      ∷ word "dma" "DMA0_CHANNEL0"
      ∷ [])
  pure (interface_object ∷ [])

unfoldable pub board_setup_usb : Prog (List ℕ)
board_setup_usb = do
  system_pll_up ← clock_ready system_pll
  assert system_pll_up
  clock_enable usb_clock (number "divisor" 2 ∷ source (some system_pll) ∷ [])
  usb ← init "UsbDevice" (
      wire "dm" (pin "PORT_USB" "PIN_USB_DM")
      ∷ wire "dp" (pin "PORT_USB" "PIN_USB_DP")
      ∷ wire "vbus" (pin "PORT_USB" "PIN_USB_VBUS")
      ∷ number "vid" 0x15A2
      ∷ number "pid" 0x0044
      ∷ number "channel" 0
      ∷ [])
  pure (usb ∷ [])
