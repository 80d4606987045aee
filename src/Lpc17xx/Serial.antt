-- ===== src/Lpc17xx/Serial.antt =====
-- Serial ports and USB of examples/lpc17xx_default/shared/board.c.
use halm_examples.Base.{ℕ, some, List, [], ◌∷◌}
use halm_examples.Board.{
  source, number, wire, Prog, pure, ◌>>=◌, ◌>>◌, clock_enable, wait_ready, init, pin,
}
use halm_examples.Lpc17xx.{usb_pll, external_osc, usb_clock}

unfoldable pub board_setup_serial : Prog (List ℕ)
board_setup_serial = do
  interface_object ← init "Serial" (
      number "rxLength" 128
      ∷ number "txLength" 128
      ∷ number "rate" 19200
      ∷ wire "rx" (pin "0" "16")
      ∷ wire "tx" (pin "0" "15")
      ∷ number "channel" 1
      ∷ [])
  pure (interface_object ∷ [])

unfoldable pub board_setup_serial_dma : Prog (List ℕ)
board_setup_serial_dma = do
  interface_object ← init "SerialDma" (
      number "rxChunks" 4
      ∷ number "rxLength" 128
      ∷ number "txLength" 128
      ∷ number "rate" 19200
      ∷ wire "rx" (pin "0" "16")
      ∷ wire "tx" (pin "0" "15")
      ∷ number "channel" 1
      ∷ number "dma" 2
      ∷ number "dma" 3
      ∷ [])
  pure (interface_object ∷ [])

unfoldable pub board_setup_usb : Prog (List ℕ)
board_setup_usb = do
  clock_enable usb_pll
      (number "divisor" 4 ∷ number "multiplier" 16 ∷ source (some external_osc) ∷ [])
  wait_ready usb_pll
  clock_enable usb_clock (source (some usb_pll) ∷ [])
  wait_ready usb_clock
  usb ← init "UsbDevice" (
      wire "dm" (pin "0" "30")
      ∷ wire "dp" (pin "0" "29")
      ∷ wire "connect" (pin "2" "9")
      ∷ wire "vbus" (pin "1" "30")
      ∷ number "vid" 0x15A2
      ∷ number "pid" 0x0044
      ∷ number "channel" 0
      ∷ [])
  pure (usb ∷ [])
