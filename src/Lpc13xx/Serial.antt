-- ===== src/Lpc13xx/Serial.antt =====
-- Serial ports and USB of examples/lpc13xx_default/shared/board.c.
use halm_examples.Base.{ℕ, some, List, [], ◌∷◌}
use halm_examples.Board.{
  source, number, wire, Prog, pure, ◌>>=◌, ◌>>◌, clock_enable, wait_ready, init, pin,
}
use halm_examples.Lpc13xx.{external_osc, usb_pll, usb_clock}

unfoldable pub board_setup_serial : Prog (List ℕ)
board_setup_serial = do
  interface_object ← init "Serial" (
      number "rxLength" 128
      ∷ number "txLength" 128
      ∷ number "rate" 19200
      ∷ wire "rx" (pin "1" "6")
      ∷ wire "tx" (pin "1" "7")
      ∷ number "channel" 0
      ∷ [])
  pure (interface_object ∷ [])

unfoldable pub board_setup_serial_poll : Prog (List ℕ)
board_setup_serial_poll = do
  interface_object ← init "SerialPoll" (
      number "rate" 19200
      ∷ wire "rx" (pin "1" "6")
      ∷ wire "tx" (pin "1" "7")
      ∷ number "channel" 0
      ∷ [])
  pure (interface_object ∷ [])

unfoldable pub board_setup_usb : Prog (List ℕ)
board_setup_usb = do
  clock_enable usb_pll
      (number "divisor" 4 ∷ number "multiplier" 16 ∷ source (some external_osc) ∷ [])
  wait_ready usb_pll
  clock_enable usb_clock (source (some usb_pll) ∷ [])
  wait_ready usb_clock
  usb ← init "UsbDevice" (
      wire "dm" (pin "PORT_USB" "PIN_USB_DM")
      ∷ wire "dp" (pin "PORT_USB" "PIN_USB_DP")
      ∷ wire "connect" (pin "PORT_0" "6")
      ∷ wire "vbus" (pin "PORT_0" "3")
      ∷ number "vid" 0x15A2
      ∷ number "pid" 0x0044
      ∷ number "channel" 0
      ∷ [])
  pure (usb ∷ [])
