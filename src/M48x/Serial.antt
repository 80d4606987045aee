-- ===== src/M48x/Serial.antt =====
-- Serial ports and USB of examples/m48x_default/shared/board.c.
use halm_examples.Base.{ℕ, some, List, [], ◌∷◌}
use halm_examples.Board.{
  source, number, wire, Prog, pure, ◌>>=◌, ◌>>◌, clock_enable, clock_ready, init, assert, pin,
}
use halm_examples.M48x.{external_osc, system_pll, uart0_clock, usb_clock}

unfoldable pub board_setup_serial : Prog (List ℕ)
board_setup_serial = do
  clock_enable uart0_clock (number "divisor" 1 ∷ source (some system_pll) ∷ [])
  interface_object ← init "Serial" (
      number "rxLength" 512
      ∷ number "txLength" 512
      ∷ number "rate" 19200
      ∷ wire "rx" (pin "PORT_A" "0")
      ∷ wire "tx" (pin "PORT_A" "1")
      ∷ number "channel" 0
      ∷ [])
  pure (interface_object ∷ [])

unfoldable pub board_setup_usb_fs : Prog (List ℕ)
board_setup_usb_fs = do
  system_pll_up ← clock_ready system_pll
  assert system_pll_up
  clock_enable usb_clock (number "divisor" 10 ∷ source (some system_pll) ∷ [])
  usb ← init "UsbDevice" (
      wire "dm" (pin "PORT_A" "13")
      ∷ wire "dp" (pin "PORT_A" "14")
      ∷ wire "vbus" (pin "PORT_A" "12")
      ∷ number "vid" 0x15A2
      ∷ number "pid" 0x0044
      ∷ number "channel" 0
      ∷ [])
  pure (usb ∷ [])

unfoldable pub board_setup_usb_hs : Prog (List ℕ)
board_setup_usb_hs = do
  external_osc_up ← clock_ready external_osc
  assert external_osc_up
  usb ← init "HsUsbDevice" (
      wire "dm" (pin "PORT_HSUSB" "PIN_HSUSB_DM")
      ∷ wire "dp" (pin "PORT_HSUSB" "PIN_HSUSB_DP")
      ∷ wire "vbus" (pin "PORT_HSUSB" "PIN_HSUSB_VBUS")
      ∷ number "vid" 0x15A2
      ∷ number "pid" 0x0044
      ∷ number "channel" 0
      ∷ [])
  pure (usb ∷ [])
