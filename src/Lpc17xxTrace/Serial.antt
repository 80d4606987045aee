-- ===== src/Lpc17xxTrace/Serial.antt =====
-- Serial ports and USB of examples/lpc17xx_trace/shared/board.c.
use halm_examples.Base.{ℕ, some, List, [], ◌∷◌}
use halm_examples.Board.{
  object_of, source, number, wire, Prog, pure, ◌>>=◌, ◌>>◌, clock_enable, wait_ready, init, perform,
  pin,
}
use halm_examples.Lpc17xxTrace.{external_osc, usb_pll, usb_clock}
use halm_examples.Lpc17xxTrace.Timing.{board_setup_timer2}

unfoldable pub board_setup_serial : Prog (List ℕ)
board_setup_serial = do
  interface_object ← init "Serial" (
      number "rxLength" 16
      ∷ number "txLength" 8192
      ∷ number "rate" 1500000
      ∷ wire "rx" (pin "0" "16")
      ∷ wire "tx" (pin "0" "15")
      ∷ number "channel" 1
      ∷ [])
  pure (interface_object ∷ [])

unfoldable pub board_setup_usb : Prog (List ℕ)
board_setup_usb = do
  clock_enable usb_pll
      (number "divisor" 4 ∷ number "multiplier" 16 ∷ source (some external_osc) ∷ [])
  wait_ready usb_pll
  clock_enable usb_clock (source (some usb_pll) ∷ [])
  wait_ready usb_clock
  trace_chrono ← board_setup_timer2
  trace_serial ← board_setup_serial
  perform "usbTraceInit" (
      number "traceSerial" (object_of trace_serial)
      ∷ number "traceChrono" (object_of trace_chrono)
      ∷ [])
  usb ← init "UsbDevice" (
      wire "dm" (pin "0" "30")
      ∷ wire "dp" (pin "0" "29")
      ∷ wire "connect" (pin "2" "9")
      ∷ wire "vbus" (pin "1" "30")
      ∷ number "vid" 0x15A2
      ∷ number "pid" 0x0044
      ∷ number "channel" 0
      ∷ [])
  pure (usb ∷ [])
