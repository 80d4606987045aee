-- ===== src/Lpc43xx/Serial.antt =====
-- Serial ports and USB of examples/lpc43xx_default/shared/board.c.
use halm_examples.Base.{ℕ, not, some, List, [], ◌∷◌}
use halm_examples.Board.{
  source, number, word, wire, Prog, pure, ◌>>=◌, ◌>>◌, clock_enable, clock_ready, wait_ready, init,
  number_of, perform, when, pin,
}
use halm_examples.Lpc43xx.{
  audio_pll, usb_pll, external_osc, divider_a, usart0_clock, uart1_clock, usart2_clock, usb0_clock,
  usb1_clock,
}
use halm_examples.Lpc43xx.Clock.{enable_periph_clock}

unfoldable pub uac_wrapper_get_feedback_ratio : (object : ℕ) → Prog ℕ
uac_wrapper_get_feedback_ratio object = number_of "sctSofGetRatio" object

unfoldable pub uac_wrapper_set_sample_rate : (object rate : ℕ) → Prog Unit
uac_wrapper_set_sample_rate object rate =
    perform "sctSofSetSampleRate" (number "object" object ∷ number "rate" rate ∷ [])

unfoldable pub board_setup_uac_feedback : Prog (List ℕ)
board_setup_uac_feedback = do
  timer ← init "SctSof" (
      number "frequency" 12000000
      ∷ word "i2s" "SCTSOF_I2S0_TX_MWS_6"
      ∷ word "usb" "SCTSOF_USB0_SOF_7"
      ∷ word "part" "SCT_LOW"
      ∷ number "priority" 1
      ∷ number "channel" 0
      ∷ [])
  perform "timerEnable" (number "timer" timer ∷ [])
  pure (timer ∷ [])

unfoldable pub board_setup_serial0 : Prog (List ℕ)
board_setup_serial0 = do
  enable_periph_clock usart0_clock
  interface_object ← init "Serial" (
      number "rxLength" 512
      ∷ number "txLength" 512
      ∷ number "rate" 19200
      ∷ wire "rx" (pin "PORT_6" "5")
      ∷ wire "tx" (pin "PORT_6" "4")
      ∷ number "channel" 0
      ∷ [])
  pure (interface_object ∷ [])

unfoldable pub board_setup_serial1 : Prog (List ℕ)
board_setup_serial1 = do
  enable_periph_clock uart1_clock
  interface_object ← init "Serial" (
      number "rxLength" 512
      ∷ number "txLength" 512
      ∷ number "rate" 19200
      ∷ wire "rx" (pin "PORT_1" "14")
      ∷ wire "tx" (pin "PORT_5" "6")
      ∷ number "channel" 1
      ∷ [])
  pure (interface_object ∷ [])

unfoldable pub board_setup_serial2 : Prog (List ℕ)
board_setup_serial2 = do
  enable_periph_clock usart2_clock
  interface_object ← init "Serial" (
      number "rxLength" 512
      ∷ number "txLength" 512
      ∷ number "rate" 19200
      ∷ wire "rx" (pin "PORT_2" "11")
      ∷ wire "tx" (pin "PORT_2" "10")
      ∷ number "channel" 2
      ∷ [])
  pure (interface_object ∷ [])

unfoldable pub board_setup_serial_dma0 : Prog (List ℕ)
board_setup_serial_dma0 = do
  enable_periph_clock usart0_clock
  interface_object ← init "SerialDma" (
      number "rxChunks" 4
      ∷ number "rxLength" 512
      ∷ number "txLength" 512
      ∷ number "rate" 19200
      ∷ wire "rx" (pin "PORT_6" "5")
      ∷ wire "tx" (pin "PORT_6" "4")
      ∷ number "channel" 0
      ∷ number "dma" 2
      ∷ number "dma" 3
      ∷ [])
  pure (interface_object ∷ [])

unfoldable pub board_setup_serial_dma1 : Prog (List ℕ)
board_setup_serial_dma1 = do
  enable_periph_clock uart1_clock
  interface_object ← init "SerialDma" (
      number "rxChunks" 4
      ∷ number "rxLength" 512
      ∷ number "txLength" 512
      ∷ number "rate" 19200
      ∷ wire "rx" (pin "PORT_1" "14")
      ∷ wire "tx" (pin "PORT_5" "6")
      ∷ number "channel" 1
      ∷ number "dma" 2
      ∷ number "dma" 3
      ∷ [])
  pure (interface_object ∷ [])

unfoldable pub board_setup_serial_dma2 : Prog (List ℕ)
board_setup_serial_dma2 = do
  enable_periph_clock usart2_clock
  interface_object ← init "SerialDma" (
      number "rxChunks" 4
      ∷ number "rxLength" 512
      ∷ number "txLength" 512
      ∷ number "rate" 19200
      ∷ wire "rx" (pin "PORT_2" "11")
      ∷ wire "tx" (pin "PORT_2" "10")
      ∷ number "channel" 2
      ∷ number "dma" 2
      ∷ number "dma" 3
      ∷ [])
  pure (interface_object ∷ [])

unfoldable pub board_setup_usb0 : Prog (List ℕ)
board_setup_usb0 = do
  clock_enable usb_pll
      (number "divisor" 1 ∷ number "multiplier" 40 ∷ source (some external_osc) ∷ [])
  wait_ready usb_pll
  clock_enable usb0_clock (source (some usb_pll) ∷ [])
  wait_ready usb0_clock
  usb ← init "UsbDevice" (
      wire "dm" (pin "PORT_USB" "PIN_USB0_DM")
      ∷ wire "dp" (pin "PORT_USB" "PIN_USB0_DP")
      ∷ number "connect" 0
      ∷ wire "vbus" (pin "PORT_USB" "PIN_USB0_VBUS")
      ∷ number "vid" 0x15A2
      ∷ number "pid" 0x0044
      ∷ number "channel" 0
      ∷ [])
  pure (usb ∷ [])

unfoldable pub board_setup_usb1 : Prog (List ℕ)
board_setup_usb1 = do
  audio_pll_up ← clock_ready audio_pll
  when (not audio_pll_up) do
    clock_enable audio_pll
        (number "divisor" 4 ∷ number "multiplier" 40 ∷ source (some external_osc) ∷ [])
    wait_ready audio_pll
  clock_enable divider_a (number "divisor" 2 ∷ source (some audio_pll) ∷ [])
  wait_ready divider_a
  clock_enable usb1_clock (source (some divider_a) ∷ [])
  wait_ready usb1_clock
  usb ← init "UsbDevice" (
      wire "dm" (pin "PORT_USB" "PIN_USB1_DM")
      ∷ wire "dp" (pin "PORT_USB" "PIN_USB1_DP")
      ∷ number "connect" 0
      ∷ wire "vbus" (pin "PORT_2" "5")
      ∷ number "vid" 0x15A2
      ∷ number "pid" 0x0044
      ∷ number "channel" 1
      ∷ [])
  pure (usb ∷ [])
