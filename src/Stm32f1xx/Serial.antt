-- ===== src/Stm32f1xx/Serial.antt =====
-- Serial ports and USB of examples/stm32f1xx_default/shared/board.c.
use halm_examples.Base.{ℕ, List, [], ◌∷◌}
use halm_examples.Board.{number, word, wire, Prog, pure, ◌>>=◌, ◌>>◌, clock_enable, init, pin}
use halm_examples.Stm32f1xx.{usb_clock}

unfoldable pub board_setup_serial : Prog (List ℕ)
board_setup_serial = do
  interface_object ← init "Serial" (
      number "rxLength" 128
      ∷ number "txLength" 128
      ∷ number "rate" 19200
      ∷ wire "rx" (pin "PORT_B" "7")
      ∷ wire "tx" (pin "PORT_B" "6")
      ∷ word "channel" "USART1"
      ∷ [])
  pure (interface_object ∷ [])

unfoldable pub board_setup_serial_dma : Prog (List ℕ)
board_setup_serial_dma = do
  interface_object ← init "SerialDma" (
      number "rxChunk" 32
      ∷ number "rxLength" 128
      ∷ number "txLength" 128
      ∷ number "rate" 19200
      ∷ wire "rx" (pin "PORT_B" "7")
      ∷ wire "tx" (pin "PORT_B" "6")
      ∷ word "channel" "USART1"
      ∷ word "rxDma" "DMA1_STREAM5"
      ∷ word "txDma" "DMA1_STREAM4"
      ∷ [])
  pure (interface_object ∷ [])

unfoldable pub board_setup_usb : Prog (List ℕ)
board_setup_usb = do
  clock_enable usb_clock (word "divisor" "USB_CLK_DIV_1_5" ∷ [])
  usb ← init "UsbDevice" (
      wire "dm" (pin "PORT_A" "11")
      ∷ wire "dp" (pin "PORT_A" "12")
      ∷ number "vid" 0x15A2
      ∷ number "pid" 0x0044
      ∷ number "channel" 0
      ∷ [])
  pure (usb ∷ [])
