-- ===== src/Stm32f0xx/Serial.antt =====
-- Serial ports and USB of examples/stm32f0xx_default/shared/board.c.
use halm_examples.Base.{ℕ, List, [], ◌∷◌}
use halm_examples.Board.{number, word, wire, Prog, pure, ◌>>=◌, init, pin}

unfoldable pub board_setup_serial : Prog (List ℕ)
board_setup_serial = do
  interface_object ← init "Serial" (
      number "rxLength" 128
      ∷ number "txLength" 128
      ∷ number "rate" 19200
      ∷ wire "rx" (pin "PORT_A" "3")
      ∷ wire "tx" (pin "PORT_A" "2")
      ∷ word "channel" "USART2"
      ∷ [])
  pure (interface_object ∷ [])

unfoldable pub board_setup_serial_dma : Prog (List ℕ)
board_setup_serial_dma = do
  interface_object ← init "SerialDma" (
      number "rxChunk" 32
      ∷ number "rxLength" 128
      ∷ number "txLength" 128
      ∷ number "rate" 19200
      ∷ wire "rx" (pin "PORT_A" "3")
      ∷ wire "tx" (pin "PORT_A" "2")
      ∷ word "channel" "USART2"
      ∷ word "rxDma" "DMA1_STREAM5"
      ∷ word "txDma" "DMA1_STREAM4"
      ∷ [])
  pure (interface_object ∷ [])
