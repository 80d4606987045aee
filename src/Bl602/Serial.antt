-- ===== src/Bl602/Serial.antt =====
-- Serial ports and USB of examples/bl602_default/shared/board.c.
use halm_examples.Base.{ℕ, List, [], ◌∷◌}
use halm_examples.Board.{
  number, word, wire, Prog, pure, ◌>>=◌, ◌>>◌, clock_enable, wait_ready, init, pin,
}
use halm_examples.Bl602.{uart_clock}

unfoldable pub board_setup_serial : Prog (List ℕ)
board_setup_serial = do
  clock_enable uart_clock (number "divisor" 1 ∷ word "source" "CLOCK_SYSTEM" ∷ [])
  wait_ready uart_clock
  interface_object ← init "Serial" (
      number "rxLength" 128
      ∷ number "txLength" 128
      ∷ number "rate" 19200
      ∷ wire "rx" (pin "0" "7")
      ∷ wire "tx" (pin "0" "16")
      ∷ number "channel" 0
      ∷ [])
  pure (interface_object ∷ [])

unfoldable pub board_setup_serial_dma : Prog (List ℕ)
board_setup_serial_dma = do
  clock_enable uart_clock (number "divisor" 1 ∷ word "source" "CLOCK_SYSTEM" ∷ [])
  wait_ready uart_clock
  interface_object ← init "SerialDma" (
      number "rxChunk" 32
      ∷ number "rxLength" 128
      ∷ number "txLength" 128
      ∷ number "rate" 19200
      ∷ wire "rx" (pin "0" "7")
      ∷ wire "tx" (pin "0" "16")
      ∷ number "channel" 0
      ∷ number "dma" 0
      ∷ number "dma" 1
      ∷ [])
  pure (interface_object ∷ [])
