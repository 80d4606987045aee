-- ===== src/Lpc82x/Serial.antt =====
-- Serial ports and USB of examples/lpc82x_default/shared/board.c.
use halm_examples.Base.{ℕ, List, [], ◌∷◌}
use halm_examples.Board.{number, wire, Prog, pure, ◌>>=◌, init, pin}

unfoldable pub board_setup_serial : Prog (List ℕ)
board_setup_serial = do
  interface_object ← init "Serial" (
      number "rxLength" 128
      ∷ number "txLength" 128
      ∷ number "rate" 19200
      ∷ wire "rx" (pin "0" "26")
      ∷ wire "tx" (pin "0" "25")
      ∷ number "channel" 0
      ∷ [])
  pure (interface_object ∷ [])

unfoldable pub board_setup_serial_dma : Prog (List ℕ)
board_setup_serial_dma = do
  interface_object ← init "SerialDma" (
      number "rxChunks" 8
      ∷ number "rxLength" 128
      ∷ number "txLength" 128
      ∷ number "rate" 19200
      ∷ wire "rx" (pin "0" "26")
      ∷ wire "tx" (pin "0" "25")
      ∷ number "channel" 0
      ∷ number "oversampling" 15
      ∷ [])
  pure (interface_object ∷ [])

unfoldable pub board_setup_serial_poll : Prog (List ℕ)
board_setup_serial_poll = do
  interface_object ← init "SerialPoll" (
      number "rate" 19200
      ∷ wire "rx" (pin "0" "26")
      ∷ wire "tx" (pin "0" "25")
      ∷ number "channel" 0
      ∷ [])
  pure (interface_object ∷ [])
