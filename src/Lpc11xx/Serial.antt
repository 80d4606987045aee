-- ===== src/Lpc11xx/Serial.antt =====
-- Serial ports and USB of examples/lpc11xx_default/shared/board.c.
use halm_examples.Base.{ℕ, List, [], ◌∷◌}
use halm_examples.Board.{number, wire, Prog, pure, ◌>>=◌, init, pin}

unfoldable pub board_setup_serial : Prog (List ℕ)
board_setup_serial = do
  interface_object ← init "Serial" (
      number "rxLength" 128
      ∷ number "txLength" 128
      ∷ number "rate" 19200
      ∷ wire "rx" (pin "1" "6")
      ∷ wire "tx" (pin "1" "7")
      ∷ number "channel" 0
      ∷ [])
  pure (interface_object ∷ [])
