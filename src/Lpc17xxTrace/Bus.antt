-- ===== src/Lpc17xxTrace/Bus.antt =====
-- Buses of examples/lpc17xx_trace/shared/board.c.
use halm_examples.Base.{ℕ, List, [], ◌∷◌}
use halm_examples.Board.{number, wire, Prog, pure, ◌>>=◌, init, pin}

unfoldable pub board_setup_spi0 : Prog (List ℕ)
board_setup_spi0 = do
  interface_object ← init "SpiDma" (
      number "rate" 2000000
      ∷ wire "miso" (pin "0" "17")
      ∷ wire "mosi" (pin "0" "18")
      ∷ wire "sck" (pin "1" "20")
      ∷ number "channel" 0
      ∷ number "mode" 3
      ∷ number "dma" 0
      ∷ number "dma" 1
      ∷ [])
  pure (interface_object ∷ [])
