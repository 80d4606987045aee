-- ===== src/Lpc13xx/Memory.antt =====
-- Memories and cards of examples/lpc13xx_default/shared/board.c.
use halm_examples.Base.{ℕ, List, [], ◌∷◌}
use halm_examples.Board.{Prog, pure, ◌>>=◌, init}

unfoldable pub board_setup_flash : Prog (List ℕ)
board_setup_flash = do interface_object ← init "Flash" []; pure (interface_object ∷ [])
