-- ===== src/M03x/Memory.antt =====
-- Memories and cards of examples/m03x_default/shared/board.c.
use halm_examples.Base.{ℕ, List, [], ◌∷◌}
use halm_examples.Board.{word, Prog, pure, ◌>>=◌, init}

unfoldable pub board_setup_flash : Prog (List ℕ)
board_setup_flash = do
  interface_object ← init "Flash" (word "bank" "FLASH_APROM" ∷ [])
  pure (interface_object ∷ [])

unfoldable pub board_setup_flash_ldrom : Prog (List ℕ)
board_setup_flash_ldrom = do
  interface_object ← init "Flash" (word "bank" "FLASH_LDROM" ∷ [])
  pure (interface_object ∷ [])

unfoldable pub board_setup_flash_sprom : Prog (List ℕ)
board_setup_flash_sprom = do
  interface_object ← init "Flash" (word "bank" "FLASH_SPROM" ∷ [])
  pure (interface_object ∷ [])
