-- ===== src/M03x/System.antt =====
-- Interrupts and queues of examples/m03x_default/shared/board.c.
use halm_examples.Base.{ℕ, true, List, [], ◌∷◌}
use halm_examples.Board.{flag, word, wire, Prog, pure, ◌>>=◌, init, pin}

unfoldable pub board_setup_bod : Prog (List ℕ)
board_setup_bod = do
  interrupt ← init "Bod" (
      word "event" "INPUT_FALLING"
      ∷ word "level" "BOD_LEVEL_2V5"
      ∷ word "timeout" "BOD_TIMEOUT_HCLK_64"
      ∷ flag "slow" true
      ∷ [])
  pure (interrupt ∷ [])

unfoldable pub board_setup_button : Prog (List ℕ)
board_setup_button = do
  interrupt ← init "PinInt" (
      wire "pin" (pin "PORT_B" "15") ∷ word "event" "INPUT_FALLING" ∷ word "pull" "PIN_NOPULL" ∷ [])
  pure (interrupt ∷ [])
